-- ===== src/Tests/Files.antt =====
-- A run of the loader on a file.
use tftp_server.Base.{List, [], ◌∷◌, some, All, ◌≡◌, arith}
use tftp_server.Send.Error.{codes}
use tftp_server.Loader.{load_multi_line_value}
use tftp_server.Loader.Lines.{config_lines}
use tftp_server.Loader.Values.{Setting, IsSetting}
use tftp_server.Loader.File.{IsWritten, write_settings, load_multi_line_value-write_settings}

-- The lines `UploadableFileName=a.bin` and `UploadableFileNames=b.bin`.
abbrev two_settings : List Setting
two_settings =
    record { name = codes "UploadableFileName"; value = codes "a.bin" }
    ∷ record { name = codes "UploadableFileNames"; value = codes "b.bin" }
    ∷ []

two_settings-IsSetting : All IsSetting two_settings
two_settings-IsSetting = (
  record {
    not_empty = omega arith;
    no_equals = ground arith;
    one_line = ground arith;
    fits = omega arith;
  },
  (
    record {
      not_empty = omega arith;
      no_equals = ground arith;
      one_line = ground arith;
      fits = omega arith;
    },
    tt,
  ),
)

two_settings-IsWritten : All IsWritten two_settings
two_settings-IsWritten = (
  record {
    setting = two_settings-IsSetting.0;
    name_text = ground arith;
    value_text = ground arith;
  },
  (
    record {
      setting = two_settings-IsSetting.1.0;
      name_text = ground arith;
      value_text = ground arith;
    },
    tt,
  ),
)

load_multi_line_value-write_settings_example :
    load_multi_line_value
      (config_lines (some (write_settings two_settings)))
      (codes "UploadableFileName")
    ≡ codes "a.bin" ∷ codes "b.bin" ∷ []
load_multi_line_value-write_settings_example =
    load_multi_line_value-write_settings two_settings (codes "UploadableFileName")
      two_settings-IsWritten (ground arith)
