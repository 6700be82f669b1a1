-- ===== src/Tests/Parts.antt =====
-- Runs of the parts of the server.
use tftp_server.Base.{
  ℕ, zero, suc, ◌-◌, ◌^◌, [], ◌∷◌, ◌++◌, some, true, pos, replicate, ◌≡◌, refl, arith,
}
use tftp_server.Session.{
  Session, Status, accepted, refused, client_to_server, server_to_client, new_session,
  err_illegal_operation, fresh,
}
use tftp_server.Send.Ack.{ack_packet}
use tftp_server.Send.Data.{over_limit, data_packet}
use tftp_server.Send.Error.{codes}
use tftp_server.Thread.{receive}
use tftp_server.Receive.{cmsg_data, take_data, cmsg_ack, take_ack}
use tftp_server.Receive.Bytes.{AreBytes}
use tftp_server.Receive.Safety.{IsReceiving, cmsg_data-total}
use tftp_server.Upload.{IsUploading}
use tftp_server.Upload.Faults.{IsOffStart, cmsg_data-empty, cmsg_data-stuck}
use tftp_server.Tests.{example_config, example_env, example_session, file_text, within_limit}

-- An upload with two blocks to the window, the first block of which is due.
abbrev two_blocks : Session
two_blocks = record example_session {
  selected_operation = client_to_server;
  window_size = pos 2;
  received = 0 ∷ 0 ∷ [];
  comm_socket = some 3;
  file = some (record { bytes = []; position = 0 });
  buffer = data_packet 1 (codes "abc") ++ replicate 511 0;
}

two_blocks-IsReceiving : IsReceiving two_blocks
unfolding new_session
two_blocks-IsReceiving = record {
  direction = refl;
  last = 1;
  window = refl;
  array = refl;
  buffer_size = refl;
  offsets = omega arith;
}

replicate-AreBytes : (n : ℕ) → AreBytes (replicate n 0)
replicate-AreBytes zero = omega arith
replicate-AreBytes (suc n) = (omega arith, replicate-AreBytes n)

two_blocks_AreBytes : AreBytes two_blocks.buffer
two_blocks_AreBytes = ground (arith, replicate-AreBytes 511)

cmsg_data-total_example :
    (s' : Session) × (st : Status) × (cmsg_data example_config example_env 7 two_blocks
      ≡ some (s', st))
    × IsReceiving s'
cmsg_data-total_example =
    cmsg_data-total example_config example_env 7 two_blocks two_blocks-IsReceiving
      two_blocks_AreBytes (omega arith)

refusal :
    cmsg_data example_config example_env 3 two_blocks
    ≡ some (record two_blocks { error = err_illegal_operation }, refused)
unfolding cmsg_data take_data
refusal = refl

-- The ACK of block 9 reaches a download whose window holds block 2 only.
abbrev one_block : Session
one_block = record example_session {
  selected_operation = server_to_client;
  first_block_in_window = 2;
  read_done = true;
  file = some (record { bytes = file_text; position = 515 });
  buffer = ack_packet 9 ++ replicate 514 0;
}

late_ack : cmsg_ack example_config example_env 4 one_block ≡ some (one_block, refused)
unfolding cmsg_ack take_ack new_session
late_ack = refl

-- An upload with one block to the window, of which nothing has been stored.
abbrev pub uploading : Session
uploading = record example_session {
  selected_operation = client_to_server;
  received = 0 ∷ [];
  comm_socket = some 3;
  block_size = 512;
  bytes_handled = 0;
  packet_timeout = pos 1;
  file = some (record { bytes = []; position = 0 });
}

pub uploading_start : IsUploading uploading 0 []
unfolding new_session fresh
uploading_start = record {
  direction = refl;
  one_block = refl;
  window_free = refl;
  next_block = refl;
  stored = refl;
  no_error = refl;
  not_done = refl;
  buffer_size = refl;
  socket = 3;
  has_socket = refl;
}

accepted_packet :
    (s' : Session) × (cmsg_data example_config example_env 4 (receive (data_packet 1 []) uploading)
      ≡ some (s', accepted))
accepted_packet =
    let (s', runs, sent, same, done) =
      cmsg_data-empty example_config example_env (λ n p. refl) uploading [] 0 uploading_start
        (omega arith) (omega arith) (omega arith) (within_limit 4 (omega arith) 4 (omega arith)) in
    (s', runs)

-- Block 1 of a window of two is stored and acknowledged; block 2 is due.
abbrev half_window : Session
half_window = record uploading {
  window_size = pos 2;
  received = 0 ∷ 0 ∷ [];
  first_block_in_window = 1;
  file = some (record { bytes = codes "abc"; position = 3 });
}

half_window-IsOffStart : IsOffStart half_window 1 0 (record { bytes = codes "abc"; position = 3 })
half_window-IsOffStart = record {
  direction = refl;
  blocks = refl;
  window_free = refl;
  next_block = refl;
  off_start = λ h. omega arith;
  opened = refl;
}

cmsg_data-stuck_example :
    (s' : Session) × (cmsg_data example_config example_env 7
        (receive (data_packet 2 (codes "def")) half_window)
      ≡ some (s', accepted))
    × (s'.sent ≡ half_window.sent ++ ack_packet 1 ∷ [])
    × (s'.first_block_in_window ≡ 1)
    × (s'.received ≡ half_window.received)
cmsg_data-stuck_example =
    cmsg_data-stuck example_config example_env (λ n p. refl) half_window (codes "def") 1 0
      (record { bytes = codes "abc"; position = 3 }) half_window-IsOffStart (omega arith)
      (omega arith) (omega arith) (omega arith) (within_limit 7 (omega arith) 7 (omega arith))

-- The client acknowledges block 2 ^ 16, whose number is sent as 0.
abbrev behind_last : Session
behind_last = record one_block {
  first_block_in_window = 2 ^ 16;
  buffer = ack_packet 0 ++ replicate 514 0;
}

behind_last_AreBytes : AreBytes behind_last.buffer
behind_last_AreBytes = ground (arith, replicate-AreBytes 514)

ack_after_last : cmsg_ack example_config example_env 4 behind_last ≡ some (behind_last, refused)
unfolding cmsg_ack take_ack new_session
ack_after_last = refl

abbrev last_stored : Session
last_stored = record uploading {
  first_block_in_window = 2 ^ 16 - 1;
  buffer = data_packet 0 (codes "abc") ++ replicate 511 0;
}

last_stored_AreBytes : AreBytes last_stored.buffer
last_stored_AreBytes = ground (arith, replicate-AreBytes 511)

data_after_last :
    cmsg_data example_config example_env 7 last_stored
    ≡ some (record last_stored { bytes_handled = 7 }, refused)
unfolding cmsg_data take_data over_limit
data_after_last = refl
