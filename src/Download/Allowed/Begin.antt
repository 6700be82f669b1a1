-- ===== src/Download/Allowed/Begin.antt =====
-- What CMSG_RRQ makes of a session.
use tftp_server.Base.{
  ℕ, List, none, some, ◌⊎◌, inl, inr, ◌≡◌, ◌≢◌, refl, arith, ltb, subst, ◌∙◌, Bool-cases,
  Option-cases,
}
use tftp_server.Config.{Config}
use tftp_server.Session.{Env, Session, Status, not_initialized, server_to_client, err_no_error}
use tftp_server.Send.Data.{smsg_data}
use tftp_server.Receive.{read_u16}
use tftp_server.Options.{parse_options}
use tftp_server.Request.{is_downloadable, cmsg_rrq, open_download, start_download}
use tftp_server.Request.Opened.{parse_options-file, open_request-reaches}
use tftp_server.Dispatch.{dispatch, parse_packet}
use tftp_server.Dispatch.Kept.{file_bytes}
use tftp_server.Download.Answers.{IsServing}
use tftp_server.Download.Safety.{smsg_data-Goes}
use tftp_server.Download.Allowed.{
  Listed, IsAllowed, IsAllowed-same, IsAllowed-trans, IsAllowed-answers, parse_options-IsAllowed,
}

module _ (cfg : Config) (e : Env) where
  -- The request is refused, with nothing sent, or it begins a download of a file on the list.
  pub record Serves (s s' : Session) : Type 0 where
    pub file : Listed cfg e
    pub size : ℕ
    pub serving : IsServing file.content size s'
    pub allowed : IsAllowed cfg e s s'

  Serves-from : (s t s' : Session) → t.sent ≡ s.sent → Serves t s' → Serves s s'
  Serves-from s t s' same x = record {
    file = x.file;
    size = x.size;
    serving = x.serving;
    allowed = IsAllowed-trans cfg e s t s' (IsAllowed-same cfg e s t same) x.allowed;
  }

  abbrev pub Begins : Session → Session → Type 0
  Begins s s' = ((s'.error ≢ err_no_error) × (s'.sent ≡ s.sent)) ⊎ Serves s s'

  start_download-Serves :
      (file : Listed cfg e) (size n : ℕ) (s s' : Session) (st : Status)
      → file_bytes s ≡ some file.content
      → start_download cfg e size n s ≡ some (s', st)
      → Serves s s'
  unfolding start_download
  start_download-Serves file size n s s' st opened h =
      elim (Option-cases (parse_options cfg e size n s)) [
        | inl fault ↦ absurd (ground (arith, fault))
        | inr (s1, parsed) ↦
            let s2 : Session = record s1 {
              selected_operation = server_to_client;
              first_block_in_window = 1;
            } in
            let g : IsServing file.content s1.block_size s2 = record {
              direction = refl;
              opened = parse_options-file cfg e size n s s1 parsed ∙ opened;
              block_size = refl;
              due = omega arith;
            } in
            elim (Option-cases (smsg_data cfg e s2)) [
              | inl fault ↦ absurd (ground (arith, parsed, fault))
              | inr (s3, sent) ↦
                  let result : s3 ≡ s' = ground (arith, parsed, sent) in
                  let goes = smsg_data-Goes file.content s1.block_size cfg e s2 s3 g sent in
                  subst (Serves s) result (record {
                    file = file;
                    size = s1.block_size;
                    serving = goes.serving;
                    allowed =
                        IsAllowed-trans cfg e s s1 s3
                          (parse_options-IsAllowed cfg e size n s s1 parsed)
                          (IsAllowed-trans cfg e s1 s2 s3 (IsAllowed-same cfg e s1 s2 refl)
                            (IsAllowed-answers cfg e file s1.block_size s2 s3 goes.answered));
                  })
            ]
      ]

  open_download-Begins :
      (size n : ℕ) (name : List ℕ) (s s' : Session) (st : Status)
      → open_download cfg e size name n s ≡ some (s', st)
      → Begins s s'
  unfolding open_download
  open_download-Begins size n name s s' st h =
      elim (Bool-cases (is_downloadable name cfg.downloadable_file_names)) [
        | inr unlisted ↦ inl (ground (arith, unlisted))
        | inl listed ↦ elim (Option-cases (e.open_read name)) [
          | inl locked ↦ inl (ground (arith, listed, locked))
          | inr (content, opened) ↦
              let s1 : Session = record s {
                file = some (record { bytes = content; position = 0 });
              } in
              let file : Listed cfg e = record {
                name = name;
                content = content;
                on_list = listed;
                opens = opened;
              } in
              inr (
                Serves-from s s1 s' refl (
                  start_download-Serves file size n s1 s' st refl (ground (arith, listed, opened))))
        ]
      ]

  cmsg_rrq-Begins :
      (size : ℕ) (s s' : Session) (st : Status)
      → s.selected_operation ≡ not_initialized
      → s.file ≡ none
      → cmsg_rrq cfg e size s ≡ some (s', st)
      → Begins s s'
  unfolding cmsg_rrq
  cmsg_rrq-Begins size s s' st idle closed h =
      elim (open_request-reaches cfg e size (open_download cfg e size) s s' st closed
        (ground (arith, idle))) [
          | inl (none_open, illegal, same) ↦ inl (ground (arith, illegal), same)
          | inr (name, n, s1, still_closed, same, asked, runs) ↦
              elim (open_download-Begins size n name s1 s' st runs) [
                | inl (failed, kept) ↦ inl (failed, kept ∙ same)
                | inr begun ↦ inr (Serves-from s s1 s' same begun)
              ]
        ]

  pub parse_packet-Begins :
      (size : ℕ) (s s' : Session) (st : Status)
      → s.selected_operation ≡ not_initialized
      → s.file ≡ none
      → read_u16 s.buffer 0 ≡ some 1
      → parse_packet cfg e size s ≡ some (s', st)
      → Begins s s'
  unfolding parse_packet dispatch
  parse_packet-Begins size s s' st idle closed rrq h = elim (Bool-cases (ltb size 2)) [
    | inl short ↦ inl (ground (arith, short))
    | inr long ↦ cmsg_rrq-Begins size s s' st idle closed (ground (arith, long, rrq))
  ]
