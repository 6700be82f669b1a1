-- ===== src/Download/Allowed.antt =====
-- The packets that a client may get by an RRQ.
pub mod Begin
pub mod Run
use tftp_server.Base.{
  ℕ, suc, ◌+◌, ◌*◌, ◌<◌, List, [], ◌∷◌, ◌++◌, Option, none, some, Bool, true, false, ◌⊎◌, inl, inr,
  ◌≡◌, ◌≢◌, refl, arith, ltb, ◌==◌, if◌then◌else◌, ◌>>=◌, length, take, drop, All, ap, sym, subst,
  ◌∙◌, append-nil, append_assoc, Bool-cases, Option-cases, be16,
}
use tftp_server.Config.{Config}
use tftp_server.Session.{
  Env, Session, Status, not_initialized, server_to_client, send_ok, send_packet, touch,
  err_no_error, err_illegal_operation, err_file_not_found,
}
use tftp_server.Send.Data.{smsg_data, data_packet}
use tftp_server.Send.Error.{error_packet, smsg_error}
use tftp_server.Receive.{read_u16}
use tftp_server.Options.{
  Options, apply_option, answer, tsize_option, timeout_option, blksize_option, resize_buffer,
  windowsize_option, parse_options,
}
use tftp_server.Options.Induction.{parse_options-keeps}
use tftp_server.Request.{is_downloadable, cmsg_rrq, open_download, start_download}
use tftp_server.Request.Opened.{parse_options-file, open_request-reaches}
use tftp_server.Dispatch.{dispatch, parse_packet}
use tftp_server.Dispatch.Kept.{file_bytes}
use tftp_server.Thread.{
  Event, Turn, waits, ends, forward_packet, check_end, serve_packet, serve, thread_direct_comm,
}
use tftp_server.Thread.Kept.{session_of}
use tftp_server.Download.Answers.{IsAnswer, IsServing, IsAnswered, smsg_data-IsAnswered}
use tftp_server.Download.Safety.{Goes, smsg_data-Goes}
use tftp_server.Download.Safety.Loop.{serve-IsAnswered, forward_packet-Goes, check_end-Goes}

-- A file on the list of those that clients may read.
pub record Listed (cfg : Config) (e : Env) : Type 0 where
  pub name : List ℕ
  pub content : List ℕ
  pub on_list : is_downloadable name cfg.downloadable_file_names ≡ true
  pub opens : e.open_read name ≡ some content

-- An OACK, an error, or a block of such a file.
abbrev pub IsAllowedPacket : Config → Env → List ℕ → Type 0
IsAllowedPacket cfg e p =
    ((options : List ℕ) × (p ≡ be16 6 ++ options))
    ⊎ ((file : Listed cfg e) × (size : ℕ) × IsAnswer file.content size p)
    ⊎ ((code : ℕ) × (message : List ℕ) × (p ≡ error_packet code message))

-- What has been sent in between is allowed.
pub record IsAllowed (cfg : Config) (e : Env) (s s' : Session) : Type 0 where
  pub added : List (List ℕ)
  pub sent : s'.sent ≡ s.sent ++ added
  pub allowed : All (IsAllowedPacket cfg e) added

apply_option-sent :
    (cfg : Config) (e : Env) (name value : List ℕ) (o o' : Options)
    → apply_option cfg e name value o ≡ some o'
    → o'.session.sent ≡ o.session.sent
unfolding apply_option tsize_option timeout_option blksize_option resize_buffer windowsize_option
    answer
apply_option-sent cfg e name value o o' h = ground arith

module _ (cfg : Config) (e : Env) where
  All-append :
      (ps qs : List (List ℕ))
      → All (IsAllowedPacket cfg e) ps
      → All (IsAllowedPacket cfg e) qs
      → All (IsAllowedPacket cfg e) (ps ++ qs)
  All-append [] qs h k = k
  All-append (p ∷ ps) qs h k = (h.0, All-append ps qs h.1 k)

  pub IsAllowed-same : (s s' : Session) → s'.sent ≡ s.sent → IsAllowed cfg e s s'
  IsAllowed-same s s' h = record { added = []; sent = h ∙ sym (append-nil s.sent); allowed = tt }

  pub IsAllowed-trans :
      (s t u : Session) → IsAllowed cfg e s t → IsAllowed cfg e t u → IsAllowed cfg e s u
  IsAllowed-trans s t u a b = record {
    added = a.added ++ b.added;
    sent = b.sent ∙ ap (λ x. x ++ b.added) a.sent ∙ append_assoc s.sent a.added b.added;
    allowed = All-append a.added b.added a.allowed b.allowed;
  }

  -- One packet.
  pub IsAllowed-send :
      (s : Session) (p : List ℕ) → IsAllowedPacket cfg e p → IsAllowed cfg e s (send_packet e p s)
  IsAllowed-send s p h = elim (Bool-cases (send_ok e p s)) [
    | inl goes_out ↦ record { added = p ∷ []; sent = ground (arith, goes_out); allowed = (h, tt) }
    | inr fails ↦ IsAllowed-same s (send_packet e p s) (ground (arith, fails))
  ]

  pub IsAllowed-answers :
      (file : Listed cfg e) (size : ℕ) (s s' : Session)
      → IsAnswered file.content size s s'
      → IsAllowed cfg e s s'
  IsAllowed-answers file size s s' a = record {
    added = a.added;
    sent = a.sent;
    allowed = each a.added a.answers;
  }
    where
      each :
          (ps : List (List ℕ))
          → All (IsAnswer file.content size) ps
          → All (IsAllowedPacket cfg e) ps
      each [] h = tt
      each (p ∷ ps) h = (inr (inl (file, size, h.0)), each ps h.1)

  pub parse_options-IsAllowed :
      (size n : ℕ) (s s' : Session) → parse_options cfg e size n s ≡ some s' → IsAllowed cfg e s s'
  parse_options-IsAllowed size n s s' =
      parse_options-keeps cfg e size (IsAllowed cfg e s)
        (λ name value o o' a h.
          IsAllowed-trans s o.session o'.session a
            (IsAllowed-same o.session o'.session (apply_option-sent cfg e name value o o' h)))
        (λ t a. IsAllowed-trans s t _ a (IsAllowed-same t _ refl))
        (λ t options a.
          IsAllowed-trans s t _ a (IsAllowed-send t (be16 6 ++ options) (inl (options, refl))))
        n s s' (IsAllowed-same s s refl)
