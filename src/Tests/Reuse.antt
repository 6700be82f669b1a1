-- ===== src/Tests/Reuse.antt =====
-- A run of the listener that hands its socket over.
use tftp_server.Base.{ℕ, ◌+◌, List, [], ◌∷◌, some, length, ◌≡◌, refl, arith, inl, inr, All}
use tftp_server.Session.{new_session, fresh}
use tftp_server.Send.Error.{codes}
use tftp_server.Server.Reuse.{Listener, Arrival, listens, start_listener, reuse_run}
use tftp_server.Server.Reuse.Leak.{IsUnterminated, reuse_run-leaks}
use tftp_server.Tests.{example_config, example_env}

abbrev arrival : ℕ → List ℕ → Arrival
arrival id packet = record {
  sender = record { session = id; address = 7 };
  packet = packet;
  session = new_session example_config example_env 49152;
  events = [];
}

-- A read request and a write request without the end of their names.
abbrev arrivals : List Arrival
arrivals = arrival 1 (0 ∷ 1 ∷ codes "a.bin") ∷ arrival 2 (0 ∷ 2 ∷ []) ∷ []

arrivals_cut : All IsUnterminated arrivals
unfolding new_session fresh
arrivals_cut = (
  record {
    op = 1;
    name = codes "a.bin";
    request = inl refl;
    shape = refl;
    is_text = omega arith;
    fits = omega arith;
    idle = refl;
    no_socket = refl;
    none_closed = refl;
    buffer_size = refl;
  },
  (
    record {
      op = 2;
      name = [];
      request = inr refl;
      shape = refl;
      is_text = tt;
      fits = omega arith;
      idle = refl;
      no_socket = refl;
      none_closed = refl;
      buffer_size = refl;
    },
    tt,
  ),
)

reuse_run-leaks_example :
    (l : Listener) × (reuse_run example_config example_env 69 arrivals
        (start_listener example_config example_env 69)
      ≡ some (listens l))
    × (l.released ≡ [])
    × (length l.opened ≡ 3)
reuse_run-leaks_example =
    reuse_run-leaks example_config example_env 69 (λ n. n + 3) (λ n. refl) refl arrivals
      arrivals_cut
