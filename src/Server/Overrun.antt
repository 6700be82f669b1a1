-- ===== src/Server/Overrun.antt =====
-- The limit on parallel transfers, which RunTFTPServer tests when a request arrives, and which
-- ThreadDirectComm counts when the thread runs.
use tftp_server.Base.{
  ℕ, zero, suc, ◌+◌, ◌≤◌, List, [], ◌∷◌, ◌++◌, Option, none, some, true, pos, ltb_ℤ, replicate,
  length, length-replicate, length-set, ◌≡◌, refl, arith, ◌∙◌, append_assoc, append-nil, set,
  pos_part,
}
use tftp_server.Config.{Config}
use tftp_server.Server.{
  Entry, Server, Action, request, thread_starts, act, run, admits, create_thread, start_pending,
  register, start_server,
}

-- A read request of one byte or more from each client.
abbrev pub requests : List Entry → List Action
requests [] = []
requests (x ∷ xs) = request 512 1 x ∷ requests xs

abbrev all_live : List Entry → List ℕ → List ℕ
all_live [] live = live
all_live (x ∷ xs) live = all_live xs (x.session ∷ live)

abbrev with_pending : List Entry → Server → Server
with_pending xs v = record v { live = all_live xs v.live; pending = v.pending ++ xs }

-- While no thread runs, every request is admitted.
run-requests :
    (cfg : Config) (xs : List Entry) (as' : List Action) (v : Server)
    → ltb_ℤ (pos v.transfer_counter) cfg.parallel_transfers_max ≡ true
    → run cfg (requests xs ++ as') v ≡ run cfg as' (with_pending xs v)
unfolding run act admits create_thread
run-requests cfg [] as' v room = simp append-nil
run-requests cfg (x ∷ xs) as' v room = ground (
  arith,
  run-requests cfg xs as' (record v { live = x.session ∷ v.live; pending = v.pending ++ x ∷ [] }),
  append_assoc v.pending (x ∷ []) xs,
)

-- More threads start than the list has elements left.
run-starts :
    (cfg : Config) (k : ℕ) (xs : List Entry) (v : Server)
    → v.pending ≡ xs
    → suc k ≤ length xs
    → length v.active ≤ v.transfer_counter + k
    → run cfg (replicate (suc k) thread_starts) v ≡ none
unfolding run act start_pending register
run-starts cfg zero [] v p h1 h2 = absurd (omega arith)
run-starts cfg zero (x ∷ xs) v p h1 h2 = ground arith
run-starts cfg (suc k) [] v p h1 h2 = absurd (omega arith)
run-starts cfg (suc k) (x ∷ xs) v p h1 h2 = ground (
  arith,
  length-set v.active v.transfer_counter (some x),
  run-starts cfg k xs
      (record v {
        active = set v.active v.transfer_counter (some x);
        transfer_counter = v.transfer_counter + 1;
        pending = xs;
      })
      refl,
)

-- Two requests more than the limit, all of them before the first of their threads runs: when the
-- threads then start, one of them writes behind the end of the list.
pub run-overrun :
    (cfg : Config) (m : ℕ) (xs : List Entry)
    → cfg.parallel_transfers_max ≡ pos (suc m)
    → length xs ≡ suc m + 2
    → run cfg (requests xs ++ replicate (suc (suc m + 1)) thread_starts) (start_server cfg) ≡ none
unfolding start_server
run-overrun cfg m xs limit n =
    run-requests cfg xs _ (start_server cfg) (ground arith)
    ∙ run-starts cfg (suc m + 1) xs (with_pending xs (start_server cfg)) refl (omega arith) (
        ground (
          arith,
          length-replicate {A = Option Entry} (pos_part cfg.parallel_transfers_max + 1) none,
        ))
