-- ===== src/Server.antt =====
-- RunTFTPServer, IsDuplicateClientConnectionRequest, and the first and last lines of
-- ThreadDirectComm in src/TFTP.cpp: the listener and the list of active clients, which all threads
-- share. The threads' turns are a list of actions.
pub mod Registry
pub mod Overrun
pub mod Reuse
pub mod Steps
use tftp_server.Base.{
  ℕ, zero, suc, ◌+◌, ◌-◌, ◌<◌, List, [], ◌∷◌, ◌++◌, Option, none, some, Bool, true, false, not,
  ◌&&◌, ◌||◌, ltb, leb, ◌==◌, if◌then◌else◌, ◌>>=◌, ℤ, pos, ltb_ℤ, get_elem?, set, length, eqb_ℤ,
  pos_part, replicate,
}
use tftp_server.Config.{Config}

-- An element of ActiveClientList that is not NULL points into a session: which one, and the
-- client's address there.
pub record Entry : Type 0 where
  pub session : ℕ
  pub address : ℕ

-- ActiveClientList, TransferCounter, the sessions that exist, and those whose thread has been
-- created and has not run yet.
pub record Server : Type 0 where
  pub active : List (Option Entry)
  pub transfer_counter : ℕ
  pub live : List ℕ
  pub pending : List Entry

-- malloc of the list; its elements have no value yet, and none is read before it is written.
unfoldable pub start_server : Config → Server
start_server cfg = record {
  active = replicate (pos_part cfg.parallel_transfers_max + 1) none;
  transfer_counter = 0;
  live = [];
  pending = [];
}

unfoldable pub is_live : ℕ → List ℕ → Bool
is_live id [] = false
is_live id (x ∷ xs) = id == x || is_live id xs

unfoldable pub remove_live : ℕ → List ℕ → List ℕ
remove_live id [] = []
remove_live id (x ∷ xs) = let rest = remove_live id xs in if id == x then rest else x ∷ rest

-- IsDuplicateClientConnectionRequest: the loop over the first `n` elements. A pointer into a
-- session that has been deleted is read all the same, which is undefined.
unfoldable pub find_client : ℕ → ℕ → List ℕ → List (Option Entry) → Option Bool
unfolding is_live
find_client address zero live active = some false
find_client address (suc n) live [] = none
find_client address (suc n) live (none ∷ rest) = find_client address n live rest
find_client address (suc n) live (some entry ∷ rest) =
    let later = find_client address n live rest in
    if is_live entry.session live
    then (if address == entry.address then some true else later)
    else none

unfoldable pub is_duplicate_client : ℕ → Server → Option Bool
unfolding find_client
is_duplicate_client address v = find_client address v.transfer_counter v.live v.active

-- The test of RunTFTPServer. `&&` binds before `||`, so the search for a duplicate is made for a
-- WRQ only.
unfoldable pub admits : Config → ℕ → ℕ → ℕ → Server → Option Bool
admits cfg size op address v =
    if ltb 0 size && ltb_ℤ (pos v.transfer_counter) cfg.parallel_transfers_max
    then (if op == 1
        then some true
        else (if op == 2
            then (do found ← is_duplicate_client address v; some (not found))
            else some false))
    else some false

-- pthread_create: the session exists, and its thread has still to run.
unfoldable pub create_thread : Entry → Server → Server
create_thread x v = record v { live = x.session ∷ v.live; pending = v.pending ++ x ∷ [] }

-- The first lines of ThreadDirectComm.
unfoldable pub register : Entry → Server → Option Server
register x v =
    if ltb v.transfer_counter (length v.active)
    then some (record v {
      active = set v.active v.transfer_counter (some x);
      transfer_counter = v.transfer_counter + 1;
    })
    else none

-- Its last lines. The list is the shared one, and the element cleared is the last.
unfoldable pub unregister : ℕ → Server → Option Server
unfolding remove_live
unregister id v =
    if ltb 0 v.transfer_counter && leb v.transfer_counter (length v.active)
    then some (record v {
      active = set v.active (v.transfer_counter - 1) none;
      transfer_counter = v.transfer_counter - 1;
      live = remove_live id v.live;
    })
    else none

-- One turn: a request reaches the listener, the oldest created thread starts, a session ends.
pub data Action : Type 0 where
  request : ℕ → ℕ → Entry → Action
  thread_starts : Action
  session_ends : ℕ → Action

unfoldable pub start_pending : List Entry → Server → Option Server
unfolding register
start_pending [] v = some v
start_pending (x ∷ xs) v = register x (record v { pending = xs })

unfoldable pub act : Config → Action → Server → Option Server
unfolding start_pending unregister admits create_thread
act cfg (request size op x) v = do
  admitted ← admits cfg size op x.address v
  some (if admitted then create_thread x v else v)
act cfg thread_starts v = start_pending v.pending v
act cfg (session_ends id) v = unregister id v

unfoldable pub run : Config → List Action → Server → Option Server
unfolding act
run cfg [] v = some v
run cfg (a ∷ as') v = do v1 ← act cfg a v; run cfg as' v1
