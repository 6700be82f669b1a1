-- ===== src/Server/Steps.antt =====
-- The servers that RunTFTPServer and its threads reach where each thread runs its first lines
-- before the next request is looked at, as a step relation.
use tftp_server.Base.{ℕ, ◌+◌, ◌≤◌, List, [], ◌∷◌, some, Bool, true, false, length, ◌≡◌}
use tftp_server.Config.{Config}
use tftp_server.Server.{Entry, Server, request, thread_starts, session_ends, is_live, admits, act}

-- A request and, if it is admitted, the start of its thread, whose session is a new one; or the end
-- of a session.
pub data Step (cfg : Config) : Server → Server → Type 0 where
  request_handled :
      {v v1 v2 : Server} (size op : ℕ) (x : Entry)
      → is_live x.session v.live ≡ false
      → act cfg (request size op x) v ≡ some v1
      → act cfg thread_starts v1 ≡ some v2
      → Step cfg v v2
  session_ended :
      {v v1 : Server} (id : ℕ)
      → is_live id v.live ≡ true
      → act cfg (session_ends id) v ≡ some v1
      → Step cfg v v1

pub data Reaches (cfg : Config) (u : Server) : Server → Type 0 where
  at_start : Reaches cfg u u
  stepped : {v w : Server} → Reaches cfg u v → Step cfg v w → Reaches cfg u w

-- No two of the sessions are the same.
abbrev pub AllDistinct : List ℕ → Type 0
AllDistinct [] = Unit
AllDistinct (x ∷ xs) = (is_live x xs ≡ false) × AllDistinct xs

-- The counter counts the sessions, of which there are `m` at most, and the list has room for one
-- more.
pub record IsSound (m : ℕ) (v : Server) : Type 0 where
  pub room : length v.active ≡ m + 1
  pub counted : v.transfer_counter ≡ length v.live
  pub limited : v.transfer_counter ≤ m
  pub none_pending : v.pending ≡ []
  pub distinct : AllDistinct v.live

-- What may come next.
pub data Next : Type 0 where
  a_request : ℕ → ℕ → Entry → Next
  an_end : ℕ → Next

-- The request brings a new session, and the search for a duplicate reads no session that has been
-- deleted; or the session that ends is there.
abbrev pub IsPossible : Config → Server → Next → Type 0
IsPossible cfg v (a_request size op x) =
    (is_live x.session v.live ≡ false) × ((b : Bool) × (admits cfg size op x.address v ≡ some b))
IsPossible cfg v (an_end id) = is_live id v.live ≡ true
