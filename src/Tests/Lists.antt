-- ===== src/Tests/Lists.antt =====
-- A run of the search for a name that clients may read.
use mathlib.Core.Quot
use tftp_server.Base.{ℕ, List, [], ◌∷◌, true, inl, inr, ◌↔◌, ◌≡◌}
use tftp_server.Send.Error.{codes}
use tftp_server.Text.{to_lower}
use tftp_server.Request.{is_downloadable}
use tftp_server.Request.NameSet.{Has, SameNames, is_downloadable-Names}

abbrev two_names : List (List ℕ)
two_names = codes "a.bin" ∷ codes "b.bin" ∷ []

-- In another order, in other letters, and one of them twice.
abbrev same_names : List (List ℕ)
same_names = codes "B.BIN" ∷ codes "A.bin" ∷ codes "a.bin" ∷ []

two_names-SameNames : SameNames two_names same_names
unfolding to_lower
two_names-SameNames name = (to_same, to_two)
  where
    to_same : Has name two_names → Has name same_names
    to_same (inl a) = inr (inl a)
    to_same (inr (inl b)) = inl b
    to_same (inr (inr x)) = elim x [ ]

    to_two : Has name same_names → Has name two_names
    to_two (inl b) = inr (inl b)
    to_two (inr (inl a)) = inl a
    to_two (inr (inr (inl a))) = inl a
    to_two (inr (inr (inr x))) = elim x [ ]

is_downloadable-Names_example :
    (is_downloadable (codes "A.BIN") two_names ≡ is_downloadable (codes "A.BIN") same_names)
    × ((is_downloadable (codes "A.BIN") two_names ≡ true) ↔ Has (codes "A.BIN") two_names)
is_downloadable-Names_example =
    is_downloadable-Names (codes "A.BIN") two_names same_names (Quot.sound two_names-SameNames)
