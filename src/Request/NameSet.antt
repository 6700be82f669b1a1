-- ===== src/Request/NameSet.antt =====
-- The list of names that clients may read, as the set that the search of CMSG_RRQ takes it for.
use mathlib.Core.Bool.{Bool-set}
use mathlib.Core.Quot
use mathlib.Core.Quot.{Quot}
use tftp_server.Base.{
  ℕ, List, [], ◌∷◌, Bool, true, ◌==◌, map, ◌⊎◌, inl, inr, ◌↔◌, ◌≡◌, refl, arith, ap, ap₂, sym, ◌∙◌,
  Bool-cases,
}
use tftp_server.Text.{to_lower, stricmp_eq}
use tftp_server.Request.{is_downloadable}

abbrev lowered : List ℕ → List ℕ
lowered = map to_lower

-- strcasecmp finds two texts equal if and only if they are the same in lower case.
stricmp_eq-lowered : (s t : List ℕ) → stricmp_eq s t ≡ true → lowered s ≡ lowered t
unfolding stricmp_eq
stricmp_eq-lowered [] [] h = refl
stricmp_eq-lowered [] (d ∷ ds) h = absurd cc
stricmp_eq-lowered (c ∷ cs) [] h = absurd cc
stricmp_eq-lowered (c ∷ cs) (d ∷ ds) h = elim (Bool-cases (to_lower c == to_lower d)) [
  | inl same ↦
      let head : to_lower c ≡ to_lower d = ground (arith, same) in
      ap₂ (λ x xs. x ∷ xs) head (stricmp_eq-lowered cs ds (ground (arith, same)))
  | inr other ↦ absurd (ground (arith, other))
]

lowered-stricmp_eq : (s t : List ℕ) → lowered s ≡ lowered t → stricmp_eq s t ≡ true
unfolding stricmp_eq
lowered-stricmp_eq [] [] h = refl
lowered-stricmp_eq [] (d ∷ ds) h = absurd cc
lowered-stricmp_eq (c ∷ cs) [] h = absurd cc
lowered-stricmp_eq (c ∷ cs) (d ∷ ds) h =
    let head : to_lower c ≡ to_lower d = cc in
    let same : (to_lower c == to_lower d) ≡ true = ground (arith, head) in
    let tail : lowered cs ≡ lowered ds = cc in rw same (lowered-stricmp_eq cs ds tail)

-- A list of names has a name, but for the case of its letters.
abbrev pub Has : List ℕ → List (List ℕ) → Type 0
Has name [] = ⊥
Has name (n ∷ ns) = (lowered name ≡ lowered n) ⊎ Has name ns

is_downloadable-Has :
    (name : List ℕ) (names : List (List ℕ)) → is_downloadable name names ≡ true → Has name names
unfolding is_downloadable
is_downloadable-Has name [] h = absurd cc
is_downloadable-Has name (n ∷ ns) h = elim (Bool-cases (stricmp_eq name n)) [
  | inl same ↦ inl (stricmp_eq-lowered name n same)
  | inr other ↦ inr (is_downloadable-Has name ns (ground (arith, other)))
]

Has-is_downloadable :
    (name : List ℕ) (names : List (List ℕ)) → Has name names → is_downloadable name names ≡ true
unfolding is_downloadable
Has-is_downloadable name [] h = absurd h
Has-is_downloadable name (n ∷ ns) (inl same) = rw (lowered-stricmp_eq name n same) refl
Has-is_downloadable name (n ∷ ns) (inr later) =
    ground (arith, Has-is_downloadable name ns later, Bool-cases (stricmp_eq name n))

-- Two lists have the same names: their order, repetitions and the case of letters do not count.
abbrev pub SameNames : List (List ℕ) → List (List ℕ) → Type 0
SameNames xs ys = (name : List ℕ) → Has name xs ↔ Has name ys

-- The names as a set.
abbrev pub Names : Type 0
Names = Quot SameNames

is_downloadable-SameNames :
    (name : List ℕ) (xs ys : List (List ℕ))
    → SameNames xs ys
    → is_downloadable name xs ≡ is_downloadable name ys
is_downloadable-SameNames name xs ys h = elim (Bool-cases (is_downloadable name xs)) [
  | inl found ↦
      found ∙ sym (Has-is_downloadable name ys ((h name).0 (is_downloadable-Has name xs found)))
  | inr missing ↦ elim (Bool-cases (is_downloadable name ys)) [
    | inl found ↦
        let there = Has-is_downloadable name xs ((h name).1 (is_downloadable-Has name ys found)) in
        absurd (ground (arith, there, missing))
    | inr missing_too ↦ missing ∙ sym missing_too
  ]
]

-- The search as a test on the set.
unfoldable may_read : List ℕ → Names → Bool
may_read name = Quot.lift Bool-set (is_downloadable name) (is_downloadable-SameNames name)

-- Two lists of names that are the same set give the same answers, and the answer is whether the
-- name is on the list, but for the case of its letters.
pub is_downloadable-Names :
    (name : List ℕ) (xs ys : List (List ℕ))
    → ◌≡◌ {A = Names} (Quot.mk xs) (Quot.mk ys)
    → (is_downloadable name xs ≡ is_downloadable name ys)
      × ((is_downloadable name xs ≡ true) ↔ Has name xs)
unfolding may_read
is_downloadable-Names name xs ys same =
    (ap (may_read name) same, (is_downloadable-Has name xs, Has-is_downloadable name xs))
