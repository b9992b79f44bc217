-- ===== src/Base/Text/Split.antt =====
-- `split` and `index_byte` against the piece in front of the first separator and the rest.
use Prim.Native.Nat.{ℕ, suc}
use mathlib.Core.Path.{◌≡◌, refl, ap}
use mathlib.Core.Bool.{true, false}
use mathlib.Core.Option.{none, some}
use mathlib.Core.List.{List, [], ◌∷◌, ◌++◌}
use mathlib.Core.Logic.{inl, inr}
use native.Mathlib.Omega.{arith}
use ptp_operator_upstream.Base.Tests.{◌==◌, Bool-cases}
use ptp_operator_upstream.Base.Lists.{length, take, drop}
use ptp_operator_upstream.Base.Text.{Text, contains, until, after, extend, split, index_byte}

pub split-contains :
    (c : ℕ) (s : Text) → contains c s ≡ true → split c s ≡ until c s ∷ split c (after c s)
unfolding contains until after split
split-contains c [] h = cc
split-contains c (x ∷ s) h = elim (Bool-cases (x == c)) [
  | inl e ↦ rw e
  | inr e ↦ rw e (ap (extend x) (split-contains c s (rw e at h)))
]

pub split_whole : (c : ℕ) (s : Text) → contains c s ≡ false → split c s ≡ s ∷ []
unfolding contains split
split_whole c [] h = refl
split_whole c (x ∷ s) h = ground (arith, split_whole c s)

-- A split is never empty.
pub split_cons : (c : ℕ) (s : Text) → (p : Text) × (ps : List Text) × (split c s ≡ p ∷ ps)
split_cons c s = elim (Bool-cases (contains c s)) [
  | inl e ↦ (_, _, split-contains c s e)
  | inr e ↦ (_, _, split_whole c s e)
]

pub index_byte_found :
    (c : ℕ) (s : Text) → contains c s ≡ true → index_byte c s ≡ some (length (until c s))
unfolding contains until index_byte
index_byte_found c [] h = cc
index_byte_found c (x ∷ s) h = elim (Bool-cases (x == c)) [
  | inl e ↦ rw e
  | inr e ↦ rw (e, index_byte_found c s (rw e at h))
]

pub index_byte_missing : (c : ℕ) (s : Text) → contains c s ≡ false → index_byte c s ≡ none
unfolding contains index_byte
index_byte_missing c [] h = refl
index_byte_missing c (x ∷ s) h = ground (arith, index_byte_missing c s)

pub take-until : (c : ℕ) (s : Text) → take (length (until c s)) s ≡ until c s
unfolding until
take-until c [] = refl
take-until c (x ∷ s) = ground (arith, take-until c s)

pub drop-until : (c : ℕ) (s : Text) → drop (suc (length (until c s))) s ≡ after c s
unfolding until after
drop-until c [] = refl
drop-until c (x ∷ s) = ground (arith, drop-until c s)

pub split-append : (c : ℕ) (s t : Text) → split c (s ++ c ∷ t) ≡ split c s ++ split c t
unfolding split
split-append c [] t = ground arith
split-append c (x ∷ s) t = elim (Bool-cases (x == c)) [
  | inl e ↦ rw (e, split-append c s t)
  | inr e ↦ let (p, ps, q) = split_cons c s in rw (e, split-append c s t, q)
]

pub contains-append :
    (c : ℕ) (s t : Text) → contains c s ≡ false → contains c (s ++ t) ≡ contains c t
unfolding contains
contains-append c [] t h = refl
contains-append c (x ∷ s) t h = ground (arith, contains-append c s t)

pub until-append : (c : ℕ) (s t : Text) → contains c s ≡ false → until c (s ++ c ∷ t) ≡ s
unfolding contains until
until-append c [] t h = ground arith
until-append c (x ∷ s) t h = ground (arith, until-append c s t)

contains-until : (c : ℕ) (s : Text) → contains c (until c s) ≡ false
unfolding contains until
contains-until c [] = refl
contains-until c (x ∷ s) = elim (Bool-cases (x == c)) [
  | inl e ↦ rw e
  | inr e ↦ rw (e, e) (contains-until c s)
]
