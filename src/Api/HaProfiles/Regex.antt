-- ===== src/Api/HaProfiles/Regex.antt =====
-- Regular expressions and the texts that they match.
use ptp_operator_upstream.Base.{ℕ, Bool, true, [], ◌∷◌, ◌++◌, ◌≡◌, refl}
use ptp_operator_upstream.Base.Text.{Text}

pub data Regex : Type 0 where
  class : (ℕ → Bool) → Regex
  seq : Regex → Regex → Regex
  star : Regex → Regex

abbrev pub plus : Regex → Regex
plus r = seq r (star r)

pub data Matches : Regex → Text → Type 0 where
  one : {p : ℕ → Bool} (c : ℕ) → p c ≡ true → Matches (class p) (c ∷ [])
  both :
      {r q : Regex} {u : Text} (s t : Text)
      → Matches r s
      → Matches q t
      → u ≡ s ++ t
      → Matches (seq r q) u
  stop : {r : Regex} → Matches (star r) []
  more :
      {r : Regex} {u : Text} (s t : Text)
      → Matches r s
      → Matches (star r) t
      → u ≡ s ++ t
      → Matches (star r) u

pub class-inversion :
    {p : ℕ → Bool} {u : Text} → Matches (class p) u → (c : ℕ) × (p c ≡ true) × (u ≡ c ∷ [])
class-inversion (one c h) = (c, h, refl)

pub seq-inversion :
    {r q : Regex} {u : Text}
    → Matches (seq r q) u
    → (s : Text) × (t : Text) × Matches r s × Matches q t × (u ≡ s ++ t)
seq-inversion (both s t m n e) = (s, t, m, n, e)

pub star_induction :
    {r : Regex} {u : Text} (P : Text → Type 0)
    → P []
    → ((s t : Text) → Matches r s → P t → P (s ++ t))
    → Matches (star r) u
    → P u
star_induction P base extend stop = base
star_induction P base extend (more s t m n e) = rw e (extend s t m (star_induction P base extend n))
