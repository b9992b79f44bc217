-- ===== src/Api/HaProfiles/Pattern.antt =====
-- The pattern of the names of profiles, and the rest of a text that it matches.
use ptp_operator_upstream.Base.{ℕ, Bool, true, false, [], ◌∷◌, ◌≡◌, refl, ap, arith, ◌==◌}
use ptp_operator_upstream.Base.Text.{Text}
use ptp_operator_upstream.Api.HaProfiles.Regex.{
  Regex, class, seq, star, plus, Matches, one, both, stop, more, seq-inversion,
}
use ptp_operator_upstream.Api.HaProfiles.{
  is_name_char, is_blank, Mode, at_start, in_name, in_gap, dead,
}

abbrev pub is_comma : ℕ → Bool
is_comma c = c == b','

-- `[\w\-_]+`.
abbrev pub name_regex : Regex
name_regex = plus (class is_name_char)

-- `(,\s*([\w\-_]+))*`.
abbrev pub tail_regex : Regex
tail_regex = star (seq (class is_comma) (seq (star (class is_blank)) name_regex))

-- `^([\w\-_]+)(,\s*([\w\-_]+))*$`.
abbrev pub profile_reg_ex : Regex
profile_reg_ex = seq name_regex tail_regex

-- What the rest of an accepted text matches, in each mode.
abbrev pub rest_regex : Mode → Regex
rest_regex at_start = profile_reg_ex
rest_regex in_name = seq (star (class is_name_char)) tail_regex
rest_regex in_gap = seq (seq (star (class is_blank)) name_regex) tail_regex
rest_regex dead = class (λ _. false)

-- One more code point in front of the first part.
pub shift_name :
    (c : ℕ) {s : Text}
    → is_name_char c ≡ true
    → Matches (seq (star (class is_name_char)) tail_regex) s
    → Matches (seq name_regex tail_regex) (c ∷ s)
shift_name c h m =
    let (a, b, ma, mb, e) = seq-inversion m in
    both (c ∷ a) b (both (c ∷ []) a (one c h) ma refl) mb (ap (◌∷◌ c) e)

pub sound_name :
    (c : ℕ) {s : Text}
    → is_name_char c ≡ true
    → Matches (rest_regex in_name) s
    → Matches (rest_regex in_name) (c ∷ s)
sound_name c h m =
    let (a, b, ma, mb, e) = seq-inversion m in
    both (c ∷ a) b (more (c ∷ []) a (one c h) ma refl) mb (ap (◌∷◌ c) e)

pub sound_comma :
    {s : Text} → Matches (rest_regex in_gap) s → Matches (rest_regex in_name) (b',' ∷ s)
sound_comma m =
    let (a, b, ma, mb, e) = seq-inversion m in
    both [] (b',' ∷ _) stop
      (more (b',' ∷ a) b (both (b',' ∷ []) a (one b',' refl) ma refl) mb (ap (◌∷◌ b',') e)) refl

pub sound_blank :
    (c : ℕ) {s : Text}
    → is_blank c ≡ true
    → Matches (rest_regex in_gap) s
    → Matches (rest_regex in_gap) (c ∷ s)
sound_blank c h m =
    let (a, b, ma, mb, e) = seq-inversion m in
    let (w, n, mw, mn, f) = seq-inversion ma in
    both (c ∷ a) b (both (c ∷ w) n (more (c ∷ []) w (one c h) mw refl) mn (ap (◌∷◌ c) f)) mb
      (ap (◌∷◌ c) e)

pub sound_gap :
    (c : ℕ) {s : Text}
    → is_name_char c ≡ true
    → Matches (rest_regex in_name) s
    → Matches (rest_regex in_gap) (c ∷ s)
sound_gap c h m =
    let (a, b, ma, mb, e) = seq-inversion m in
    both (c ∷ a) b (both [] (c ∷ a) stop (both (c ∷ []) a (one c h) ma refl) refl) mb (ap (◌∷◌ c) e)

pub comma_only : (c : ℕ) → is_comma c ≡ true → c ≡ b','
comma_only c h = ground arith
