-- ===== src/Api/HaProfiles/Matching.antt =====
-- The machine accepts a text exactly if the pattern of the source matches it.
use mathlib.Core.List.{append_assoc}
use ptp_operator_upstream.Base.{
  ℕ, true, false, [], ◌∷◌, ◌++◌, ◌≡◌, ◌↔◌, inl, inr, refl, ◌∙◌, arith, ◌==◌, Bool-cases,
}
use ptp_operator_upstream.Base.Text.{Text}
use ptp_operator_upstream.Api.HaProfiles.Regex.{
  class, seq, star, Matches, both, stop, class-inversion, seq-inversion, star_induction,
}
use ptp_operator_upstream.Api.HaProfiles.{
  is_name_char, is_blank, Mode, at_start, in_name, in_gap, dead, step, accepts, is_profile_list,
}
use ptp_operator_upstream.Api.HaProfiles.Pattern.{
  is_comma, name_regex, tail_regex, profile_reg_ex, rest_regex, shift_name, sound_name, sound_comma,
  sound_blank, sound_gap, comma_only,
}

dead-accepts : (s : Text) → accepts dead s ≡ false
unfolding accepts step
dead-accepts [] = refl
dead-accepts (c ∷ s) = dead-accepts s

-- The classes of the pattern are disjoint.
comma-is_name_char : is_name_char b',' ≡ false
unfolding is_name_char
comma-is_name_char = refl

blank-is_name_char : (c : ℕ) → is_name_char c ≡ true → is_blank c ≡ false
unfolding is_name_char is_blank
blank-is_name_char c h = ground arith

module _ (c : ℕ) where
  step_start_name : is_name_char c ≡ true → step at_start c ≡ in_name
  unfolding step
  step_start_name h = rw h

  step_start_other : is_name_char c ≡ false → step at_start c ≡ dead
  unfolding step
  step_start_other h = rw h

  step_name_name : is_name_char c ≡ true → step in_name c ≡ in_name
  unfolding step
  step_name_name h = rw h

  step_name_other : is_name_char c ≡ false → (c == b',') ≡ false → step in_name c ≡ dead
  unfolding step
  step_name_other h k = rw (h, k)

  step_gap_blank : is_blank c ≡ true → step in_gap c ≡ in_gap
  unfolding step
  step_gap_blank h = rw h

  step_gap_name : is_name_char c ≡ true → step in_gap c ≡ in_name
  unfolding step
  step_gap_name h = rw (blank-is_name_char c h, h)

  step_gap_other : is_blank c ≡ false → is_name_char c ≡ false → step in_gap c ≡ dead
  unfolding step
  step_gap_other h k = rw (h, k)

accepts-cons : (m : Mode) (c : ℕ) (s : Text) → accepts m (c ∷ s) ≡ accepts (step m c) s
unfolding accepts
accepts-cons m c s = refl

step_name_comma : step in_name b',' ≡ in_gap
unfolding step
step_name_comma = rw comma-is_name_char

accepts-Matches : (m : Mode) (s : Text) → accepts m s ≡ true → Matches (rest_regex m) s
unfolding accepts
accepts-Matches in_name [] h = both [] [] stop stop refl
accepts-Matches at_start [] h = cc
accepts-Matches in_gap [] h = cc
accepts-Matches dead s h = cc (dead-accepts s)
accepts-Matches at_start (c ∷ s) h = elim (Bool-cases (is_name_char c)) [
  | inl e ↦ shift_name c e (accepts-Matches in_name s (unfold step in rw e at h))
  | inr e ↦ cc (dead-accepts s, rw (step_start_other c e) at h)
]
accepts-Matches in_name (c ∷ s) h = elim (Bool-cases (is_name_char c)) [
  | inl e ↦ sound_name c e (accepts-Matches in_name s (unfold step in rw e at h))
  | inr e ↦ elim (Bool-cases (c == b',')) [
    | inl f ↦
        rw (comma_only c f) (sound_comma (accepts-Matches in_gap s (unfold step in rw (e, f) at h)))
    | inr f ↦ cc (dead-accepts s, rw (step_name_other c e f) at h)
  ]
]
accepts-Matches in_gap (c ∷ s) h = elim (Bool-cases (is_blank c)) [
  | inl e ↦ sound_blank c e (accepts-Matches in_gap s (unfold step in rw e at h))
  | inr e ↦ elim (Bool-cases (is_name_char c)) [
    | inl f ↦ sound_gap c f (accepts-Matches in_name s (unfold step in rw (e, f) at h))
    | inr f ↦ cc (dead-accepts s, rw (step_gap_other c e f) at h)
  ]
]

accepts-name_chars :
    {a : Text} (t : Text)
    → Matches (star (class is_name_char)) a
    → accepts in_name (a ++ t) ≡ accepts in_name t
accepts-name_chars t =
    star_induction {r = class is_name_char} (λ a. accepts in_name (a ++ t) ≡ accepts in_name t) refl
      λ s r m ih.
        let (c, h, e) = class-inversion {p = is_name_char} m in
        rw (e, accepts-cons, step_name_name c h) ih

accepts-name_regex :
    {a : Text} (t : Text)
    → Matches name_regex a
    → (accepts at_start (a ++ t) ≡ accepts in_name t)
      × (accepts in_gap (a ++ t) ≡ accepts in_name t)
accepts-name_regex t m =
    let (s, r, ms, mr, e) = seq-inversion m in
    let (c, h, f) = class-inversion ms in
    let rest = accepts-name_chars t mr in
    rw (e, f)
      (rw (accepts-cons, step_start_name c h) rest, rw (accepts-cons, step_gap_name c h) rest)

accepts_blanks :
    {a : Text} (t : Text)
    → Matches (star (class is_blank)) a
    → accepts in_gap (a ++ t) ≡ accepts in_gap t
accepts_blanks t =
    star_induction {r = class is_blank} (λ a. accepts in_gap (a ++ t) ≡ accepts in_gap t) refl
      λ s r m ih.
        let (c, h, e) = class-inversion {p = is_blank} m in
        rw (e, accepts-cons, step_gap_blank c h) ih

-- A comma, blanks and a name lead back to a name.
accepts_group :
    {s : Text} (t : Text)
    → Matches (seq (class is_comma) (seq (star (class is_blank)) name_regex)) s
    → accepts in_name (s ++ t) ≡ accepts in_name t
accepts_group t m =
    let (comma, rest, mc, mr, e) = seq-inversion m in
    let (c, h, f) = class-inversion mc in
    let (w, n, mw, mn, g) = seq-inversion mr in
    rw (e, f, comma_only c h, g, accepts-cons, step_name_comma, append_assoc)
      (accepts_blanks (n ++ t) mw ∙ (accepts-name_regex t mn).1)

accepts-tail_regex : {b : Text} → Matches tail_regex b → accepts in_name b ≡ true
unfolding accepts
accepts-tail_regex =
    star_induction {r = seq (class is_comma) (seq (star (class is_blank)) name_regex)}
      (λ b. accepts in_name b ≡ true) refl λ s t m ih. accepts_group t m ∙ ih

-- `profileRegEx.MatchString` holds exactly of the texts that the pattern
-- `^([\w\-_]+)(,\s*([\w\-_]+))*$` matches: profile names, separated by commas with blanks behind them.
pub is_profile_list_iff : (s : Text) → (is_profile_list s ≡ true) ↔ Matches profile_reg_ex s
unfolding is_profile_list
is_profile_list_iff s = (
  λ h. accepts-Matches at_start s h,
  λ m.
      let (a, b, ma, mb, e) = seq-inversion m in
      rw e ((accepts-name_regex b ma).0 ∙ accepts-tail_regex mb),
)
