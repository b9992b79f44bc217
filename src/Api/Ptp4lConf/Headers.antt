-- ===== src/Api/Ptp4lConf/Headers.antt =====
-- Which sections the map that `populatePtp4lConf` fills has.
use ptp_operator_upstream.Base.{
  Bool, ◌||◌, Option, none, List, [], ◌∷◌, ◌≡◌, inl, inr, ret, arith, Bool-cases, Option-cases,
}
use ptp_operator_upstream.Base.Text.{Text, same, same_iff, same_refl, starts_with, contains, split}
use ptp_operator_upstream.Base.GoMap.{lookup, put, lookup-put}
use ptp_operator_upstream.Api.Ptp4lConf.Rounds.{
  is_option, opened, assigned, parse_lines-header, parse_lines-broken, parse_lines-outside,
  parse_lines-inside,
}
use ptp_operator_upstream.Api.Ptp4lConf.Outcome.{IsOpen, opened-IsOpen, assigned-IsOpen}
use ptp_operator_upstream.Api.Ptp4lConf.Reading.{is_present, any_header, with_global-none}
use ptp_operator_upstream.Api.Ptp4lConf.{
  Sections, Ptp4lConfSection, ParseState, parse_lines, initial, populate_ptp4l_conf, config_text,
  global_section, add_global,
}

-- `_, exist := sections[sec]`.
unfoldable pub has_section : Text → Sections → Bool
has_section sec m = is_present (lookup sec m)

has_section-put :
    (sec name : Text) (section : Ptp4lConfSection) (m : Sections)
    → has_section sec (put name section m) ≡ (same name sec || has_section sec m)
unfolding has_section
has_section-put sec name section m = rw lookup-put (ground arith)

has_section-assigned :
    (sec : Text) (s : ParseState) (line : Text) (o : IsOpen s)
    → has_section sec (assigned s line o.section).sections ≡ has_section sec s.sections
unfolding assigned has_section
has_section-assigned sec s line o = elim (Bool-cases (is_option line)) [
  | inl h ↦ rw (h, lookup-put) (ground (arith, o.found, same_iff s.current_section sec))
  | inr h ↦ rw h
]

parse_lines-has_section :
    (sec : Text) (lines : List Text) (s : ParseState) {m : Sections}
    → IsOpen s
    → parse_lines s lines ≡ ret (m, none)
    → has_section sec m ≡ (has_section sec s.sections || any_header sec lines)
unfolding any_header
parse_lines-has_section sec [] s o e = unfold parse_lines in ground arith
parse_lines-has_section sec (line ∷ lines) s {m} o e = elim (Bool-cases (starts_with b'[' line)) [
  | inl h ↦ elim (Bool-cases (contains b']' line)) [
    | inl c ↦
        let rest = rw (parse_lines-header s line lines h c) at e in
        let ih = parse_lines-has_section sec lines (opened s line) (opened-IsOpen s line) rest in
        rw (ih, h) (unfold opened in rw has_section-put (ground arith))
    | inr c ↦ cc (parse_lines-broken s line lines h c)
  ]
  | inr h ↦
      let rest = rw (parse_lines-inside s line lines o.section h o.named o.found) at e in
      let ih =
        parse_lines-has_section sec lines (assigned s line o.section) (assigned-IsOpen s line o)
          rest in
      rw (ih, h, has_section-assigned sec s line o)
]

initial-has_section :
    (sec : Text) (lines : List Text) {m : Sections}
    → parse_lines initial lines ≡ ret (m, none)
    → has_section sec m ≡ any_header sec lines
unfolding any_header
initial-has_section sec [] e = unfold parse_lines has_section lookup in ground arith
initial-has_section sec (line ∷ lines) {m} e = elim (Bool-cases (starts_with b'[' line)) [
  | inl h ↦ elim (Bool-cases (contains b']' line)) [
    | inl c ↦
        let rest = rw (parse_lines-header initial line lines h c) at e in
        let ih =
          parse_lines-has_section sec lines (opened initial line) (opened-IsOpen initial line)
            rest in
        rw (ih, h) (unfold opened has_section lookup in rw lookup-put (ground arith))
    | inr c ↦ cc (parse_lines-broken initial line lines h c)
  ]
  | inr h ↦ cc (parse_lines-outside initial line lines h (same_refl []))
]

has_section-add_global :
    (sec : Text) (m : Sections)
    → has_section sec (add_global m (lookup global_section m))
      ≡ (same global_section sec || has_section sec m)
unfolding add_global has_section
has_section-add_global sec m = elim (Option-cases (lookup global_section m)) [
  | inl e ↦ rw (e, lookup-put) (ground arith)
  | inr (g, e) ↦ rw e (ground (arith, e, same_iff global_section sec))
]

-- If `populatePtp4lConf` reports no error, then the map has exactly the sections that the header
-- lines name, and "[global]" in any case.
pub populate_ptp4l_conf-has_section :
    (config : Option Text) (sec : Text) {m : Sections}
    → populate_ptp4l_conf config ≡ ret (m, none)
    → has_section sec m
      ≡ (same global_section sec || any_header sec (split b'\n' (config_text config)))
unfolding populate_ptp4l_conf
populate_ptp4l_conf-has_section config sec {m} e =
    let (n, loop, added) =
      with_global-none (parse_lines initial (split b'\n' (config_text config))) e in
    rw (added, has_section-add_global, initial-has_section sec _ loop)
