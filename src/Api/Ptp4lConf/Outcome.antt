-- ===== src/Api/Ptp4lConf/Outcome.antt =====
-- How `populatePtp4lConf` ends: it never panics, and its error depends on two facts about the lines.
use ptp_operator_upstream.Base.{
  Bool, false, not, ◌&&◌, ◌||◌, Option, none, some, List, [], ◌∷◌, ◌++◌, ◌≡◌, inl, inr, refl, ◌∙◌,
  Go, ret, panic, arith, if◌then◌else◌, Bool-cases,
}
use ptp_operator_upstream.Base.Text.{Text, codes, same, starts_with, contains, until, split}
use ptp_operator_upstream.Base.GoMap.{lookup, lookup-put_self}
use ptp_operator_upstream.Api.Ptp4lConf.Rounds.{
  header_name, is_option, opened, assigned, parse_lines-header, parse_lines-broken,
  parse_lines-outside, parse_lines-inside,
}
use ptp_operator_upstream.Api.Ptp4lConf.{
  Sections, Ptp4lConfSection, ConfError, missing_bracket, option_outside_section, ParseState,
  empty_section, parse_lines, with_global, initial, populate_ptp4l_conf, config_text,
}

-- A section is current, and it is a key of the map.
pub record IsOpen (s : ParseState) : Type 0 where
  pub named : same s.current_section [] ≡ false
  pub section : Ptp4lConfSection
  pub found : lookup s.current_section s.sections ≡ some section

header_name-ne-nil : (line : Text) → same (header_name line) [] ≡ false
unfolding same
header_name-ne-nil line = go (until b']' line)
  where
    go : (u : Text) → same (u ++ codes "]") [] ≡ false
    go [] = refl
    go (x ∷ u) = refl

pub opened-IsOpen : (s : ParseState) (line : Text) → IsOpen (opened s line)
unfolding opened
opened-IsOpen s line = record {
  named = header_name-ne-nil line;
  section = empty_section;
  found = lookup-put_self (header_name line) empty_section s.sections;
}

pub assigned-IsOpen :
    (s : ParseState) (line : Text) (o : IsOpen s) → IsOpen (assigned s line o.section)
unfolding assigned
assigned-IsOpen s line o = elim (Bool-cases (is_option line)) [
  | inl h ↦ rw h (record {
    named = o.named;
    section = _;
    found = lookup-put_self s.current_section _ s.sections;
  })
  | inr h ↦ rw h o
]

-- A header line without its closing bracket.
unfoldable is_broken : Text → Bool
is_broken line = starts_with b'[' line && not (contains b']' line)

unfoldable any_broken : List Text → Bool
unfolding is_broken
any_broken [] = false
any_broken (line ∷ lines) = is_broken line || any_broken lines

abbrev error_if_broken : List Text → Option ConfError
error_if_broken lines = if any_broken lines then some missing_bracket else none

-- The error that the lines of a configuration deserve.
unfoldable pub conf_error : List Text → Option ConfError
unfolding any_broken
conf_error [] = none
conf_error (line ∷ lines) =
    if starts_with b'[' line then error_if_broken (line ∷ lines) else some option_outside_section

-- The error that a run returns, if it does not panic.
unfoldable pub error_of : Go (Sections × Option ConfError) → Go (Option ConfError)
error_of (ret (m, e)) = ret e
error_of panic = panic

parse_lines-open :
    (lines : List Text) (s : ParseState)
    → IsOpen s
    → error_of (parse_lines s lines) ≡ ret (error_if_broken lines)
unfolding error_of any_broken
parse_lines-open [] s o = unfold parse_lines in refl
parse_lines-open (line ∷ lines) s o = elim (Bool-cases (starts_with b'[' line)) [
  | inl h ↦ elim (Bool-cases (contains b']' line)) [
    | inl c ↦
        rw (parse_lines-header s line lines h c, h, c)
          (parse_lines-open lines (opened s line) (opened-IsOpen s line))
    | inr c ↦ rw (parse_lines-broken s line lines h c, h, c)
  ]
  | inr h ↦
      rw (parse_lines-inside s line lines o.section h o.named o.found, h)
        (parse_lines-open lines (assigned s line o.section) (assigned-IsOpen s line o))
]

error_of-with_global :
    (r : Go (Sections × Option ConfError)) → error_of (with_global r) ≡ error_of r
unfolding error_of with_global
error_of-with_global (ret (m, none)) = refl
error_of-with_global (ret (m, some e)) = refl
error_of-with_global panic = refl

parse_lines-initial :
    (lines : List Text) → error_of (parse_lines initial lines) ≡ ret (conf_error lines)
unfolding error_of conf_error same
parse_lines-initial [] = unfold parse_lines in refl
parse_lines-initial (line ∷ lines) = elim (Bool-cases (starts_with b'[' line)) [
  | inl h ↦ elim (Bool-cases (contains b']' line)) [
    | inl c ↦
        rw (parse_lines-header initial line lines h c, h, c)
          (parse_lines-open lines (opened initial line) (opened-IsOpen initial line))
    | inr c ↦ rw (parse_lines-broken initial line lines h c, h, c)
  ]
  | inr h ↦ rw (parse_lines-outside initial line lines h refl, h)
]

-- For every configuration text, absent or not, `populatePtp4lConf` returns without a panic. It
-- reports an option outside a section exactly if the first line does not start with "["; otherwise
-- it reports a missing "]" exactly if some line that starts with "[" holds no "]".
pub populate_ptp4l_conf-conf_error :
    (config : Option Text)
    → error_of (populate_ptp4l_conf config) ≡ ret (conf_error (split b'\n' (config_text config)))
unfolding populate_ptp4l_conf
populate_ptp4l_conf-conf_error config =
    error_of-with_global (parse_lines initial _)
    ∙ parse_lines-initial (split b'\n' (config_text config))

returns_of_error_of :
    (r : Go (Sections × Option ConfError)) (e : Option ConfError)
    → error_of r ≡ ret e
    → (m : Sections) × (r ≡ ret (m, e))
unfolding error_of
returns_of_error_of (ret (m, f)) e h = (m, ground arith)
returns_of_error_of panic e h = cc

pub populate_returns :
    (config : Option Text)
    → (m : Sections) × (populate_ptp4l_conf config
        ≡ ret (m, conf_error (split b'\n' (config_text config))))
populate_returns config = returns_of_error_of _ _ (populate_ptp4l_conf-conf_error config)
