-- ===== src/Api/Ptp4lConf/Rounds.antt =====
-- What each kind of line does to the state of `populatePtp4lConf`'s loop.
use ptp_operator_upstream.Base.{
  Bool, true, false, some, List, [], ◌∷◌, ◌++◌, ◌≡◌, inl, inr, refl, arith, ret, if◌then◌else◌,
  Bool-cases, length,
}
use ptp_operator_upstream.Base.Text.{
  Text, codes, same, starts_with, contains, until, after, index_byte, trim_space,
}
use ptp_operator_upstream.Base.Text.Split.{
  split-contains, split_whole, split_cons, index_byte_found, index_byte_missing, take-until,
  drop-until,
}
use ptp_operator_upstream.Base.GoMap.{lookup, put}
use ptp_operator_upstream.Api.Ptp4lConf.{
  Ptp4lConfSection, empty_section, ConfError, missing_bracket, option_outside_section, ParseState,
  next, fail, read_option, parse_line, parse_lines,
}

-- The section that a header line opens.
abbrev pub header_name : Text → Text
header_name line = until b']' line ++ codes "]"

-- A line sets an option if it has a space behind its first code point.
unfoldable pub is_option : Text → Bool
is_option line =
    if contains b' ' line then (elim (until b' ' line) [ [] ↦ false | _ ∷ _ ↦ true ]) else false

abbrev pub option_key : Text → Text
option_key line = until b' ' line

abbrev pub option_value : Text → Text
option_value line = trim_space (after b' ' line)

unfoldable pub opened : ParseState → Text → ParseState
opened s line = record {
  current_section = header_name line;
  sections = put (header_name line) empty_section s.sections;
}

unfoldable pub assigned : ParseState → Text → Ptp4lConfSection → ParseState
assigned s line section =
    if is_option line
    then record s {
      sections =
          put s.current_section
            (record section { options = put (option_key line) (option_value line) section.options })
            s.sections;
    }
    else s

pub current_section-assigned :
    (s : ParseState) (line : Text) (section : Ptp4lConfSection)
    → (assigned s line section).current_section ≡ s.current_section
unfolding assigned
current_section-assigned s line section = ground arith

module _ (s : ParseState) (line : Text) where
  parse_line-header :
      starts_with b'[' line ≡ true
      → contains b']' line ≡ true
      → parse_line s line ≡ next (opened s line)
  unfolding parse_line opened
  parse_line-header h c =
      let (p, ps, e) = split_cons b']' (after b']' line) in rw (h, split-contains b']' line c, e)

  parse_line-broken :
      starts_with b'[' line ≡ true
      → contains b']' line ≡ false
      → parse_line s line ≡ fail missing_bracket
  unfolding parse_line
  parse_line-broken h c = rw (h, split_whole b']' line c)

  parse_line-outside :
      starts_with b'[' line ≡ false
      → same s.current_section [] ≡ true
      → parse_line s line ≡ fail option_outside_section
  unfolding parse_line
  parse_line-outside h c = rw (h, c)

  read_option-found :
      (section : Ptp4lConfSection)
      → lookup s.current_section s.sections ≡ some section
      → contains b' ' line ≡ true
      → (u : Text) → until b' ' line ≡ u
      → read_option s line (some (length u)) ≡ next (assigned s line section)
  unfolding read_option assigned is_option
  read_option-found section found c [] e = rw (c, e)
  read_option-found section found c (y ∷ r) e =
      let taken = rw e at (take-until b' ' line) in
      let dropped = rw e at (drop-until b' ' line) in rw (c, e, found, taken, dropped)

  read_option-assigned :
      (section : Ptp4lConfSection)
      → lookup s.current_section s.sections ≡ some section
      → read_option s line (index_byte b' ' line) ≡ next (assigned s line section)
  unfolding read_option assigned is_option
  read_option-assigned section found = elim (Bool-cases (contains b' ' line)) [
    | inl c ↦
        rw (index_byte_found b' ' line c) (read_option-found section found c (until b' ' line) refl)
    | inr c ↦ rw (index_byte_missing b' ' line c, c)
  ]

  parse_line-inside :
      (section : Ptp4lConfSection)
      → starts_with b'[' line ≡ false
      → same s.current_section [] ≡ false
      → lookup s.current_section s.sections ≡ some section
      → parse_line s line ≡ next (assigned s line section)
  unfolding parse_line
  parse_line-inside section h c found = rw (h, c) (read_option-assigned section found)

module _ (s : ParseState) (line : Text) (lines : List Text) where
  parse_lines-next :
      (s' : ParseState)
      → parse_line s line ≡ next s'
      → parse_lines s (line ∷ lines) ≡ parse_lines s' lines
  unfolding parse_lines
  parse_lines-next s' e = rw (parse_lines, e)

  parse_lines-fail :
      (e : ConfError)
      → parse_line s line ≡ fail e
      → parse_lines s (line ∷ lines) ≡ ret (s.sections, some e)
  unfolding parse_lines
  parse_lines-fail e h = rw (parse_lines, h)

  pub parse_lines-header :
      starts_with b'[' line ≡ true
      → contains b']' line ≡ true
      → parse_lines s (line ∷ lines) ≡ parse_lines (opened s line) lines
  parse_lines-header h c = parse_lines-next (opened s line) (parse_line-header s line h c)

  pub parse_lines-broken :
      starts_with b'[' line ≡ true
      → contains b']' line ≡ false
      → parse_lines s (line ∷ lines) ≡ ret (s.sections, some missing_bracket)
  parse_lines-broken h c = parse_lines-fail missing_bracket (parse_line-broken s line h c)

  pub parse_lines-outside :
      starts_with b'[' line ≡ false
      → same s.current_section [] ≡ true
      → parse_lines s (line ∷ lines) ≡ ret (s.sections, some option_outside_section)
  parse_lines-outside h c = parse_lines-fail option_outside_section (parse_line-outside s line h c)

  pub parse_lines-inside :
      (section : Ptp4lConfSection)
      → starts_with b'[' line ≡ false
      → same s.current_section [] ≡ false
      → lookup s.current_section s.sections ≡ some section
      → parse_lines s (line ∷ lines) ≡ parse_lines (assigned s line section) lines
  parse_lines-inside section h c found =
      parse_lines-next (assigned s line section) (parse_line-inside s line section h c found)
