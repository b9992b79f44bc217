-- ===== src/Api/Ptp4lConf.antt =====
-- The ptp4l configuration text of a profile: `ptp4lConf`, `ptp4lConfSection` and
-- `populatePtp4lConf` of api/v1/ptpconfig_webhook.go.
pub mod Rounds
pub mod Outcome
pub mod Reading
pub mod Headers
use ptp_operator_upstream.Base.{
  ℕ, zero, suc, Bool, true, false, Option, none, some, List, [], ◌∷◌, ◌++◌, Go, ret, panic,
  if◌then◌else◌, take, drop,
}
use ptp_operator_upstream.Base.Text.{Text, codes, same, starts_with, split, index_byte, trim_space}
use ptp_operator_upstream.Base.GoMap.{GoMap, lookup, put}

pub record Ptp4lConfSection : Type 0 where
  pub options : GoMap Text

abbrev pub Sections : Type 0
Sections = GoMap Ptp4lConfSection

pub data ConfError : Type 0 where
  missing_bracket option_outside_section : ConfError

-- The variables that the loop over the lines changes.
pub record ParseState : Type 0 where
  pub current_section : Text
  pub sections : Sections

-- One round of the loop: it goes on, returns an error, or panics.
pub data Round : Type 0 where
  next : ParseState → Round
  fail : ConfError → Round
  crash : Round

abbrev pub empty_section : Ptp4lConfSection
empty_section = record { options = [] }

abbrev pub global_section : Text
global_section = codes "[global]"

-- A line that starts with "[", given its pieces between "]".
open_section : ParseState → List Text → Round
open_section s (name ∷ _ ∷ _) =
    let section = name ++ codes "]" in
    next (record { current_section = section; sections = put section empty_section s.sections })
open_section s _ = fail missing_bracket

-- `section.options[key] = value` on `output.sections[currentSection]`. For a missing key that is
-- a write to a nil map.
write_option : ParseState → Text → Text → Option Ptp4lConfSection → Round
write_option s key value none = crash
write_option s key value (some section) =
    let section' = record section { options = put key value section.options } in
    next (record s { sections = put s.current_section section' s.sections })

-- A line inside a section, given the position of its first space.
read_option : ParseState → Text → Option ℕ → Round
unfolding write_option
read_option s line (some (suc i)) =
    write_option s (take (suc i) line) (trim_space (drop (suc (suc i)) line))
      (lookup s.current_section s.sections)
read_option s line _ = next s

unfoldable pub parse_line : ParseState → Text → Round
unfolding open_section read_option
parse_line s line =
    if starts_with b'[' line
    then open_section s (split b']' line)
    else if same s.current_section []
    then fail option_outside_section
    else read_option s line (index_byte b' ' line)

-- The loop: the sections as they are when it ends, and the error if it returned one.
unfoldable pub parse_lines : ParseState → List Text → Go (Sections × Option ConfError)
parse_lines s [] = ret (s.sections, none)
parse_lines s (line ∷ lines) = elim (parse_line s line) [
  | next s' ↦ parse_lines s' lines
  | fail e ↦ ret (s.sections, some e)
  | crash ↦ panic
]

pub add_global : Sections → Option Ptp4lConfSection → Sections
add_global m none = put global_section empty_section m
add_global m (some _) = m

-- What follows the loop, unless it returned an error.
pub with_global : Go (Sections × Option ConfError) → Go (Sections × Option ConfError)
unfolding add_global
with_global (ret (m, none)) = ret (add_global m (lookup global_section m), none)
with_global (ret (m, some e)) = ret (m, some e)
with_global panic = panic

-- A nil config is read as the empty string.
unfoldable pub config_text : Option Text → Text
config_text none = []
config_text (some config) = config

abbrev pub initial : ParseState
initial = record { current_section = []; sections = [] }

unfoldable pub populate_ptp4l_conf : Option Text → Go (Sections × Option ConfError)
unfolding with_global config_text
populate_ptp4l_conf config = with_global (parse_lines initial (split b'\n' (config_text config)))
