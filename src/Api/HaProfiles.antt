-- ===== src/Api/HaProfiles.antt =====
-- `profileRegEx` of api/v1/ptpconfig_webhook.go: the pattern, and the test that `MatchString` makes
-- of it, a machine that reads the text once.
pub mod Regex
pub mod Pattern
pub mod Matching
use ptp_operator_upstream.Base.{
  ℕ, Bool, true, false, ◌||◌, ◌&&◌, List, [], ◌∷◌, leb, ◌==◌, if◌then◌else◌,
}
use ptp_operator_upstream.Base.Text.{Text}

-- `\w` or "-" or "_": the class `[\w\-_]`.
unfoldable pub is_name_char : ℕ → Bool
is_name_char c =
    (leb b'0' c && leb c b'9')
    || (leb b'A' c && leb c b'Z')
    || (leb b'a' c && leb c b'z')
    || c == b'_'
    || c == b'-'

-- `\s`.
unfoldable pub is_blank : ℕ → Bool
is_blank c = c == b'\t' || c == b'\n' || c == 12 || c == 13 || c == b' '

pub data Mode : Type 0 where
  at_start in_name in_gap dead : Mode

unfoldable pub step : Mode → ℕ → Mode
step at_start c = if is_name_char c then in_name else dead
step in_name c = if is_name_char c then in_name else if c == b',' then in_gap else dead
step in_gap c = if is_blank c then in_gap else if is_name_char c then in_name else dead
step dead c = dead

abbrev is_final : Mode → Bool
is_final in_name = true
is_final _ = false

unfoldable pub accepts : Mode → Text → Bool
accepts m [] = is_final m
accepts m (c ∷ s) = accepts (step m c) s

-- `profileRegEx.MatchString(v)`.
unfoldable pub is_profile_list : Text → Bool
unfolding accepts step is_name_char is_blank
is_profile_list s = accepts at_start s
