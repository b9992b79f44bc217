-- ===== src/Render.antt =====
-- Package pkg/render: the objects of the manifests. The template engine, the file system and the
-- YAML decoder are parameters.
pub mod Manifests
mod Tests
use ptp_operator_upstream.Base.{
  Bool, true, false, not, ◌&&◌, ◌||◌, none, some, List, [], ◌∷◌, ◌++◌, ◌-◌, leb, length, drop, ◌==◌,
  Result, ok, fail, ◌then◌, if◌then◌else◌,
}
use ptp_operator_upstream.Base.Text.{Text, codes, same, trim_space}
use ptp_operator_upstream.Base.GoMap.{GoMap, lookup}

-- The values that the operator puts into the data of a template.
pub data Value : Type 0 where
  text : Text → Value
  flag : Bool → Value

-- `getOr` falls back for a missing key and for an empty string.
unfoldable pub get_or : GoMap Value → Text → Text → Value
get_or m key fallback = elim (lookup key m) [
  | none ↦ text fallback
  | some (text s) ↦ if same s [] then text fallback else text s
  | some (flag b) ↦ flag b
]

unfoldable pub is_set : GoMap Value → Text → Value
is_set m key = elim (lookup key m) [ none ↦ flag false | some value ↦ value ]

-- `strings.HasSuffix(path, suffix)`.
unfoldable pub has_suffix : Text → Text → Bool
has_suffix path suffix =
    leb (length suffix) (length path) && same (drop (length path - length suffix) path) suffix

unfoldable pub is_manifest : Text → Bool
is_manifest path =
    has_suffix path (codes ".yml")
    || has_suffix path (codes ".yaml")
    || has_suffix path (codes ".json")

pub data RenderError (E : Type 0) : Type 0 where
  not_read not_parsed not_rendered not_decoded not_walked : E → RenderError E

-- A file's text, its parsed template `T`, what the template gives on some data, and what the
-- calls of `Decode` on a text return, one after the other, up to the end of the text.
pub record Engine (T O E : Type 0) : Type 0 where
  pub read_file : Text → Result E Text
  pub parse_template : Text → Text → Result E T
  pub execute : T → GoMap Value → Result E Text
  pub documents : Text → List (Result E O)

-- What a walk visits: a path and whether it is a directory.
pub record Visit (E : Type 0) : Type 0 where
  pub path : Text
  pub is_dir : Result E Bool

abbrev pub with_error : {E F A : Type 0} → (E → F) → Result E A → Result F A
with_error f (ok a) = ok a
with_error f (fail e) = fail (f e)

-- The loop over the documents, which appends to `out`.
unfoldable pub decode_all :
    {O E : Type 0} → List O → List (Result E O) → Result (RenderError E) (List O)
decode_all out [] = ok out
decode_all out (ok o ∷ rest) = decode_all (out ++ (o ∷ [])) rest
decode_all out (fail e ∷ rest) = fail (not_decoded e)

module _ {T O E : Type 0} (engine : Engine T O E) where
  -- A text of nothing but spaces has no objects.
  unfoldable pub decode_rendered : Text → Result (RenderError E) (List O)
  decode_rendered rendered =
      if length (trim_space rendered) == 0 then ok [] else decode_all [] (engine.documents rendered)

  unfoldable pub render_template : Text → GoMap Value → Result (RenderError E) (List O)
  render_template path entries =
      ((with_error not_read (engine.read_file path) then λ source.
      with_error not_parsed (engine.parse_template path source))
        then λ template. with_error not_rendered (engine.execute template entries))
      then decode_rendered

  -- One visit of the walk, given whether the path is a directory.
  unfoldable pub render_visit : GoMap Value → Text → Result E Bool → Result (RenderError E) (List O)
  render_visit entries path (fail e) = fail (not_walked e)
  render_visit entries path (ok true) = ok []
  render_visit entries path (ok false) =
      if not (is_manifest path) then ok [] else render_template path entries

  -- The walk, which appends to `out` and stops at the first error.
  unfoldable pub render_visits :
      GoMap Value → List O → List (Visit E) → Result (RenderError E) (List O)
  unfolding render_visit
  render_visits entries out [] = ok out
  render_visits entries out (visit ∷ visits) =
      render_visit entries visit.path visit.is_dir then λ objs.
      render_visits entries (out ++ objs) visits

  unfoldable pub render_dir :
      (Text → List (Visit E)) → Text → GoMap Value → Result (RenderError E) (List O)
  unfolding render_visits
  render_dir walk dir entries = render_visits entries [] (walk dir)
