-- ===== src/Render/Tests.antt =====
-- Runs of package pkg/render on a small directory, and its theorem at it.
use ptp_operator_upstream.Base.{ℕ, true, false, List, [], ◌∷◌, ◌≡◌, ◌↔◌, refl, Result, ok}
use ptp_operator_upstream.Base.Text.{Text, codes, same, trim_space}
use ptp_operator_upstream.Base.GoMap.{lookup}
use ptp_operator_upstream.Render.{
  text, flag, Engine, Visit, get_or, is_set, has_suffix, is_manifest, decode_all, decode_rendered,
  render_template, render_visit, render_visits, render_dir,
}
use ptp_operator_upstream.Render.Manifests.{Renders, render_dir_iff}

abbrev documents_of : Text → List (Result Text ℕ)
documents_of [] = []
documents_of (c ∷ t) = ok c ∷ documents_of t

-- A file's text is its path, and its documents are the characters of the text.
abbrev letters : Engine Text ℕ Text
letters = record {
  read_file = λ path. ok path;
  parse_template = λ path source. ok source;
  execute = λ template entries. ok template;
  documents = documents_of;
}

-- A directory with a manifest, a note and another manifest.
abbrev walk : Text → List (Visit Text)
walk dir =
    record { path = dir; is_dir = ok true }
    ∷ record { path = codes "a.yml"; is_dir = ok false }
    ∷ record { path = codes "note"; is_dir = ok false }
    ∷ record { path = codes "b.json"; is_dir = ok false }
    ∷ []

run_render_dir : render_dir letters walk (codes "dir") [] ≡ ok (codes "a.ymlb.json")
unfolding render_dir render_visits render_visit is_manifest has_suffix render_template
    decode_rendered decode_all trim_space same
run_render_dir = refl

-- The fallback stands in for a missing key and for an empty string, not for a false flag.
run_get_or :
    (get_or ((codes "a", text []) ∷ []) (codes "a") (codes "x") ≡ text (codes "x"))
    × (get_or ((codes "a", flag false) ∷ []) (codes "a") (codes "x") ≡ flag false)
    × (is_set ((codes "a", text []) ∷ []) (codes "b") ≡ flag false)
unfolding get_or is_set lookup same
run_get_or = (refl, refl, refl)

render_dir_iff_example :
    (render_dir letters walk (codes "dir") [] ≡ ok (codes "a.ymlb.json"))
    ↔ Renders letters [] (walk (codes "dir")) (codes "a.ymlb.json")
render_dir_iff_example = render_dir_iff letters [] walk (codes "dir") (codes "a.ymlb.json")
