-- ===== src/Render/Manifests.antt =====
-- Which objects the rendering of a directory returns.
use mathlib.Core.List.{append_assoc, append-nil}
use ptp_operator_upstream.Base.{
  Bool, true, false, List, [], ◌∷◌, ◌++◌, ◌≡◌, ◌⊎◌, ◌↔◌, inl, inr, refl, sym, ap, subst, ◌∙◌,
  Result, ok, fail, ok-injective, fail≢ok, then-ok, length, ◌==◌, Bool-cases,
}
use ptp_operator_upstream.Base.Text.{Text, trim_space}
use ptp_operator_upstream.Base.GoMap.{GoMap}
use ptp_operator_upstream.Render.{
  Value, Engine, Visit, not_read, not_parsed, not_rendered, not_decoded, not_walked, with_error,
  is_manifest, decode_all, decode_rendered, render_template, render_visit, render_visits,
  render_dir,
}

abbrev all_ok : {O E : Type 0} → List O → List (Result E O)
all_ok [] = []
all_ok (o ∷ os) = ok o ∷ all_ok os

module _ {O E : Type 0} where
  decode_all-ok :
      (out : List O) (docs : List (Result E O)) (objs : List O)
      → decode_all out docs ≡ ok objs
      → (rest : List O) × (docs ≡ all_ok rest) × (objs ≡ out ++ rest)
  unfolding decode_all
  decode_all-ok out [] objs h = ([], refl, sym (ok-injective out objs h) ∙ sym (append-nil out))
  decode_all-ok out (ok o ∷ docs) objs h =
      let (rest, e, f) = decode_all-ok (out ++ (o ∷ [])) docs objs h in
      (o ∷ rest, ap (λ l. ok o ∷ l) e, f ∙ append_assoc out (o ∷ []) rest)
  decode_all-ok out (fail e ∷ docs) objs h = absurd (fail≢ok (not_decoded e) objs h)

  decode_all-all_ok :
      (out rest : List O) → decode_all {O = O} {E = E} out (all_ok rest) ≡ ok (out ++ rest)
  unfolding decode_all
  decode_all-all_ok out [] = ap ok (sym (append-nil out))
  decode_all-all_ok out (o ∷ rest) =
      decode_all-all_ok (out ++ (o ∷ [])) rest ∙ ap ok (append_assoc out (o ∷ []) rest)

with_error-ok :
    {E F A : Type 0} (f : E → F) (x : Result E A) (a : A) → with_error f x ≡ ok a → x ≡ ok a
with_error-ok f (ok b) a h = ap ok (ok-injective b a h)
with_error-ok f (fail e) a h = absurd (fail≢ok (f e) a h)

module _ {T O E : Type 0} (engine : Engine T O E) (entries : GoMap Value) where
  -- The file is read, parsed and executed, and its documents are the objects, none if the text is
  -- blank.
  abbrev TemplateGives : Text → List O → Type 0
  TemplateGives path objs =
      (source : Text) × (template : T) × (rendered : Text) × (engine.read_file path ≡ ok source)
      × (engine.parse_template path source ≡ ok template)
      × (engine.execute template entries ≡ ok rendered)
      × (((length (trim_space rendered) == 0) ≡ true) × (objs ≡ [])
          ⊎ (((length (trim_space rendered) == 0) ≡ false)
              × (engine.documents rendered ≡ all_ok objs)))

  abbrev VisitGives : Text → Result E Bool → List O → Type 0
  VisitGives path (fail e) objs = ⊥
  VisitGives path (ok true) objs = objs ≡ []
  VisitGives path (ok false) objs =
      ((is_manifest path ≡ false) × (objs ≡ []))
      ⊎ ((is_manifest path ≡ true) × TemplateGives path objs)

  -- The objects of the visits, one after the other.
  abbrev pub Renders : List (Visit E) → List O → Type 0
  Renders [] objs = objs ≡ []
  Renders (v ∷ vs) objs =
      (first : List O) × (rest : List O) × VisitGives v.path v.is_dir first
      × Renders vs rest
      × (objs ≡ first ++ rest)

  render_template-ok :
      (path : Text) (objs : List O)
      → render_template engine path entries ≡ ok objs
      → TemplateGives path objs
  unfolding render_template decode_rendered
  render_template-ok path objs h =
      let (rendered, h1, decoded) = then-ok _ (decode_rendered engine) objs h in
      let (template, h2, executed) = then-ok _ _ rendered h1 in
      let (source, read, parsed) = then-ok _ _ template h2 in
      (
        source,
        template,
        rendered,
        with_error-ok not_read (engine.read_file path) source read,
        with_error-ok not_parsed (engine.parse_template path source) template parsed,
        with_error-ok not_rendered (engine.execute template entries) rendered executed,
        elim (Bool-cases (length (trim_space rendered) == 0)) [
          | inl e ↦ inl (e, sym (ok-injective [] objs (rw e at decoded)))
          | inr e ↦
              let (rest, docs, all) =
                decode_all-ok [] (engine.documents rendered) objs (rw e at decoded) in
              inr (e, docs ∙ ap all_ok (sym all))
        ],
      )

  TemplateGives-ok :
      (path : Text) (objs : List O)
      → TemplateGives path objs
      → render_template engine path entries ≡ ok objs
  unfolding render_template decode_rendered
  TemplateGives-ok path objs
        (source, template, rendered, read, parsed, executed, inl (e, none_found)) =
      rw (read, parsed, executed, e, none_found) refl
  TemplateGives-ok path objs (source, template, rendered, read, parsed, executed, inr (e, docs)) =
      rw (read, parsed, executed, e, docs) (decode_all-all_ok [] objs)

  render_visit-ok :
      (path : Text) (is_dir : Result E Bool) (objs : List O)
      → render_visit engine entries path is_dir ≡ ok objs
      → VisitGives path is_dir objs
  unfolding render_visit
  render_visit-ok path (fail e) objs h = fail≢ok (not_walked e) objs h
  render_visit-ok path (ok true) objs h = sym (ok-injective [] objs h)
  render_visit-ok path (ok false) objs h = elim (Bool-cases (is_manifest path)) [
    | inl e ↦ inr (e, render_template-ok path objs (rw e at h))
    | inr e ↦ inl (e, sym (ok-injective [] objs (rw e at h)))
  ]

  VisitGives-ok :
      (path : Text) (is_dir : Result E Bool) (objs : List O)
      → VisitGives path is_dir objs
      → render_visit engine entries path is_dir ≡ ok objs
  unfolding render_visit
  VisitGives-ok path (fail e) objs v = absurd v
  VisitGives-ok path (ok true) objs v = ap ok (sym v)
  VisitGives-ok path (ok false) objs (inl (e, none_found)) = rw (e, none_found) refl
  VisitGives-ok path (ok false) objs (inr (e, given)) = rw e (TemplateGives-ok path objs given)

  render_visits-ok :
      (out : List O) (vs : List (Visit E)) (objs : List O)
      → render_visits engine entries out vs ≡ ok objs
      → (rest : List O) × Renders vs rest × (objs ≡ out ++ rest)
  unfolding render_visits
  render_visits-ok out [] objs h = ([], refl, sym (ok-injective out objs h) ∙ sym (append-nil out))
  render_visits-ok out (v ∷ vs) objs h =
      let (first, given, later) =
        then-ok (render_visit engine entries v.path v.is_dir)
          (λ found. render_visits engine entries (out ++ found) vs) objs h in
      let (rest, rendered, all) = render_visits-ok (out ++ first) vs objs later in
      (
        first ++ rest,
        (first, rest, render_visit-ok v.path v.is_dir first given, rendered, refl),
        all ∙ append_assoc out first rest,
      )

  Renders-ok :
      (out : List O) (vs : List (Visit E)) (rest : List O)
      → Renders vs rest
      → render_visits engine entries out vs ≡ ok (out ++ rest)
  unfolding render_visits
  Renders-ok out [] rest e = rw e (ap ok (sym (append-nil out)))
  Renders-ok out (v ∷ vs) rest (first, later, given, rendered, e) =
      rw (VisitGives-ok v.path v.is_dir first given, e)
        (Renders-ok (out ++ first) vs later rendered ∙ ap ok (append_assoc out first later))

  -- The rendering of a directory returns objects if and only if its walk meets no error and every
  -- file whose name ends in .yml, .yaml or .json is read, parsed, executed and decoded without one,
  -- and then returns the documents of these files in the order of the walk, none for a blank file.
  pub render_dir_iff :
      (walk : Text → List (Visit E)) (dir : Text) (objs : List O)
      → (render_dir engine walk dir entries ≡ ok objs) ↔ Renders (walk dir) objs
  unfolding render_dir
  render_dir_iff walk dir objs = (
    (λ h.
        let (rest, rendered, e) = render_visits-ok [] (walk dir) objs h in
        subst (Renders (walk dir)) (sym e) rendered),
    Renders-ok [] (walk dir) objs,
  )
