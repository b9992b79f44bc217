-- ===== src/Apply/Merge/Kept.antt =====
-- What a merged object has of the current object and what of the updated one.
use mathlib.Core.List.Permᴰ.{symm}
use ptp_operator_upstream.Base.{
  Option, none, some, [], ◌∷◌, ◌≡◌, inl, inr, refl, ap, sym, ◌∙◌, ok, subst, if◌then◌else◌,
  Bool-cases,
}
use ptp_operator_upstream.Base.Distinct.{Has, Distinct}
use ptp_operator_upstream.Base.Text.{Text, same, same_iff}
use ptp_operator_upstream.Base.GoMap.{
  GoMap, lookup, lookup-put, put, put-Distinct, keys, keys-perm, MapRange,
}
use ptp_operator_upstream.Base.GoMap.Order.{lookup-perm, lookup_absent, Distinct-perm}
use ptp_operator_upstream.Apply.Unstructured.{View, Unstructured, or_empty}
use ptp_operator_upstream.Apply.Merge.{
  overlay, deployment_revision_annotation, keep_revision, merge_object_for_update,
}
use ptp_operator_upstream.Apply.Merge.Fields.{
  prefer, is_deployment, is_service, is_service_account, own_annotations, view-merge_object,
}

abbrev first_of : Option Text → Option Text → Option Text
first_of (some v) other = some v
first_of none other = other

lookup-overlay :
    (k : Text) (current updated : GoMap Text)
    → Distinct (keys updated)
    → lookup k (overlay current updated) ≡ first_of (lookup k updated) (lookup k current)
unfolding overlay lookup
lookup-overlay k current [] d = refl
lookup-overlay k current ((j, v) ∷ updated) d = elim (Bool-cases (same j k)) [
  | inr e ↦ rw (lookup-overlay k (put j v current) updated d.1, lookup-put j k v current, e)
  | inl e ↦
      let gone =
        lookup_absent k updated
          (λ h. d.0 (subst (λ t. Has t (keys updated)) (sym ((same_iff j k).0 e)) h)) in
      rw (lookup-overlay k (put j v current) updated d.1, gone, lookup-put j k v current, e)
]

lookup-overlay_range :
    (r : MapRange) (k : Text) (current updated : GoMap Text)
    → Distinct (keys updated)
    → lookup k (overlay current (r.range Text updated))
      ≡ first_of (lookup k updated) (lookup k current)
lookup-overlay_range r k current updated d =
    let p = symm (r.range_perm Text updated) in
    lookup-overlay k current (r.range Text updated) (Distinct-perm (keys-perm p) d)
    ∙ ap (λ o. first_of o (lookup k current)) (sym (lookup-perm k p d))

keep_revision-Distinct :
    (o : Option Text) (m : GoMap Text) → Distinct (keys m) → Distinct (keys (keep_revision o m))
unfolding keep_revision
keep_revision-Distinct none m d = d
keep_revision-Distinct (some v) m d = put-Distinct deployment_revision_annotation v m d

lookup-keep_revision :
    (o : Option Text) (m : GoMap Text) (k : Text)
    → lookup k (keep_revision o m)
      ≡ (if same deployment_revision_annotation k then first_of o (lookup k m) else lookup k m)
unfolding keep_revision
lookup-keep_revision none m k = elim (Bool-cases (same deployment_revision_annotation k)) [
  | inl e ↦ rw e
  | inr e ↦ rw e
]
lookup-keep_revision (some v) m k = lookup-put deployment_revision_annotation k v m

first_twice : (a b : Option Text) → first_of (first_of a b) a ≡ first_of a b
first_twice none none = refl
first_twice none (some b) = refl
first_twice (some a) b = refl

module _ {E T V : Type 0} where
  -- The annotation `k` of the result: for a deployment the revision is the current one.
  abbrev merged_annotation : View E T V → View E T V → Text → Option Text
  merged_annotation c v k =
      let current = lookup k (or_empty c.annotations) in
      let updated = lookup k (or_empty v.annotations) in
      if is_deployment v
      then if same deployment_revision_annotation k
        then first_of current updated
        else first_of updated current
      else first_of updated current

  -- The metadata that the cluster maintains is the current one.
  abbrev SameReadOnly : View E T V → View E T V → Type 0
  SameReadOnly c w =
      (w.creation_timestamp ≡ c.creation_timestamp)
      × (w.self_link ≡ c.self_link)
      × (w.generation ≡ c.generation)
      × (w.uid ≡ c.uid)
      × (w.resource_version ≡ c.resource_version)

  -- `w` has of `c` what an update keeps, and the rest of `v`.
  abbrev pub IsMergeOf : View E T V → View E T V → View E T V → Type 0
  IsMergeOf c v w =
      SameReadOnly c w
      × ((w.gvk ≡ v.gvk) × (w.name ≡ v.name) × (w.namespace ≡ v.namespace))
      × ((k : Text) → lookup k (or_empty w.annotations) ≡ merged_annotation c v k)
      × ((k : Text)
          → lookup k (or_empty w.labels)
            ≡ first_of (lookup k (or_empty v.labels)) (lookup k (or_empty c.labels)))
      × (w.cluster_ip ≡ (if is_service v then prefer c.cluster_ip v.cluster_ip else v.cluster_ip))
      × (w.secrets ≡ (if is_service_account v then prefer c.secrets v.secrets else v.secrets))
      × (w.image_pull_secrets ≡ (
          if is_service_account v
          then prefer c.image_pull_secrets v.image_pull_secrets
          else v.image_pull_secrets))

  own_annotations-Distinct :
      (c v : View E T V)
      → Distinct (keys (or_empty v.annotations))
      → Distinct (keys (or_empty (own_annotations c v)))
  own_annotations-Distinct c v d = elim (Bool-cases (is_deployment v)) [
    | inl e ↦ rw e (
        keep_revision-Distinct (lookup deployment_revision_annotation (or_empty c.annotations))
          (or_empty v.annotations) d)
    | inr e ↦ rw e d
  ]

  -- The deployment's own annotations over the current ones.
  overlaid_annotation :
      (c v : View E T V) (k : Text)
      → first_of (lookup k (or_empty (own_annotations c v))) (lookup k (or_empty c.annotations))
        ≡ merged_annotation c v k
  overlaid_annotation c v k = elim (Bool-cases (is_deployment v)) [
    | inr e ↦ rw e
    | inl e ↦ elim (Bool-cases (same deployment_revision_annotation k)) [
      | inr f ↦ rw (e, lookup-keep_revision, f)
      | inl f ↦
          let same_key = (same_iff deployment_revision_annotation k).0 f in
          rw (e, lookup-keep_revision, f)
            (ap
                (λ t.
                  first_of
                    (first_of (lookup t (or_empty c.annotations))
                      (lookup k (or_empty v.annotations)))
                    (lookup k (or_empty c.annotations)))
                same_key
              ∙ first_twice (lookup k (or_empty c.annotations)) (lookup k (or_empty v.annotations)))
    ]
  ]

-- A merge that succeeds keeps the read-only metadata of the current object, the cluster IP of a
-- service and the secrets of a service account where the current object has them, and for every
-- annotation and label the updated value or else the current one, but the current revision of a
-- deployment. That is for every order of the maps, if the updated maps have each key once.
pub merge_object_for_update-IsMergeOf :
    {O E T V : Type 0} (u : Unstructured O E T V) (r : MapRange) (current updated merged : O)
    → Distinct (keys (or_empty (u.view updated).annotations))
    → Distinct (keys (or_empty (u.view updated).labels))
    → merge_object_for_update u r current updated ≡ ok merged
    → IsMergeOf (u.view current) (u.view updated) (u.view merged)
merge_object_for_update-IsMergeOf u r current updated merged da dl h =
    let c = u.view current in
    let v = u.view updated in
    rw (view-merge_object u r current updated merged h) (
      (refl, refl, refl, refl, refl),
      (refl, refl, refl),
      (λ k.
          lookup-overlay_range r k (or_empty c.annotations) (or_empty (own_annotations c v))
            (own_annotations-Distinct c v da)
          ∙ overlaid_annotation c v k),
      (λ k. lookup-overlay_range r k (or_empty c.labels) (or_empty v.labels) dl),
      refl,
      refl,
      refl,
    )
