-- ===== src/Apply/Object/Applied.antt =====
-- What the cluster holds after `ApplyObject`.
use ptp_operator_upstream.Base.{
  subst, Bool, true, false, none, some, [], ◌≡◌, inl, inr, refl, ap, Result, ok, fail, Bool-cases,
  Option-cases, wrap-none, some-error≢none,
}
use ptp_operator_upstream.Base.Distinct.{Distinct}
use ptp_operator_upstream.Base.Text.{Text, same}
use ptp_operator_upstream.Base.GoMap.{lookup, keys, MapRange}
use ptp_operator_upstream.Apply.Unstructured.{View, Unstructured, or_empty}
use ptp_operator_upstream.Apply.Merge.{
  deployment_revision_annotation, is_object_supported, merge_object_for_update,
}
use ptp_operator_upstream.Apply.Merge.Fields.{is_deployment}
use ptp_operator_upstream.Apply.Merge.Kept.{IsMergeOf, merge_object_for_update-IsMergeOf}
use ptp_operator_upstream.Apply.Object.{
  Retrieved, existing, not_found, get_failed, Client, no_name, unsupported, not_created,
  not_retrieved, not_merged, not_updated, update_if_changed, create_or_update, apply_object,
}

module _ {E T V : Type 0} where
  -- Every label and annotation of `v` is in `w`, with the same value.
  abbrev pub Carries : View E T V → View E T V → Type 0
  Carries v w =
      ((k x : Text) → lookup k (or_empty v.labels) ≡ some x → lookup k (or_empty w.labels) ≡ some x)
      × ((k x : Text)
          → lookup k (or_empty v.annotations) ≡ some x
          → lookup k (or_empty w.annotations) ≡ some x)

  -- The same, but for the revision of a deployment.
  abbrev CarriesDesired : View E T V → View E T V → Type 0
  CarriesDesired v w =
      ((k x : Text) → lookup k (or_empty v.labels) ≡ some x → lookup k (or_empty w.labels) ≡ some x)
      × ((k x : Text)
          → same deployment_revision_annotation k ≡ false
          → lookup k (or_empty v.annotations) ≡ some x
          → lookup k (or_empty w.annotations) ≡ some x)

  abbrev HasDistinctKeys : View E T V → Type 0
  HasDistinctKeys v = Distinct (keys (or_empty v.annotations)) × Distinct (keys (or_empty v.labels))

  merge_carries : (c v w : View E T V) → IsMergeOf c v w → CarriesDesired v w
  merge_carries c v w (_, _, annotations, labels, _, _, _) = (
    (λ k x h. rw (labels k, h)),
    (λ k x other h. elim (Bool-cases (is_deployment v)) [
      | inl e ↦ rw (annotations k, e, other, h)
      | inr e ↦ rw (annotations k, e, h)
    ]),
  )

module _ {E T V : Type 0} where
  Carries-then : (v w x : View E T V) → CarriesDesired v w → Carries w x → CarriesDesired v x
  Carries-then v w x (labels, annotations) (labels', annotations') = (
    (λ k y h. labels' k y (labels k y h)),
    (λ k y other h. annotations' k y (annotations k y other h)),
  )

-- What is relied on of the cluster: an object that was written is found, with the labels and
-- annotations that it was written with; and of the semantic equality: equal objects have the
-- same labels and annotations.
pub record Stores {S O E T V : Type 0} (u : Unstructured O E T V) (client : Client S O E)
    (deep_equal : O → O → Bool) : Type 0 where
  pub created :
      (s s' : S) (o : O)
      → client.create s o ≡ (s', none)
      → (e : O) × (client.get s' (u.view o).gvk (u.view o).name (u.view o).namespace ≡ existing e)
        × Carries (u.view o) (u.view e)
  pub updated :
      (s s' : S) (o : O)
      → client.update s o ≡ (s', none)
      → (e : O) × (client.get s' (u.view o).gvk (u.view o).name (u.view o).namespace ≡ existing e)
        × Carries (u.view o) (u.view e)
  pub equal : (o e : O) → deep_equal e o ≡ true → Carries (u.view o) (u.view e)

module _ {S O E T V : Type 0} (u : Unstructured O E T V) (r : MapRange) (client : Client S O E)
    (deep_equal : O → O → Bool) where
  -- The cluster finds an object under the desired one's name that carries its labels.
  abbrev pub IsApplied : S → O → Type 0
  IsApplied s obj =
      (e : O) × (client.get s (u.view obj).gvk (u.view obj).name (u.view obj).namespace
        ≡ existing e)
      × CarriesDesired (u.view obj) (u.view e)

  update-IsApplied :
      Stores u client deep_equal
      → (s s' : S) (obj current : O) (m : Result E O) → HasDistinctKeys (u.view obj)
      → client.get s (u.view obj).gvk (u.view obj).name (u.view obj).namespace ≡ existing current
      → merge_object_for_update u r current obj ≡ m
      → update_if_changed u r client deep_equal s current m ≡ (s', none)
      → IsApplied s' obj
  unfolding update_if_changed
  update-IsApplied st s s' obj current (fail e) d g hm h =
      absurd (some-error≢none s s' (not_merged e) h)
  update-IsApplied st s s' obj current (ok merged) d g hm h =
      let im = merge_object_for_update-IsMergeOf u r current obj merged d.0 d.1 hm in
      let mc = merge_carries (u.view current) (u.view obj) (u.view merged) im in
      elim (Bool-cases (deep_equal current merged)) [
        | inl e ↦
            let same_state : s ≡ s' = ap (λ q. q.0) (rw e at h) in
            subst (λ t. IsApplied t obj) same_state
              (
                current,
                g,
                Carries-then (u.view obj) (u.view merged) (u.view current) mc
                    (st.equal merged current e),
              )
        | inr e ↦
            let written = wrap-none not_updated (client.update s merged) s' (rw e at h) in
            let (found', at_key, carried) = st.updated s s' merged written in
            let (gvk, name, namespace) = im.1 in
            (
              found',
              rw (gvk, name, namespace) at at_key,
              Carries-then (u.view obj) (u.view merged) (u.view found') mc carried,
            )
      ]

  create_or_update-IsApplied :
      Stores u client deep_equal
      → (s s' : S) (obj : O) (got : Retrieved E O) → HasDistinctKeys (u.view obj)
      → client.get s (u.view obj).gvk (u.view obj).name (u.view obj).namespace ≡ got
      → create_or_update u r client deep_equal s obj got ≡ (s', none)
      → IsApplied s' obj
  unfolding create_or_update
  create_or_update-IsApplied st s s' obj (existing current) d g h =
      update-IsApplied st s s' obj current (merge_object_for_update u r current obj) d g refl h
  create_or_update-IsApplied st s s' obj not_found d g h =
      let (e, at_key, carried) =
        st.created s s' obj (wrap-none not_created (client.create s obj) s' h) in
      (e, at_key, (carried.0, λ k x other a. carried.1 k x a))
  create_or_update-IsApplied st s s' obj (get_failed e) d g h =
      absurd (some-error≢none s s' (not_retrieved e) h)

  -- After a success of `ApplyObject` the cluster finds an object of the desired kind, name and
  -- namespace that has every desired label and, but for the revision of a deployment, every desired
  -- annotation, whether it was created, updated or left alone. That is for a cluster that stores
  -- what it is given.
  pub apply_object-IsApplied :
      Stores u client deep_equal
      → (s s' : S) (obj : O) → HasDistinctKeys (u.view obj)
      → apply_object u r client deep_equal s obj ≡ (s', none)
      → IsApplied s' obj
  unfolding apply_object
  apply_object-IsApplied st s s' obj d h = elim (Bool-cases (same (u.view obj).name [])) [
    | inl e ↦ absurd (some-error≢none s s' no_name (rw e at h))
    | inr e ↦ elim (Option-cases (is_object_supported (u.view obj))) [
      | inr (reason, f) ↦ absurd (some-error≢none s s' (unsupported reason) (rw (e, f) at h))
      | inl f ↦
          create_or_update-IsApplied st s s' obj
            (client.get s (u.view obj).gvk (u.view obj).name (u.view obj).namespace) d refl
            (rw (e, f) at h)
    ]
  ]
