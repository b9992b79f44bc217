-- ===== src/Apply/Merge/Fields.antt =====
-- What each step of a merge does to the fields of the updated object.
use ptp_operator_upstream.Base.{
  Bool, Option, some, List, [], ◌≡◌, inl, inr, refl, ap, sym, ◌∙◌, ok, fail≢ok, ok-injective,
  ◌then◌, then-ok, if◌then◌else◌, Bool-cases,
}
use ptp_operator_upstream.Base.Text.{Text, codes}
use ptp_operator_upstream.Base.GoMap.{GoMap, lookup, MapRange}
use ptp_operator_upstream.Apply.Unstructured.{
  Nested, found, absent, malformed, View, Unstructured, or_empty, is_a,
}
use ptp_operator_upstream.Apply.Merge.{
  overlay, deployment_revision_annotation, keep_revision, merge_annotations, merge_labels,
  copy_read_only, merge_metadata_for_update, merge_deployment_for_update, copy_cluster_ip,
  merge_service_for_update, copy_secrets, merge_service_account_for_update, merge_object_for_update,
}

-- The first of two nested fields that is there.
abbrev pub prefer : {E A : Type 0} → Nested E A → Nested E A → Nested E A
prefer (found a) other = found a
prefer absent other = other
prefer (malformed e) other = other

module _ {E T V : Type 0} where
  abbrev pub is_deployment : View E T V → Bool
  is_deployment v = is_a (codes "apps") (codes "Deployment") v

  abbrev pub is_service : View E T V → Bool
  is_service v = is_a [] (codes "Service") v

  abbrev pub is_service_account : View E T V → Bool
  is_service_account v = is_a [] (codes "ServiceAccount") v

  abbrev pub own_annotations : View E T V → View E T V → Option (GoMap Text)
  own_annotations c v =
      if is_deployment v
      then some (
          keep_revision (lookup deployment_revision_annotation (or_empty c.annotations))
            (or_empty v.annotations))
      else v.annotations

  abbrev with_own_annotations : View E T V → View E T V → View E T V
  with_own_annotations c v = record v { annotations = own_annotations c v }

  abbrev with_cluster_ip : View E T V → View E T V → View E T V
  with_cluster_ip c v = record v {
    cluster_ip = if is_service v then prefer c.cluster_ip v.cluster_ip else v.cluster_ip;
  }

  abbrev with_secrets : View E T V → View E T V → View E T V
  with_secrets c v = record v {
    secrets = if is_service_account v then prefer c.secrets v.secrets else v.secrets;
    image_pull_secrets =
        if is_service_account v
        then prefer c.image_pull_secrets v.image_pull_secrets
        else v.image_pull_secrets;
  }

  abbrev with_metadata : MapRange → View E T V → View E T V → View E T V
  with_metadata r c v = record v {
    creation_timestamp = c.creation_timestamp;
    self_link = c.self_link;
    generation = c.generation;
    uid = c.uid;
    resource_version = c.resource_version;
    annotations = some (overlay (or_empty c.annotations) (r.range Text (or_empty v.annotations)));
    labels = some (overlay (or_empty c.labels) (r.range Text (or_empty v.labels)));
  }

module _ {O E T V : Type 0} (u : Unstructured O E T V) (r : MapRange) (c : O) where
  view-merge_deployment :
      (o : O)
      → u.view (merge_deployment_for_update u c o) ≡ with_own_annotations (u.view c) (u.view o)
  unfolding merge_deployment_for_update
  view-merge_deployment o = elim (Bool-cases (is_deployment (u.view o))) [
    | inl e ↦ rw (e, u.view-set_annotations)
    | inr e ↦ rw e
  ]

  view-copy_cluster_ip :
      (ip : Nested E Text) (o o' : O)
      → copy_cluster_ip u ip o ≡ ok o'
      → u.view o' ≡ record (u.view o) { cluster_ip = prefer ip (u.view o).cluster_ip }
  unfolding copy_cluster_ip
  view-copy_cluster_ip (found ip) o o' h = u.view-set_cluster_ip ip o o' h
  view-copy_cluster_ip absent o o' h = ap u.view (sym (ok-injective o o' h))
  view-copy_cluster_ip (malformed e) o o' h = absurd (fail≢ok e o' h)

  view-merge_service :
      (o o' : O)
      → merge_service_for_update u c o ≡ ok o'
      → u.view o' ≡ with_cluster_ip (u.view c) (u.view o)
  unfolding merge_service_for_update
  view-merge_service o o' h = elim (Bool-cases (is_service (u.view o))) [
    | inl e ↦ rw e (view-copy_cluster_ip (u.view c).cluster_ip o o' (rw e at h))
    | inr e ↦ rw e (ap u.view (sym (ok-injective o o' (rw e at h))))
  ]

  copy_secrets_ok :
      (set : List V → O → O) (s : Nested E (List V)) (o o' : O)
      → copy_secrets u set s o ≡ ok o'
      → u.view o' ≡ (elim s [ found l ↦ u.view (set l o) | _ ↦ u.view o ])
  unfolding copy_secrets
  copy_secrets_ok set (found l) o o' h = ap u.view (sym (ok-injective (set l o) o' h))
  copy_secrets_ok set absent o o' h = ap u.view (sym (ok-injective o o' h))
  copy_secrets_ok set (malformed e) o o' h = absurd (fail≢ok e o' h)

  set_secrets_view :
      (s : Nested E (List V)) (o : O)
      → (elim s as (λ x. View E T V) [ found l ↦ u.view (u.set_secrets l o) | _ ↦ u.view o ])
        ≡ record (u.view o) { secrets = prefer s (u.view o).secrets }
  set_secrets_view (found l) o = u.view-set_secrets l o
  set_secrets_view absent o = refl
  set_secrets_view (malformed e) o = refl

  set_pull_secrets_view :
      (s : Nested E (List V)) (o : O)
      → (elim s as (λ x. View E T V) [
        | found l ↦ u.view (u.set_image_pull_secrets l o)
        | _ ↦ u.view o
      ])
        ≡ record (u.view o) { image_pull_secrets = prefer s (u.view o).image_pull_secrets }
  set_pull_secrets_view (found l) o = u.view-set_image_pull_secrets l o
  set_pull_secrets_view absent o = refl
  set_pull_secrets_view (malformed e) o = refl

  view-merge_service_account :
      (o o' : O)
      → merge_service_account_for_update u c o ≡ ok o'
      → u.view o' ≡ with_secrets (u.view c) (u.view o)
  unfolding merge_service_account_for_update
  view-merge_service_account o o' h = elim (Bool-cases (is_service_account (u.view o))) [
    | inr e ↦ rw e (ap u.view (sym (ok-injective o o' (rw e at h))))
    | inl e ↦
        let (o1, first, second) =
          then-ok (copy_secrets u u.set_secrets (u.view c).secrets o)
            (copy_secrets u u.set_image_pull_secrets (u.view c).image_pull_secrets) o'
            (rw e at h) in
        let v1 =
          copy_secrets_ok u.set_secrets (u.view c).secrets o o1 first
          ∙ set_secrets_view (u.view c).secrets o in
        let v2 =
          copy_secrets_ok u.set_image_pull_secrets (u.view c).image_pull_secrets o1 o' second
          ∙ set_pull_secrets_view (u.view c).image_pull_secrets o1 in
        rw e (
          v2
          ∙ ap {A = View E T V}
              (λ v. record v {
                image_pull_secrets = prefer (u.view c).image_pull_secrets v.image_pull_secrets;
              })
              v1)
  ]

  view-merge_metadata :
      (o : O) → u.view (merge_metadata_for_update u r c o) ≡ with_metadata r (u.view c) (u.view o)
  unfolding merge_metadata_for_update merge_labels merge_annotations copy_read_only
  view-merge_metadata o = rw (
    u.view-set_labels, u.view-set_annotations, u.view-set_resource_version, u.view-set_uid,
    u.view-set_generation, u.view-set_self_link, u.view-set_creation_timestamp,
  )

  -- The fields of a merged object, from those of the current and of the updated one.
  pub view-merge_object :
      (o o' : O)
      → merge_object_for_update u r c o ≡ ok o'
      → u.view o'
        ≡ with_metadata r (u.view c) (
            with_secrets
              (u.view c)
              (with_cluster_ip (u.view c) (with_own_annotations (u.view c) (u.view o))))
  unfolding merge_object_for_update
  view-merge_object o o' h =
      let deployment = merge_deployment_for_update u c o in
      let (account, rest, last) =
        then-ok (merge_service_for_update u c deployment then merge_service_account_for_update u c)
          (λ merged. ok (merge_metadata_for_update u r c merged)) o' h in
      let (service, first, second) =
        then-ok (merge_service_for_update u c deployment) (merge_service_account_for_update u c)
          account rest in
      ap u.view (sym (ok-injective (merge_metadata_for_update u r c account) o' last))
      ∙ view-merge_metadata account
      ∙ ap (with_metadata r (u.view c)) (
          view-merge_service_account service account second
          ∙ ap (with_secrets (u.view c)) (
              view-merge_service deployment service first
              ∙ ap (with_cluster_ip (u.view c)) (view-merge_deployment o)))
