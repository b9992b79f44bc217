-- ===== src/Controllers/PtpConfigController/Texts.antt =====
-- What the loop over the nodes in controllers/ptpconfig_controller.go puts into the data.
use ptp_operator_upstream.Base.{
  some, List, [], ◌∷◌, ◌≡◌, inl, inr, refl, ap, sym, ◌∙◌, Go, ret, ret-injective, bind-ret, Result,
  ok, fail, ok-injective, fail≢ok, ok-or-fail, All, Bool-cases,
}
use ptp_operator_upstream.Base.Distinct.{Has, Distinct}
use ptp_operator_upstream.Base.Text.{Text, same, same_iff}
use ptp_operator_upstream.Base.GoMap.{GoMap, lookup, put, lookup-put, lookup-put_self, MapRange}
use ptp_operator_upstream.Api.PtpConfig.{PtpProfile, PtpConfig}
use ptp_operator_upstream.Controllers.Recommend.{
  Node, SliceSort, Recommended, profiles, failed_to_find_all, get_recommend_profiles,
}
use ptp_operator_upstream.Controllers.PtpConfigController.{
  SyncError, not_recommended, not_marshalled, get_recommend_node_ptp_profiles, marshal_profiles,
  node_data, sync_nodes,
}

abbrev pub node_names : List Node → List Text
node_names [] = []
node_names (node ∷ nodes) = node.name ∷ node_names nodes

module _ {E : Type 0} (marshal : List PtpProfile → Result E Text) (r : MapRange) (s : SliceSort)
    (configs : List PtpConfig) where
  -- The text is that of the profiles that the node is recommended.
  abbrev pub IsTextOf : Node → Text → Type 0
  IsTextOf node t =
      (ps : List PtpProfile) × (get_recommend_profiles r s configs node ≡ ret (profiles ps))
      × (marshal ps ≡ ok t)

  -- The data have the text of the node under its name.
  abbrev pub HasTextOf : GoMap Text → Node → Type 0
  HasTextOf entries node = (t : Text) × IsTextOf node t × (lookup node.name entries ≡ some t)

  recommended-ok :
      (x : Recommended) (ps : List PtpProfile)
      → Path
          (Go (Result (SyncError E) (List PtpProfile)))
          (elim x [ profiles ps ↦ ret (ok ps) | failed_to_find_all ↦ ret (fail not_recommended) ])
          (ret (ok ps))
      → x ≡ profiles ps
  recommended-ok (profiles qs) ps h = ap profiles (ok-injective qs ps (ret-injective _ _ h))
  recommended-ok failed_to_find_all ps h =
      absurd (fail≢ok {A = List PtpProfile} not_recommended ps (ret-injective _ _ h))

  marshal_profiles-ok :
      (x : Result (SyncError E) (List PtpProfile)) (t : Text)
      → marshal_profiles marshal x ≡ ok t
      → (ps : List PtpProfile) × (x ≡ ok ps) × (marshal ps ≡ ok t)
  unfolding marshal_profiles
  marshal_profiles-ok (fail e) t h = absurd (fail≢ok e t h)
  marshal_profiles-ok (ok ps) t h = elim (ok-or-fail (marshal ps)) [
    | inl (text, e) ↦ (ps, refl, e ∙ ap ok (ok-injective text t (rw (marshal_profiles, e) at h)))
    | inr (error, e) ↦ absurd (fail≢ok (not_marshalled error) t (rw (marshal_profiles, e) at h))
  ]

  node_data-ok :
      (node : Node) (t : Text) → node_data marshal r s configs node ≡ ret (ok t) → IsTextOf node t
  unfolding node_data get_recommend_node_ptp_profiles
  node_data-ok node t h =
      let (result, e, f) =
        bind-ret (get_recommend_node_ptp_profiles r s configs node)
          (λ x. ret (marshal_profiles marshal x)) (ok t) h in
      let (ps, g, m) = marshal_profiles-ok result t (ret-injective _ _ f) in
      let (x, found, k) =
        bind-ret (get_recommend_profiles r s configs node) _ (ok ps) (rw g at e) in
      (ps, found ∙ ap ret (recommended-ok x ps k), m)

  pub sync_nodes-ok :
      (nodes : List Node) (before after : GoMap Text)
      → Distinct (node_names nodes)
      → sync_nodes marshal r s configs before nodes ≡ ret (ok after)
      → All (HasTextOf after) nodes
        × ((k : Text) → (Has k (node_names nodes) → ⊥) → lookup k after ≡ lookup k before)
  unfolding sync_nodes
  sync_nodes-ok [] before after d h =
      (tt, λ k other. ap (lookup k) (sym (ok-injective before after (ret-injective _ _ h))))
  sync_nodes-ok (node ∷ nodes) before after d h =
      let (result, e, f) = bind-ret (node_data marshal r s configs node) _ (ok after) h in
      elim (ok-or-fail result) [
        | inr (error, g) ↦
            absurd (fail≢ok {A = GoMap Text} error after (ret-injective _ _ (rw g at f)))
        | inl (t, g) ↦
            let (rest, kept) = sync_nodes-ok nodes (put node.name t before) after d.1 (rw g at f) in
            (
              (
                (
                  t,
                  node_data-ok node t (e ∙ ap ret g),
                  kept node.name d.0 ∙ lookup-put_self node.name t before,
                ),
                rest,
              ),
              (λ k other. elim (Bool-cases (same node.name k)) [
                | inl same_key ↦ absurd (other (inl ((same_iff node.name k).0 same_key)))
                | inr other_key ↦
                    kept k (λ m. other (inr m)) ∙ lookup-put node.name k t before ∙ rw other_key
              ]),
            )
      ]
