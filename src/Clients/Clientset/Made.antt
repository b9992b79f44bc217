-- ===== src/Clients/Clientset/Made.antt =====
-- The clients of a clientset, and its errors.
use ptp_operator_upstream.Base.{
  true, false, some, Result, ok, fail, ◌then◌, ◌≡◌, ◌⊎◌, inl, inr, refl, if◌then◌else◌, Bool-cases,
}
use ptp_operator_upstream.Base.Int.{pos, lt_ℤ}
use ptp_operator_upstream.Clients.Clientset.{
  RestConfig, RestLibrary, Clientset, ClientsetError, burst_required, no_ptp_client,
  no_discovery_client, set_config_defaults, new_ptp_client, is_nil, limit_rate, or_error,
  new_clientset,
}

module _ {G Q N X R D E : Type 0} (k : RestLibrary G Q N X R D E) (c : RestConfig G Q N X) where
  -- A limiter is asked for, and there is none.
  abbrev NeedsLimiter : Type 0
  NeedsLimiter = (is_nil k c.rate_limiter ≡ true) × (k.is_positive c.qps ≡ true)

  -- The configuration that both clients are made from.
  abbrev IsLimited : RestConfig G Q N X → Type 0
  IsLimited c' =
      ((¬ NeedsLimiter) × (c' ≡ c))
      ⊎ (NeedsLimiter
          × (lt_ℤ (pos 0) c.burst ≡ true)
          × (c' ≡ record c { rate_limiter = some (k.new_token_bucket_rate_limiter c.qps c.burst) }))

  abbrev pub IsMade : Result (ClientsetError E) (Clientset R D) → Type 0
  IsMade (ok cs) =
      (c' : RestConfig G Q N X) × IsLimited c'
      × (k.rest_client_for (set_config_defaults k c') ≡ ok cs.ptp_v1.rest_client)
      × (k.new_discovery_client_for_config c' ≡ ok cs.discovery_client)
  IsMade (fail burst_required) = NeedsLimiter × (lt_ℤ (pos 0) c.burst ≡ false)
  IsMade (fail (no_ptp_client e)) =
      (c' : RestConfig G Q N X) × IsLimited c'
      × (k.rest_client_for (set_config_defaults k c') ≡ fail e)
  IsMade (fail (no_discovery_client e)) =
      (c' : RestConfig G Q N X) × IsLimited c'
      × ((r : R) × (k.rest_client_for (set_config_defaults k c') ≡ ok r))
      × (k.new_discovery_client_for_config c' ≡ fail e)

  -- The outcomes of the first step.
  limit_rate-cases :
      ((c' : RestConfig G Q N X) × (limit_rate k c ≡ ok c') × IsLimited c')
      ⊎ ((limit_rate k c ≡ fail burst_required) × NeedsLimiter × (lt_ℤ (pos 0) c.burst ≡ false))
  unfolding limit_rate
  limit_rate-cases = elim (Bool-cases (is_nil k c.rate_limiter)) [
    | inr e ↦ inl (c, rw (limit_rate, e), inl ((λ n. cc (e, n.0)), refl))
    | inl e ↦ elim (Bool-cases (k.is_positive c.qps)) [
      | inr f ↦ inl (c, rw (limit_rate, e, f), inl ((λ n. cc (f, n.1)), refl))
      | inl f ↦ elim (Bool-cases (lt_ℤ (pos 0) c.burst)) [
        | inl g ↦ inl (_, rw (limit_rate, e, f, g) refl, inr ((e, f), g, refl))
        | inr g ↦ inr (rw (limit_rate, e, f, g), (e, f), g)
      ]
    ]
  ]

  discovery-IsMade :
      (c' : RestConfig G Q N X) (r : R) (made : Result E D)
      → IsLimited c'
      → k.rest_client_for (set_config_defaults k c') ≡ ok r
      → k.new_discovery_client_for_config c' ≡ made
      → IsMade (
          or_error k no_discovery_client made then λ d.
          ok (record { discovery_client = d; ptp_v1 = record { rest_client = r } }))
  discovery-IsMade c' r (ok d) l h g = (c', l, h, g)
  discovery-IsMade c' r (fail e) l h g = (c', l, (r, h), g)

  ptp_client-IsMade :
      (c' : RestConfig G Q N X) (made : Result E R)
      → IsLimited c'
      → k.rest_client_for (set_config_defaults k c') ≡ made
      → IsMade (
          or_error k no_ptp_client (made then λ r. ok (record { rest_client = r })) then λ p.
          or_error k no_discovery_client (k.new_discovery_client_for_config c') then λ d.
          ok (record { discovery_client = d; ptp_v1 = p }))
  ptp_client-IsMade c' (ok r) l h =
      discovery-IsMade c' r (k.new_discovery_client_for_config c') l h refl
  ptp_client-IsMade c' (fail e) l h = (c', l, h)

-- `NewForConfig` needs a limiter if there is none and the queries per second are positive. If it
-- returns a clientset, both clients are made from the configuration, with one and the same new limiter
-- where one is needed, and the typed client's with its defaults besides. Its errors are a burst that is
-- not positive where a limiter is needed, and the errors of the two constructors, in their order.
pub new_clientset-IsMade :
    {G Q N X R D E : Type 0} (k : RestLibrary G Q N X R D E) (c : RestConfig G Q N X)
    → IsMade k c (new_clientset k c)
unfolding new_clientset new_ptp_client
new_clientset-IsMade k c = elim (limit_rate-cases k c) [
  | inl (c', e, l) ↦
      rw (new_clientset, e)
        (ptp_client-IsMade k c c' (k.rest_client_for (set_config_defaults k c')) l refl)
  | inr (e, n, g) ↦ rw (new_clientset, e) (n, g)
]
