-- ===== src/Testing/Discovery/Discovered.antt =====
-- The result of `discoverMode`, against the shapes of the configurations under test.
use ptp_operator_upstream.Base.{
  ℕ, Bool, true, false, ◌&&◌, Option, none, some, List, [], ◌∷◌, ◌≡◌, inl, inr, refl, subst, ◌∙◌,
  arith, ret, ret-injective, bind-ret, All, length, ◌==◌, Bool-cases, if◌then◌else◌,
}
use ptp_operator_upstream.Base.GoMap.{MapRange}
use ptp_operator_upstream.Api.PtpConfig.{PtpConfig}
use ptp_operator_upstream.Api.Interfaces.{master, slave, get_interfaces}
use ptp_operator_upstream.Testing.Config.{
  discovery_success_status, discovery_failure_status, PtpMode, ordinary_clock, boundary_clock,
  dual_nic_boundary_clock, telco_grand_master_clock, TestConfig,
}
use ptp_operator_upstream.Testing.Discovery.{
  Findings, is_oc_shape, is_gm_shape, found_oc, discover_loop, conclude, Pods, get_ptp_pod,
  with_pod, discover_mode,
}
use ptp_operator_upstream.Testing.Discovery.Modes.{
  count_of, count_of-ret, is_bc, is_oc, count_bc, count_secondary, any_gm, Discovers,
  discover_loop-Discovers,
}

-- A configuration alone that is an ordinary clock.
abbrev single_oc : MapRange → List PtpConfig → Bool
single_oc r [] = false
single_oc r (c ∷ []) = is_oc r 1 c
single_oc r (c ∷ d ∷ cs) = false

-- The mode that the shapes of the configurations tell, if they tell one.
abbrev pub expected_mode : MapRange → List PtpConfig → Option PtpMode
expected_mode r cs =
    if count_bc r cs == 1
    then some boundary_clock
    else if count_bc r cs == 2 && count_secondary r cs == 1
    then some dual_nic_boundary_clock
    else if any_gm r cs
    then some telco_grand_master_clock
    else if single_oc r cs
    then some ordinary_clock
    else none

abbrev pub IsDiscovered : {P : Type 0} → Option PtpMode → TestConfig P → TestConfig P → Type 0
IsDiscovered none g g' =
    (g'.status ≡ discovery_failure_status) × (g'.ptp_mode_discovered ≡ g.ptp_mode_discovered)
IsDiscovered (some mode) g g' =
    (g'.status ≡ discovery_success_status) × (g'.ptp_mode_discovered ≡ mode)

-- With two configurations or more none counts as an ordinary clock.
no_oc_among :
    (r : MapRange) (total : ℕ) (cs : List PtpConfig)
    → (total == 1) ≡ false
    → All (λ c. is_oc r total c ≡ false) cs
no_oc_among r total [] e = tt
no_oc_among r total (c ∷ cs) e = (ground (arith, e), no_oc_among r total cs e)

module _ {P : Type 0} where
  abbrev started : TestConfig P → Findings P
  started g = record {
    config = record g { status = discovery_failure_status };
    num_bc = 0;
    num_secondary_bc = 0;
  }

  -- The end of the discovery, if no ordinary clock was found.
  conclude-IsDiscovered :
      (bcs secondaries : ℕ) (gm : Bool) (g : TestConfig P) (f : Findings P)
      → f.num_bc ≡ bcs
      → f.num_secondary_bc ≡ secondaries
      → f.config.ptp_mode_discovered
        ≡ (if gm then telco_grand_master_clock else g.ptp_mode_discovered)
      → f.config.status ≡ (if gm then discovery_success_status else discovery_failure_status)
      → IsDiscovered
          (if bcs == 1
            then some boundary_clock
            else if bcs == 2 && secondaries == 1
            then some dual_nic_boundary_clock
            else if gm
            then some telco_grand_master_clock
            else none)
          g
          (conclude f)
  unfolding conclude
  conclude-IsDiscovered bcs secondaries gm g f eb es em et = elim (Bool-cases (bcs == 1)) [
    | inl one ↦
        let not_two : (bcs == 2) ≡ false = ground (arith, one) in
        rw (eb, es, one, not_two) (refl, refl)
    | inr not_one ↦ elim (Bool-cases (bcs == 2 && secondaries == 1)) [
      | inl two ↦ rw (eb, es, not_one, two) (refl, refl)
      | inr other ↦ elim (Bool-cases gm) [
        | inl is ↦ rw (eb, es, not_one, other, is) (rw is at et, rw is at em)
        | inr is ↦ rw (eb, es, not_one, other, is) (rw is at et, rw is at em)
      ]
    ]
  ]

  -- The same, for a discovery that has gone over all configurations.
  no_oc-IsDiscovered :
      (r : MapRange) (cs : List PtpConfig) (g : TestConfig P) (f : Findings P)
      → single_oc r cs ≡ false
      → Discovers r cs (started g) f
      → IsDiscovered (expected_mode r cs) g (conclude f)
  no_oc-IsDiscovered r cs g f no_oc (bcs, secondaries, mode, status) = rw no_oc (
      conclude-IsDiscovered (count_bc r cs) (count_secondary r cs) (any_gm r cs) g f
        (bcs ∙ omega arith) (secondaries ∙ omega arith) mode status)

  -- A single ordinary clock ends the loop.
  oc_round :
      (r : MapRange) (c : PtpConfig) (g : TestConfig P) (f : Findings P)
      → is_oc r 1 c ≡ true
      → discover_loop r 1 (started g) (c ∷ []) ≡ ret f
      → found_oc c (started g) ≡ f
  unfolding discover_loop
  oc_round r c g f oc h =
      let (ms, em, h1) = bind-ret (get_interfaces r c master) _ f h in
      let (ss, es, h2) = bind-ret (get_interfaces r c slave) _ f h1 in
      let cm = count_of-ret r c master ms em in
      let cs = count_of-ret r c slave ss es in
      let oc' : is_oc_shape (length ms) (length ss) 1 ≡ true = rw (cm, cs) at oc in
      ret-injective _ _ (rw oc' at h2)

  oc-IsDiscovered :
      (r : MapRange) (c : PtpConfig) (g : TestConfig P)
      → is_oc r 1 c ≡ true
      → IsDiscovered (expected_mode r (c ∷ [])) g (conclude (found_oc c (started g)))
  unfolding conclude found_oc
  oc-IsDiscovered r c g oc =
      let no_bc : is_bc r c ≡ false = ground (arith, oc) in
      let no_gm : is_gm_shape (count_of r c master) (count_of r c slave) ≡ false =
        ground (arith, oc) in
      rw (no_bc, no_gm, oc) (refl, refl)

  loop-IsDiscovered :
      (r : MapRange) (cs : List PtpConfig) (g : TestConfig P) (f : Findings P)
      → discover_loop r (length cs) (started g) cs ≡ ret f
      → IsDiscovered (expected_mode r cs) g (conclude f)
  loop-IsDiscovered r [] g f h =
      no_oc-IsDiscovered r [] g f refl (discover_loop-Discovers r 0 [] (started g) f tt h)
  loop-IsDiscovered r (c ∷ []) g f h = elim (Bool-cases (is_oc r 1 c)) [
    | inl oc ↦
        subst (λ x. IsDiscovered (expected_mode r (c ∷ [])) g (conclude x)) (oc_round r c g f oc h)
          (oc-IsDiscovered r c g oc)
    | inr no_oc ↦
        no_oc-IsDiscovered r (c ∷ []) g f no_oc
          (discover_loop-Discovers r 1 (c ∷ []) (started g) f (no_oc, tt) h)
  ]
  loop-IsDiscovered r (c ∷ d ∷ cs) g f h =
      let many : (length (c ∷ d ∷ cs) == 1) ≡ false = ground arith in
      no_oc-IsDiscovered r (c ∷ d ∷ cs) g f refl (
        discover_loop-Discovers r (length (c ∷ d ∷ cs)) (c ∷ d ∷ cs) (started g) f
          (no_oc_among r (length (c ∷ d ∷ cs)) (c ∷ d ∷ cs) many) h)

  pod-IsDiscovered :
      (e : Option PtpMode) (g c : TestConfig P) (pod : Option P)
      → IsDiscovered e g c
      → IsDiscovered e g (record c { discovered_clock_under_test_pod = pod })
  pod-IsDiscovered none g c pod d = d
  pod-IsDiscovered (some mode) g c pod d = d

-- A discovery that returns succeeds if the configurations under test have exactly one of the shape
-- of a boundary clock, or exactly two with one of them without options for phc2sys, or else any of
-- the shape of a grand master, or else are a single ordinary clock, and then has discovered that
-- mode, the first that applies; otherwise it fails and keeps the mode discovered before.
pub discover_mode-IsDiscovered :
    {P E : Type 0} (pods : Pods P E) (r : MapRange) (g g' : TestConfig P) (cs : List PtpConfig)
    → discover_mode pods r g cs ≡ ret g'
    → IsDiscovered (expected_mode r cs) g g'
unfolding discover_mode with_pod
discover_mode-IsDiscovered pods r g g' [] h =
    subst (IsDiscovered none g) (ret-injective _ _ h) (refl, refl)
discover_mode-IsDiscovered pods r g g' (c ∷ cs) h =
    let (f, looped, rest) =
      bind-ret (discover_loop r (length (c ∷ cs)) (started g) (c ∷ cs)) _ g' h in
    let (pod, _, built) =
      bind-ret (get_ptp_pod pods (conclude f).discovered_clock_under_test) _ g' rest in
    subst (IsDiscovered (expected_mode r (c ∷ cs)) g) (ret-injective _ _ built) (
      pod-IsDiscovered (expected_mode r (c ∷ cs)) g (conclude f) pod
        (loop-IsDiscovered r (c ∷ cs) g f looped))
