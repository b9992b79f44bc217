-- ===== src/Testing/Discovery/Modes.antt =====
-- Which mode is discovered.
use ptp_operator_upstream.Base.{
  ℕ, suc, ◌+◌, Bool, true, false, not, ◌&&◌, ◌||◌, none, some, List, [], ◌∷◌, ◌≡◌, inl, inr, refl,
  sym, ap, ◌∙◌, arith, ret, panic, ret-injective, panic≢ret, bind-ret, All, length, Bool-cases,
  Option-cases, if◌then◌else◌,
}
use ptp_operator_upstream.Base.Text.{Text, same}
use ptp_operator_upstream.Base.GoMap.{MapRange}
use ptp_operator_upstream.Api.PtpConfig.{PtpProfile, PtpConfig}
use ptp_operator_upstream.Api.Interfaces.{PtpRole, master, slave, get_interfaces}
use ptp_operator_upstream.Testing.Config.{discovery_success_status, telco_grand_master_clock}
use ptp_operator_upstream.Testing.Discovery.{
  is_secondary_bc, Findings, is_oc_shape, is_bc_shape, is_gm_shape, has_ts2phc, found_bc, found_gm,
  classify, discover_loop,
}

unfoldable pub count_of : MapRange → PtpConfig → PtpRole → ℕ
count_of r c role = elim (get_interfaces r c role) [ ret l ↦ length l | panic ↦ 0 ]

pub count_of-ret :
    (r : MapRange) (c : PtpConfig) (role : PtpRole) (l : List Text)
    → get_interfaces r c role ≡ ret l
    → count_of r c role ≡ length l
unfolding count_of
count_of-ret r c role l e = rw (count_of, e)

-- The first profile has a non-empty ts2phc configuration.
abbrev sets_ts2phc : List PtpProfile → Bool
sets_ts2phc [] = false
sets_ts2phc (p ∷ _) = elim p.ts2phc_conf [ none ↦ false | some conf ↦ not (same conf []) ]

-- A boundary clock has master and slave interfaces; a grand master at least two master and no
-- slave ones, and a ts2phc configuration; an ordinary clock a single slave one.
abbrev pub is_bc : MapRange → PtpConfig → Bool
is_bc r c = is_bc_shape (count_of r c master) (count_of r c slave)

abbrev is_gm : MapRange → PtpConfig → Bool
is_gm r c = is_gm_shape (count_of r c master) (count_of r c slave) && sets_ts2phc c.spec.profile

abbrev pub is_oc : MapRange → ℕ → PtpConfig → Bool
is_oc r total c = is_oc_shape (count_of r c master) (count_of r c slave) total

abbrev pub count_bc : MapRange → List PtpConfig → ℕ
count_bc r [] = 0
count_bc r (c ∷ cs) = if is_bc r c then suc (count_bc r cs) else count_bc r cs

abbrev pub count_secondary : MapRange → List PtpConfig → ℕ
count_secondary r [] = 0
count_secondary r (c ∷ cs) =
    if is_bc r c && is_secondary_bc c then suc (count_secondary r cs) else count_secondary r cs

abbrev pub any_gm : MapRange → List PtpConfig → Bool
any_gm r [] = false
any_gm r (c ∷ cs) = is_gm r c || any_gm r cs

has_ts2phc-ret : (ps : List PtpProfile) (b : Bool) → has_ts2phc ps ≡ ret b → b ≡ sets_ts2phc ps
unfolding has_ts2phc
has_ts2phc-ret [] b h = absurd (panic≢ret b h)
has_ts2phc-ret (p ∷ ps) b h = elim (Option-cases p.ts2phc_conf) [
  | inl e ↦ absurd (panic≢ret b (rw e at h))
  | inr (conf, e) ↦ rw e (sym (ret-injective _ _ (rw e at h)))
]

step_count :
    (b : Bool) (n m k : ℕ) → m ≡ (if b then suc n else n) → m + k ≡ n + (if b then suc k else k)
step_count true n m k e = omega arith
step_count false n m k e = omega arith

step_choice :
    {A : Type 0} (b c : Bool) (x y z : A)
    → z ≡ (if b then x else y)
    → (if c then x else z) ≡ (if b || c then x else y)
step_choice true true x y z e = refl
step_choice true false x y z e = e
step_choice false true x y z e = refl
step_choice false false x y z e = e

module _ {P : Type 0} where
  -- A round that returns, as a function of the shapes.
  abbrev round_of : Bool → Bool → PtpConfig → Findings P → Findings P
  round_of bc gm c f = let f' = if bc then found_bc c f else f in if gm then found_gm c f' else f'

  classify-ret :
      (c : PtpConfig) (m s : ℕ) (f f' : Findings P)
      → classify c m s f ≡ ret f'
      → f' ≡ round_of (is_bc_shape m s) (is_gm_shape m s && sets_ts2phc c.spec.profile) c f
  unfolding classify
  classify-ret c m s f f' h = elim (Bool-cases (is_gm_shape m s)) [
    | inr e ↦ rw e (sym (ret-injective _ _ (rw e at h)))
    | inl e ↦
        let (b, g, k) = bind-ret (has_ts2phc c.spec.profile) _ f' (rw e at h) in
        rw (e, ← has_ts2phc-ret c.spec.profile b g) (sym (ret-injective _ _ k))
  ]

  -- What a round does to what the end of the discovery reads.
  abbrev pub Steps : Bool → Bool → Bool → Findings P → Findings P → Type 0
  Steps bc secondary gm f f' =
      (f'.num_bc ≡ (if bc then suc f.num_bc else f.num_bc))
      × (f'.num_secondary_bc
          ≡ (if bc && secondary then suc f.num_secondary_bc else f.num_secondary_bc))
      × (f'.config.ptp_mode_discovered
          ≡ (if gm then telco_grand_master_clock else f.config.ptp_mode_discovered))
      × (f'.config.status ≡ (if gm then discovery_success_status else f.config.status))

  round_of-Steps :
      (bc gm : Bool) (c : PtpConfig) (f : Findings P)
      → Steps bc (is_secondary_bc c) gm f (round_of bc gm c f)
  unfolding found_bc found_gm
  round_of-Steps true true c f = (refl, refl, refl, refl)
  round_of-Steps true false c f = (refl, refl, refl, refl)
  round_of-Steps false true c f = (refl, refl, refl, refl)
  round_of-Steps false false c f = (refl, refl, refl, refl)

  -- The same for the whole loop.
  abbrev pub Discovers : MapRange → List PtpConfig → Findings P → Findings P → Type 0
  Discovers r cs f f' =
      (f'.num_bc ≡ f.num_bc + count_bc r cs)
      × (f'.num_secondary_bc ≡ f.num_secondary_bc + count_secondary r cs)
      × (f'.config.ptp_mode_discovered
          ≡ (if any_gm r cs then telco_grand_master_clock else f.config.ptp_mode_discovered))
      × (f'.config.status ≡ (if any_gm r cs then discovery_success_status else f.config.status))

  discover_round :
      (r : MapRange) (total : ℕ) (c : PtpConfig) (cs : List PtpConfig) (f f' : Findings P)
      → is_oc r total c ≡ false
      → discover_loop r total f (c ∷ cs) ≡ ret f'
      → (f1 : Findings P) × (f1 ≡ round_of (is_bc r c) (is_gm r c) c f)
        × (discover_loop r total f1 cs ≡ ret f')
  unfolding discover_loop
  discover_round r total c cs f f' not_oc h =
      let (ms, em, h1) = bind-ret (get_interfaces r c master) _ (f') h in
      let (ss, es, h2) = bind-ret (get_interfaces r c slave) _ (f') h1 in
      let cm = count_of-ret r c master ms em in
      let cs' = count_of-ret r c slave ss es in
      let not_oc' : is_oc_shape (length ms) (length ss) total ≡ false = rw (cm, cs') at not_oc in
      let (f1, k, rest) = bind-ret (classify c (length ms) (length ss) f) _ f' (rw not_oc' at h2) in
      (f1, rw (cm, cs') (classify-ret c (length ms) (length ss) f f1 k), rest)

  pub discover_loop-Discovers :
      (r : MapRange) (total : ℕ) (cs : List PtpConfig) (f f' : Findings P)
      → All (λ c. is_oc r total c ≡ false) cs
      → discover_loop r total f cs ≡ ret f'
      → Discovers r cs f f'
  unfolding discover_loop
  discover_loop-Discovers r total [] f f' a h =
      let same_findings = ret-injective _ _ h in
      (
        ap (λ x. x.num_bc) (sym same_findings) ∙ omega arith,
        ap (λ x. x.num_secondary_bc) (sym same_findings) ∙ omega arith,
        ap (λ x. x.config.ptp_mode_discovered) (sym same_findings),
        ap (λ x. x.config.status) (sym same_findings),
      )
  discover_loop-Discovers r total (c ∷ cs) f f' a h =
      let (f1, round, rest) = discover_round r total c cs f f' a.0 h in
      let (bcs, secondaries, mode, status) : Steps (is_bc r c) (is_secondary_bc c) (is_gm r c) f
          f1 =
        rw round (round_of-Steps (is_bc r c) (is_gm r c) c f) in
      let (bcs', secondaries', mode', status') =
        discover_loop-Discovers r total cs f1 f' a.1 rest in
      (
        bcs' ∙ step_count (is_bc r c) f.num_bc f1.num_bc (count_bc r cs) bcs,
        secondaries'
            ∙ step_count (is_bc r c && is_secondary_bc c) f.num_secondary_bc f1.num_secondary_bc
                (count_secondary r cs) secondaries,
        mode' ∙ step_choice (is_gm r c) (any_gm r cs) telco_grand_master_clock _ _ mode,
        status' ∙ step_choice (is_gm r c) (any_gm r cs) discovery_success_status _ _ status,
      )
