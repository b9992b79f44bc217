-- ===== src/Api/Interfaces/Roles.antt =====
-- The interfaces found do not depend on the order of the map, and every section with a role is among them.
use mathlib.Core.List.Permᴰ
use mathlib.Core.Option.{some-injective}
use ptp_operator_upstream.Base.{
  flat-perm, arith, ◌∙◌, true, false, Option, some, inl, inr, ap, Any, Any-perm, Any-map,
  Bool-cases, List, [], ◌∷◌, ◌++◌, ◌≡◌, refl, ret, if◌then◌else◌,
}
use ptp_operator_upstream.Base.Distinct.{Has}
use ptp_operator_upstream.Base.Text.{Text, codes, same, same_iff}
use ptp_operator_upstream.Base.GoMap.{GoMap, lookup, MapRange}
use ptp_operator_upstream.Api.Ptp4lConf.{Sections, Ptp4lConfSection, ConfError, populate_ptp4l_conf}
use ptp_operator_upstream.Api.Ptp4lConf.Outcome.{populate_returns}
use ptp_operator_upstream.Api.PtpConfig.{PtpProfile, PtpConfig}
use ptp_operator_upstream.Api.Interfaces.{
  PtpRole, slave, master, has_role, bare_name, select_interfaces, get_section_interfaces, to_list,
  replace_global, fallback, get_profile_interfaces, get_interfaces,
}

select_interfaces-Has :
    (mode : PtpRole) (m : GoMap Ptp4lConfSection) (index : Text)
    → Any (λ kv. (kv.0 ≡ index) × (has_role mode kv.1 ≡ true)) m
    → Has (bare_name (bare_name index)) (select_interfaces mode m)
unfolding select_interfaces
select_interfaces-Has mode ((k, v) ∷ m) index (inl (e, h)) =
    rw h (inl (ap (λ t. bare_name (bare_name t)) e))
select_interfaces-Has mode ((k, v) ∷ m) index (inr h) = elim (Bool-cases (has_role mode v)) [
  | inl e ↦ rw e (inr (select_interfaces-Has mode m index h))
  | inr e ↦ rw e (select_interfaces-Has mode m index h)
]
select_interfaces-Has mode [] index h = absurd h

Any-append_right : {A : Type 0} (P : A → Type 0) (xs ys : List A) → Any P ys → Any P (xs ++ ys)
Any-append_right P [] ys h = h
Any-append_right P (x ∷ xs) ys h = inr (Any-append_right P xs ys h)

Any-append_left : {A : Type 0} (P : A → Type 0) (xs ys : List A) → Any P xs → Any P (xs ++ ys)
Any-append_left P (x ∷ xs) ys (inl h) = inl h
Any-append_left P (x ∷ xs) ys (inr h) = inr (Any-append_left P xs ys h)
Any-append_left P [] ys h = absurd h

replace_global-Has :
    (interface : Option Text) (name : Text) (names : List Text)
    → same name (codes "global") ≡ false
    → Has name names
    → Has name (replace_global interface names)
unfolding replace_global
replace_global-Has interface name (x ∷ xs) h (inl e) = rw (e, h) (inl refl)
replace_global-Has interface name (x ∷ xs) h (inr m) =
    Any-append_right _ _ _ (replace_global-Has interface name xs h m)
replace_global-Has interface name [] h m = absurd m

lookup-Any :
    (k : Text) (m : GoMap Ptp4lConfSection) (v : Ptp4lConfSection)
    → lookup k m ≡ some v
    → Any (λ kv. (kv.0 ≡ k) × (kv.1 ≡ v)) m
unfolding lookup
lookup-Any k [] v h = cc
lookup-Any k ((j, w) ∷ m) v h = elim (Bool-cases (same j k)) [
  | inl e ↦ inl ((same_iff j k).0 e, some-injective w v (rw e at h))
  | inr e ↦ inr (lookup-Any k m v (rw e at h))
]

-- A section with the digit of a role gives its interface to a clock in that role.
pub get_profile_interfaces-Has :
    (r : MapRange) (p : PtpProfile) (ps : List PtpProfile) (mode : PtpRole) (index : Text)
    (section : Ptp4lConfSection) {m : Sections} {e : Option ConfError}
    → populate_ptp4l_conf p.ptp4l_conf ≡ ret (m, e)
    → lookup index m ≡ some section
    → has_role mode section ≡ true
    → same (bare_name (bare_name index)) (codes "global") ≡ false
    → (l : List Text) × (get_profile_interfaces r (p ∷ ps) mode ≡ ret l)
      × Has (bare_name (bare_name index)) l
unfolding get_profile_interfaces get_section_interfaces
get_profile_interfaces-Has r p ps mode index section {m} read found role plain =
    let entry =
      Any-map _ _ m (λ kv h. (h.0, ap (has_role mode) h.1 ∙ role))
        (lookup-Any index m section found) in
    let met = Any-perm _ (Permᴰ.symm (r.range_perm Ptp4lConfSection m)) entry in
    let selected = select_interfaces-Has mode (r.range Ptp4lConfSection m) index met in
    rw read (_, refl, Any-append_left _ _ _ (replace_global-Has p.interface _ _ plain selected))

-- What one entry of the map adds.
selected : PtpRole → Text × Ptp4lConfSection → List Text
selected mode (index, section) =
    if has_role mode section then bare_name (bare_name index) ∷ [] else []

select_interfaces-cons :
    (mode : PtpRole) (kv : Text × Ptp4lConfSection) (rest : GoMap Ptp4lConfSection)
    → select_interfaces mode (kv ∷ rest) ≡ selected mode kv ++ select_interfaces mode rest
unfolding select_interfaces selected
select_interfaces-cons mode (index, section) rest = ground arith

-- What one name adds.
replaced : Option Text → Text → List Text
replaced interface name = if same name (codes "global") then to_list interface else name ∷ []

replace_global-cons :
    (interface : Option Text) (name : Text) (rest : List Text)
    → replace_global interface (name ∷ rest)
      ≡ replaced interface name ++ replace_global interface rest
unfolding replace_global replaced
replace_global-cons interface name rest = refl

-- Whether the fallback applies is seen from any order of the names.
fallback-perm :
    (mode : PtpRole) (interface : Option Text) {xs ys : List Text}
    → Permᴰ.Permᴰ xs ys
    → fallback mode interface xs ≡ fallback mode interface ys
unfolding fallback
fallback-perm slave interface Permᴰ.nil = refl
fallback-perm slave interface (Permᴰ.cons e p) = refl
fallback-perm slave interface (Permᴰ.swap e f) = refl
fallback-perm slave interface (Permᴰ.trans p q) =
    fallback-perm slave interface p ∙ fallback-perm slave interface q
fallback-perm master interface p = refl

module _ (r r' : MapRange) where
  get_section_interfaces-perm :
      (m : Sections) (mode : PtpRole)
      → Permᴰ.Permᴰ (get_section_interfaces r m mode) (get_section_interfaces r' m mode)
  unfolding get_section_interfaces
  get_section_interfaces-perm m mode =
      flat-perm (selected mode) (select_interfaces mode) (select_interfaces-cons mode)
        (Permᴰ.trans (r.range_perm _ m) (Permᴰ.symm (r'.range_perm _ m)))

  get_profile_interfaces-perm :
      (ps : List PtpProfile) (mode : PtpRole)
      → (l : List Text) × (l' : List Text) × (get_profile_interfaces r ps mode ≡ ret l)
        × (get_profile_interfaces r' ps mode ≡ ret l')
        × Permᴰ.Permᴰ l l'
  unfolding get_profile_interfaces
  get_profile_interfaces-perm [] mode = ([], [], refl, refl, Permᴰ.nil)
  get_profile_interfaces-perm (p ∷ ps) mode =
      let (m, e) = populate_returns p.ptp4l_conf in
      let moved = get_section_interfaces-perm m mode in
      let names =
        flat-perm (replaced p.interface) (replace_global p.interface)
          (replace_global-cons p.interface) moved in
      rw e
        (_, _, refl, refl, rw (fallback-perm mode p.interface moved) (Permᴰ.append_right _ names))

-- `GetInterfaces` returns without a panic, and two runs, which may meet the sections in different
-- orders, return the same names as often, in an order that may differ.
pub get_interfaces-perm :
    (r r' : MapRange) (config : PtpConfig) (mode : PtpRole)
    → (l : List Text) × (l' : List Text) × (get_interfaces r config mode ≡ ret l)
      × (get_interfaces r' config mode ≡ ret l')
      × Permᴰ.Permᴰ l l'
unfolding get_interfaces
get_interfaces-perm r r' config mode = get_profile_interfaces-perm r r' config.spec.profile mode
