-- ===== src/Controllers/Recommend/Sorted.antt =====
-- `sort.SliceStable` by name: a sorted permutation.
use mathlib.Core.List.Permᴰ
use ptp_operator_upstream.Base.{
  false, List, [], ◌∷◌, ◌≡◌, inl, inr, refl, All, All-perm, All-map, Bool-cases,
}
use ptp_operator_upstream.Base.Text.{before}
use ptp_operator_upstream.Base.Text.Order.{before_asymm, not_before_trans}
use ptp_operator_upstream.Api.PtpConfig.{PtpProfile}
use ptp_operator_upstream.Controllers.Recommend.{name_of, insert_by_name, sort_by_name}

-- No profile has a name in front of one before it.
abbrev pub IsSortedByName : List PtpProfile → Type 0
IsSortedByName [] = Unit
IsSortedByName (p ∷ ps) = All (λ q. before (name_of q) (name_of p) ≡ false) ps × IsSortedByName ps

insert_by_name-perm :
    (p : PtpProfile) (ps : List PtpProfile) → Permᴰ.Permᴰ (insert_by_name p ps) (p ∷ ps)
unfolding insert_by_name
insert_by_name-perm p [] = Permᴰ.refl _
insert_by_name-perm p (q ∷ qs) = elim (Bool-cases (before (name_of q) (name_of p))) [
  | inl e ↦ rw e (Permᴰ.trans (Permᴰ.cons refl (insert_by_name-perm p qs)) (Permᴰ.swap refl refl))
  | inr e ↦ rw e (Permᴰ.refl _)
]

pub sort_by_name-perm : (ps : List PtpProfile) → Permᴰ.Permᴰ (sort_by_name ps) ps
unfolding sort_by_name
sort_by_name-perm [] = Permᴰ.nil
sort_by_name-perm (p ∷ ps) =
    Permᴰ.trans (insert_by_name-perm p (sort_by_name ps)) (Permᴰ.cons refl (sort_by_name-perm ps))

insert_by_name-IsSortedByName :
    (p : PtpProfile) (ps : List PtpProfile)
    → IsSortedByName ps
    → IsSortedByName (insert_by_name p ps)
unfolding insert_by_name
insert_by_name-IsSortedByName p [] s = (tt, tt)
insert_by_name-IsSortedByName p (q ∷ qs) s = elim (Bool-cases (before (name_of q) (name_of p))) [
  | inl e ↦ rw e (
    All-perm _ (Permᴰ.symm (insert_by_name-perm p qs))
        (before_asymm (name_of q) (name_of p) e, s.0),
    insert_by_name-IsSortedByName p qs s.1,
  )
  | inr e ↦
      rw e (
        (e, All-map _ _ qs (λ y h. not_before_trans (name_of p) (name_of q) (name_of y) e h) s.0),
        s,
      )
]

pub sort_by_name-IsSortedByName : (ps : List PtpProfile) → IsSortedByName (sort_by_name ps)
unfolding sort_by_name
sort_by_name-IsSortedByName [] = tt
sort_by_name-IsSortedByName (p ∷ ps) =
    insert_by_name-IsSortedByName p (sort_by_name ps) (sort_by_name-IsSortedByName ps)
