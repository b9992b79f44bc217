-- ===== src/Controllers/Recommend/Insertion.antt =====
-- Insertion sort by priority: one algorithm that `sort.Slice` could be.
use mathlib.Core.List.Permᴰ
use ptp_operator_upstream.Base.{
  true, false, Option, none, some, List, [], ◌∷◌, ◌≡◌, inl, inr, refl, All-perm, All-map,
  if◌then◌else◌, Bool-cases,
}
use ptp_operator_upstream.Base.Int.{ℤ, not_gt_trans, lt_ℤ_asymm}
use ptp_operator_upstream.Api.PtpConfig.{PtpRecommend}
use ptp_operator_upstream.Controllers.Recommend.{priority_less, less, IsSorted, SliceSort}

priority_less_asymm : (a b : Option ℤ) → priority_less a b ≡ true → priority_less b a ≡ false
unfolding priority_less
priority_less_asymm none b h = cc
priority_less_asymm (some a) none h = refl
priority_less_asymm (some a) (some b) h = lt_ℤ_asymm a b h

not_less_trans :
    (a b c : Option ℤ)
    → priority_less b a ≡ false
    → priority_less c b ≡ false
    → priority_less c a ≡ false
unfolding priority_less
not_less_trans (some a) (some b) (some c) h k = not_gt_trans a b c h k
not_less_trans a b none h k = refl
not_less_trans none none (some c) h k = k
not_less_trans none (some b) (some c) h k = cc
not_less_trans (some a) none (some c) h k = cc

unfoldable insert : PtpRecommend → List PtpRecommend → List PtpRecommend
insert x [] = x ∷ []
insert x (y ∷ ys) = if less y x then y ∷ insert x ys else x ∷ y ∷ ys

unfoldable pub insertion_sort : List PtpRecommend → List PtpRecommend
unfolding insert
insertion_sort [] = []
insertion_sort (x ∷ xs) = insert x (insertion_sort xs)

insert-perm : (x : PtpRecommend) (xs : List PtpRecommend) → Permᴰ.Permᴰ (x ∷ xs) (insert x xs)
unfolding insert
insert-perm x [] = Permᴰ.refl _
insert-perm x (y ∷ ys) = elim (Bool-cases (less y x)) [
  | inl e ↦ rw e (Permᴰ.trans (Permᴰ.swap refl refl) (Permᴰ.cons refl (insert-perm x ys)))
  | inr e ↦ rw e (Permᴰ.refl _)
]

pub insertion_sort-perm : (xs : List PtpRecommend) → Permᴰ.Permᴰ xs (insertion_sort xs)
unfolding insertion_sort
insertion_sort-perm [] = Permᴰ.nil
insertion_sort-perm (x ∷ xs) =
    Permᴰ.trans (Permᴰ.cons refl (insertion_sort-perm xs)) (insert-perm x (insertion_sort xs))

insert-IsSorted : (x : PtpRecommend) (xs : List PtpRecommend) → IsSorted xs → IsSorted (insert x xs)
unfolding insert
insert-IsSorted x [] s = (tt, tt)
insert-IsSorted x (y ∷ ys) s = elim (Bool-cases (less y x)) [
  | inl e ↦ rw e (
    All-perm _ (insert-perm x ys) (priority_less_asymm y.priority x.priority e, s.0),
    insert-IsSorted x ys s.1,
  )
  | inr e ↦
      rw e ((e, All-map _ _ ys (λ z h. not_less_trans x.priority y.priority z.priority e h) s.0), s)
]

pub insertion_sort-IsSorted : (xs : List PtpRecommend) → IsSorted (insertion_sort xs)
unfolding insertion_sort
insertion_sort-IsSorted [] = tt
insertion_sort-IsSorted (x ∷ xs) =
    insert-IsSorted x (insertion_sort xs) (insertion_sort-IsSorted xs)

abbrev pub by_insertion : SliceSort
by_insertion = record {
  sort = insertion_sort;
  sort_perm = insertion_sort-perm;
  sort_sorted = insertion_sort-IsSorted;
}
