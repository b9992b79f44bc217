-- ===== src/Base/Distinct.antt =====
-- Membership without truncation, lists without repetition, and counting by inclusion.
use Prim.Native.Nat.{suc, ◌≤◌}
use mathlib.Core.Path.{◌≡◌, refl, sym, ap, ◌∙◌, subst}
use mathlib.Core.Logic.{◌⊎◌, inl, inr}
use mathlib.Core.List.{List, [], ◌∷◌}
use native.Mathlib.Omega.{arith}
use ptp_operator_upstream.Base.Lists.{length, Any}

module _ {ℓ} {A : Type ℓ} where
  -- The list without the occurrence that `h` points to.
  remove : (P : A → Type 0) (l : List A) → Any P l → List A
  remove P (y ∷ l) (inl e) = l
  remove P (y ∷ l) (inr h) = y ∷ remove P l h
  remove P [] h = []

  length-remove :
      (P : A → Type 0) (l : List A) (h : Any P l) → suc (length (remove P l h)) ≡ length l
  unfolding remove
  length-remove P (y ∷ l) (inl e) = refl
  length-remove P (y ∷ l) (inr h) = ap suc (length-remove P l h)
  length-remove P [] h = absurd h

  -- An element that is not the one removed is still there.
  Any-remove :
      (P Q : A → Type 0) (l : List A) (h : Any P l)
      → Any Q l
      → ((y : A) → P y → Q y → ⊥)
      → Any Q (remove P l h)
  unfolding remove
  Any-remove P Q (y ∷ l) (inl e) (inl q) d = absurd (d y e q)
  Any-remove P Q (y ∷ l) (inl e) (inr q) d = q
  Any-remove P Q (y ∷ l) (inr h) (inl q) d = inl q
  Any-remove P Q (y ∷ l) (inr h) (inr q) d = inr (Any-remove P Q l h q d)
  Any-remove P Q [] h q d = q

  Any-of-remove :
      (P Q : A → Type 0) (l : List A) (h : Any P l)
      → Any Q l
      → ((y : A) × P y × Q y) ⊎ Any Q (remove P l h)
  unfolding remove
  Any-of-remove P Q (y ∷ l) (inl e) (inl q) = inl (y, e, q)
  Any-of-remove P Q (y ∷ l) (inl e) (inr q) = inr q
  Any-of-remove P Q (y ∷ l) (inr h) (inl q) = inr (inl q)
  Any-of-remove P Q (y ∷ l) (inr h) (inr q) = elim (Any-of-remove P Q l h q) [
    | inl x ↦ inl x
    | inr x ↦ inr (inr x)
  ]
  Any-of-remove P Q [] h q = absurd h

module _ {A : Type 0} where
  abbrev pub Has : A → List A → Type 0
  Has x l = Any (λ y. y ≡ x) l

  abbrev pub Distinct : List A → Type 0
  Distinct [] = Unit
  Distinct (x ∷ l) = (¬ Has x l) × Distinct l

  -- Every element of the first list is in the second.
  abbrev pub Within : List A → List A → Type 0
  Within l k = (x : A) → Has x l → Has x k

  Within-rest :
      (x : A) (l k : List A) (h : Has x k)
      → ¬ Has x l
      → Within (x ∷ l) k
      → Within l (remove (λ y. y ≡ x) k h)
  Within-rest x l k h new w z m =
      Any-remove _ _ k h (w z (inr m)) (λ y e f. new (subst (λ t. Has t l) (sym f ∙ e) m))

  pub length-Within : (l k : List A) → Distinct l → Within l k → length l ≤ length k
  length-Within [] k d w = omega arith
  length-Within (x ∷ l) k d w =
      let h = w x (inl refl) in
      omega (
        arith,
        length-remove (λ y. y ≡ x) k h,
        length-Within l (remove (λ y. y ≡ x) k h) d.1 (Within-rest x l k h d.0 w),
      )

  -- A list without repetition that lies in another, and is as long, has all its elements.
  pub Within-back : (l k : List A) → Distinct l → Within l k → length k ≤ length l → Within k l
  Within-back [] [] d w le z m = m
  Within-back [] (y ∷ k) d w le z m = absurd (omega arith)
  Within-back (x ∷ l) k d w le z m =
      let h = w x (inl refl) in
      elim (Any-of-remove (λ y. y ≡ x) (λ y. y ≡ z) k h m) [
        | inl (y, e, f) ↦ inl (sym e ∙ f)
        | inr n ↦ inr (
            Within-back l (remove (λ y. y ≡ x) k h) d.1 (Within-rest x l k h d.0 w)
              (omega (arith, length-remove (λ y. y ≡ x) k h)) z n)
      ]
