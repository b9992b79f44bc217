-- ===== src/Base/GoMap/Order.antt =====
-- The order of the entries of a map has no influence on what is found in it.
use mathlib.Core.List.Permᴰ.{Permᴰ, nil, cons, swap, trans, symm}
use ptp_operator_upstream.Base.{
  List, [], ◌∷◌, ◌≡◌, inl, inr, refl, sym, ◌∙◌, subst, Any-perm, Bool-cases, none,
}
use ptp_operator_upstream.Base.Distinct.{Has, Distinct}
use ptp_operator_upstream.Base.Text.{Text, same, same_iff}
use ptp_operator_upstream.Base.GoMap.{GoMap, lookup, keys, keys-perm}

pub Distinct-perm : {xs ys : List Text} → Permᴰ xs ys → Distinct xs → Distinct ys
Distinct-perm nil d = tt
Distinct-perm (cons {a} {b} {l₁} e p) d =
    ((λ h. d.0 (subst (λ t. Has t l₁) (sym e) (Any-perm _ (symm p) h))), Distinct-perm p d.1)
Distinct-perm (swap {a} {b} {a'} {b'} {l} e f) d = (
  (λ h. elim h [
    | inl g ↦ d.0 (inl (f ∙ sym g ∙ sym e))
    | inr g ↦ d.1.0 (subst (λ t. Has t l) (sym f) g)
  ]),
  ((λ h. d.0 (inr (subst (λ t. Has t l) (sym e) h))), d.1.1),
)
Distinct-perm (trans p q) d = Distinct-perm q (Distinct-perm p d)

module _ {ℓ} {V : Type ℓ} where
  lookup_head :
      (k : Text) (x y : Text × V) (m n : GoMap V)
      → x ≡ y
      → lookup k m ≡ lookup k n
      → lookup k (x ∷ m) ≡ lookup k (y ∷ n)
  unfolding lookup
  lookup_head k x y m n e h = rw (e, h)

  lookup_swap :
      (k : Text) (x y : Text × V) (m : GoMap V)
      → (x.0 ≡ y.0 → ⊥)
      → lookup k (x ∷ y ∷ m) ≡ lookup k (y ∷ x ∷ m)
  unfolding lookup
  lookup_swap k (i, v) (j, w) m d = elim (Bool-cases (same i k)) [
    | inr e ↦ rw e
    | inl e ↦ elim (Bool-cases (same j k)) [
      | inl f ↦ absurd (d ((same_iff i k).0 e ∙ sym ((same_iff j k).0 f)))
      | inr f ↦ rw (e, f)
    ]
  ]

  pub lookup-perm :
      (k : Text) {m n : GoMap V} → Permᴰ m n → Distinct (keys m) → lookup k m ≡ lookup k n
  lookup-perm k nil d = refl
  lookup-perm k (cons {a} {b} {l₁} {l₂} e p) d = lookup_head k a b l₁ l₂ e (lookup-perm k p d.1)
  lookup-perm k (swap {a} {b} {a'} {b'} {l} e f) d =
      lookup_swap k a b l (λ g. d.0 (inl (sym g)))
      ∙ lookup_head k b a' (a ∷ l) (b' ∷ l) f (lookup_head k a b' l l e refl)
  lookup-perm k (trans p q) d = lookup-perm k p d ∙ lookup-perm k q (Distinct-perm (keys-perm p) d)

  pub lookup_absent : (k : Text) (m : GoMap V) → (Has k (keys m) → ⊥) → lookup k m ≡ none
  unfolding lookup
  lookup_absent k [] h = refl
  lookup_absent k ((j, v) ∷ m) h = elim (Bool-cases (same j k)) [
    | inl e ↦ absurd (h (inl ((same_iff j k).0 e)))
    | inr e ↦ rw e (lookup_absent k m (λ g. h (inr g)))
  ]
