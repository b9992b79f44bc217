-- ===== src/Base/Lists.antt =====
-- Lists over the native numbers, and predicates on lists by recursion.
use Prim.Native.Nat.{ℕ, zero, suc, ◌+◌}
use mathlib.Core.Path.{◌≡◌, refl, ap, ◌∙◌, subst}
use mathlib.Core.Logic.{◌⊎◌, inl, inr}
use mathlib.Core.List.{List, [], ◌∷◌, ◌++◌, append_assoc}
use mathlib.Core.List.Permᴰ
use mathlib.Core.List.Permᴰ.{Permᴰ, nil, cons, swap, trans}
use native.Mathlib.Omega.{arith}

module _ {ℓ} {A : Type ℓ} where
  abbrev pub length : List A → ℕ
  length [] = 0
  length (x ∷ xs) = suc (length xs)

  abbrev pub take : ℕ → List A → List A
  take zero xs = []
  take (suc n) [] = []
  take (suc n) (x ∷ xs) = x ∷ take n xs

  abbrev pub drop : ℕ → List A → List A
  drop zero xs = xs
  drop (suc n) [] = []
  drop (suc n) (x ∷ xs) = drop n xs

  length-append : (xs ys : List A) → length (xs ++ ys) ≡ length xs + length ys
  length-append [] ys = omega arith
  length-append (x ∷ xs) ys = omega (arith, length-append xs ys)

module _ {ℓ} {A : Type ℓ} where
  -- Every element satisfies `P`.
  abbrev pub All : (A → Type 0) → List A → Type 0
  All P [] = Unit
  All P (x ∷ xs) = P x × All P xs

  -- Some element satisfies `P`.
  abbrev pub Any : (A → Type 0) → List A → Type 0
  Any P [] = ⊥
  Any P (x ∷ xs) = P x ⊎ Any P xs

module _ {ℓ} {A : Type ℓ} where
  pub All-perm : (P : A → Type 0) {xs ys : List A} → Permᴰ xs ys → All P xs → All P ys
  All-perm P nil h = tt
  All-perm P (cons e p) h = (subst P e h.0, All-perm P p h.1)
  All-perm P (swap e f) h = (subst P f h.1.0, (subst P e h.0, h.1.1))
  All-perm P (trans p q) h = All-perm P q (All-perm P p h)

  pub length-perm : {xs ys : List A} → Permᴰ xs ys → length xs ≡ length ys
  length-perm nil = refl
  length-perm (cons e p) = ap suc (length-perm p)
  length-perm (swap e f) = refl
  length-perm (trans p q) = length-perm p ∙ length-perm q

  pub All-map : (P Q : A → Type 0) (xs : List A) → ((x : A) → P x → Q x) → All P xs → All Q xs
  All-map P Q [] f h = tt
  All-map P Q (x ∷ xs) f h = (f x h.0, All-map P Q xs f h.1)

-- A function that appends what each element gives takes permutations to permutations.
module _ {ℓ κ} {A : Type ℓ} {B : Type κ} where
  pub flat-perm :
      (f : A → List B) (g : List A → List B)
      → ((x : A) (xs : List A) → g (x ∷ xs) ≡ f x ++ g xs)
      → {xs ys : List A} → Permᴰ xs ys
      → Permᴰ (g xs) (g ys)
  flat-perm f g law nil = Permᴰ.refl (g [])
  flat-perm f g law (cons {b} {l₁} e p) =
      rw (e, law b l₁, law) (Permᴰ.append_left (f b) (flat-perm f g law p))
  flat-perm f g law (swap {a'} {b'} {l} e f') =
      rw (e, f')
        (simp (law, ← append_assoc) (Permᴰ.append_right (g l) (Permᴰ.append_comm (f b') (f a'))))
  flat-perm f g law (trans p q) = Permᴰ.trans (flat-perm f g law p) (flat-perm f g law q)

module _ {ℓ} {A : Type ℓ} where
  pub Any-perm : (P : A → Type 0) {xs ys : List A} → Permᴰ xs ys → Any P xs → Any P ys
  Any-perm P (cons e p) (inl h) = inl (subst P e h)
  Any-perm P (cons e p) (inr h) = inr (Any-perm P p h)
  Any-perm P (swap e f) (inl h) = inr (inl (subst P e h))
  Any-perm P (swap e f) (inr (inl h)) = inl (subst P f h)
  Any-perm P (swap e f) (inr (inr h)) = inr (inr h)
  Any-perm P (trans p q) h = Any-perm P q (Any-perm P p h)
  Any-perm P nil h = h

  pub Any-map : (P Q : A → Type 0) (xs : List A) → ((x : A) → P x → Q x) → Any P xs → Any Q xs
  Any-map P Q (x ∷ xs) f (inl h) = inl (f x h)
  Any-map P Q (x ∷ xs) f (inr h) = inr (Any-map P Q xs f h)
  Any-map P Q [] f h = h

  -- What holds of every element holds of the one that satisfies `P`.
  pub Any-All :
      (P Q R : A → Type 0) (xs : List A)
      → ((x : A) → P x → Q x → R x)
      → Any P xs
      → All Q xs
      → Any R xs
  Any-All P Q R (x ∷ xs) f (inl h) a = inl (f x h a.0)
  Any-All P Q R (x ∷ xs) f (inr h) a = inr (Any-All P Q R xs f h a.1)
  Any-All P Q R [] f h a = h
