-- ===== src/Api/DeepCopy/Memory/Elements.antt =====
-- The copies of plain values, and of the elements of a slice.
use ptp_operator_upstream.Base.{Option, ℕ, List, [], ◌∷◌, ◌≡◌, refl, arith}
use ptp_operator_upstream.Api.DeepCopy.Memory.Pointers.{PointerRel, copy_pointer-IsDeepCopy}
use ptp_operator_upstream.Api.DeepCopy.Memory.{Kind, copy_slice, M, pure, copy_elements}
use ptp_operator_upstream.Api.DeepCopy.Memory.Rules.{
  Rel, Returns, IsStable, IsCopy, IsDeepCopy, returned, bind, field, Returns-map,
}

module _ {C A : Type 0} where
  -- A value without pointers.
  abbrev pub PlainRel : Rel C A
  PlainRel b a c a' = a' ≡ a

  pub pure-IsDeepCopy : IsDeepCopy PlainRel pure
  pure-IsDeepCopy = ((λ b c d a a' e h. h), (λ b n h a r v. returned b n h a r))

  -- As many elements, each of them related to its counterpart.
  abbrev pub ElementsRel : Rel C A → Rel C (List A)
  ElementsRel R b [] c [] = Unit
  ElementsRel R b [] c (y ∷ ys) = ⊥
  ElementsRel R b (x ∷ xs) c [] = ⊥
  ElementsRel R b (x ∷ xs) c (y ∷ ys) = R b x c y × ElementsRel R b xs c ys

  ElementsRel-IsStable : (R : Rel C A) → IsStable R → IsStable (ElementsRel R)
  ElementsRel-IsStable R stable b c d [] [] e h = tt
  ElementsRel-IsStable R stable b c d [] (y ∷ ys) e h = h
  ElementsRel-IsStable R stable b c d (x ∷ xs) [] e h = h
  ElementsRel-IsStable R stable b c d (x ∷ xs) (y ∷ ys) e h =
      (stable b c d x y e h.0, ElementsRel-IsStable R stable b c d xs ys e h.1)

module _ {C A : Type 0} (into : A → M C A) (R : Rel C A) (deep : IsDeepCopy R into) where
  elements-IsCopy : IsCopy (ElementsRel R) (copy_elements into)
  unfolding copy_elements Returns
  elements-IsCopy b n h [] r v = ([], h, refl, (r.0, (λ p x e. e), omega arith), tt)
  elements-IsCopy b n h (x ∷ xs) r v =
      Returns-map n h (copy_elements into (x ∷ xs))
        (λ c s.
          (x' : A) × R b x c x' × ((xs' : List A) × ElementsRel R b xs c xs' × (s ≡ x' ∷ xs')))
        (ElementsRel R b (x ∷ xs))
        (field into _ (λ x' c s. (xs' : List A) × ElementsRel R b xs c xs' × (s ≡ x' ∷ xs')) deep b
          n h x r v.0
          (λ x' h' r'.
            bind (copy_elements into xs) (λ xs'. pure (x' ∷ xs')) (λ xs' c s. s ≡ x' ∷ xs')
              (λ c d xs' e k. ElementsRel-IsStable R deep.0 b c d xs xs' e k) b n h' r'
              (elements-IsCopy b n h' xs r' v.1) (λ xs' h'' r''. returned b n h'' (x' ∷ xs') r'')))
        (λ c s q. rw q.2.2 (q.1, q.2.1))

  pub copy_elements-IsDeepCopy : IsDeepCopy (ElementsRel R) (copy_elements into)
  copy_elements-IsDeepCopy = (ElementsRel-IsStable R deep.0, elements-IsCopy)

module _ {C A : Type 0} (kind : Kind C (List A)) where
  abbrev pub SliceRel : Rel C A → Rel C (Option ℕ)
  SliceRel R = PointerRel kind (ElementsRel R)

  pub copy_slice-IsDeepCopy :
      {R : Rel C A} (into : A → M C A)
      → IsDeepCopy R into
      → IsDeepCopy (SliceRel R) (copy_slice kind into)
  unfolding copy_slice
  copy_slice-IsDeepCopy {R = R} into deep =
      copy_pointer-IsDeepCopy kind (λ xs. xs) (copy_elements into) (ElementsRel R)
        (copy_elements-IsDeepCopy into R deep)
