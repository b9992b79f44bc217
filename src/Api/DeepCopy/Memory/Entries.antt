-- ===== src/Api/DeepCopy/Memory/Entries.antt =====
-- The copies of the entries of a map.
use ptp_operator_upstream.Base.{
  ℕ, [], ◌∷◌, ◌++◌, ◌≡◌, inl, inr, refl, sym, ap, ◌∙◌, arith, Bool-cases,
}
use mathlib.Core.List.{append-nil, append_assoc}
use ptp_operator_upstream.Base.Distinct.{Has, Distinct}
use ptp_operator_upstream.Base.Text.{Text, same, same_iff}
use ptp_operator_upstream.Base.GoMap.{GoMap, keys, put, Has-put}
use ptp_operator_upstream.Api.DeepCopy.Memory.{Cells, Heap, M, copy_entries}
use ptp_operator_upstream.Api.DeepCopy.Memory.Rules.{
  Rel, IsReady, Returns, IsStable, IsDeepCopy, field, Returns-map,
}

module _ {C A : Type 0} where
  abbrev EntriesRel : Rel C A → Rel C (GoMap A)
  EntriesRel R b [] c [] = Unit
  EntriesRel R b [] c (_ ∷ _) = ⊥
  EntriesRel R b (_ ∷ _) c [] = ⊥
  EntriesRel R b ((k, v) ∷ m) c ((k', v') ∷ m') = (k' ≡ k) × R b v c v' × EntriesRel R b m c m'

  -- The same keys, without repetition, with related values.
  abbrev pub MapRel : Rel C A → Rel C (GoMap A)
  MapRel R b m c m' = Distinct (keys m) × EntriesRel R b m c m'

  EntriesRel-IsStable : (R : Rel C A) → IsStable R → IsStable (EntriesRel R)
  EntriesRel-IsStable R stable b c d [] [] e h = tt
  EntriesRel-IsStable R stable b c d [] (_ ∷ _) e h = h
  EntriesRel-IsStable R stable b c d (_ ∷ _) [] e h = h
  EntriesRel-IsStable R stable b c d ((k, v) ∷ m) ((k', v') ∷ m') e h =
      (h.0, stable b c d v v' e h.1, EntriesRel-IsStable R stable b c d m m' e h.2)

put_new :
    {A : Type 0} (k : Text) (v : A) (m : GoMap A)
    → (Has k (keys m) → ⊥)
    → put k v m ≡ m ++ (k, v) ∷ []
unfolding put
put_new k v [] h = refl
put_new k v ((j, w) ∷ m) h = elim (Bool-cases (same j k)) [
  | inl e ↦ absurd (h (inl ((same_iff j k).0 e)))
  | inr e ↦ rw e (ap (λ r. (j, w) ∷ r) (put_new k v m (λ g. h (inr g))))
]

-- No key of the first map is in the second.
abbrev Apart : {A : Type 0} → GoMap A → GoMap A → Type 0
Apart m out = (k : Text) → Has k (keys m) → Has k (keys out) → ⊥

Apart-put :
    {A : Type 0} (k : Text) (v v' : A) (m out : GoMap A)
    → (Has k (keys m) → ⊥)
    → Apart ((k, v) ∷ m) out
    → Apart m (put k v' out)
Apart-put k v v' m out fresh apart j h g = elim (Has-put k j v' out g) [
  | inl e ↦ fresh (rw e h)
  | inr e ↦ apart j (inr h) e
]

module _ {C A : Type 0} (into : A → M C A) (R : Rel C A) (deep : IsDeepCopy R into) where
  -- The entries are added behind those that there are.
  entries_returns :
      (b : Cells C) (n : ℕ) (h : Heap C) (out m : GoMap A)
      → IsReady b n h
      → Distinct (keys m)
      → Apart m out
      → EntriesRel R b m b m
      → Returns n h
          (copy_entries into out m)
          (λ c s. (m' : GoMap A) × EntriesRel R b m c m' × (s ≡ out ++ m'))
  unfolding copy_entries Returns
  entries_returns b n h out [] r d apart v =
      (out, h, refl, (r.0, (λ p x e. e), omega arith), ([], tt, sym (append-nil out)))
  entries_returns b n h out ((k, x) ∷ m) r d apart v =
      Returns-map n h (copy_entries into out ((k, x) ∷ m))
        (λ c s.
          (x' : A) × R b x c x'
          × ((m' : GoMap A) × EntriesRel R b m c m' × (s ≡ put k x' out ++ m')))
        (λ c s. (m' : GoMap A) × EntriesRel R b ((k, x) ∷ m) c m' × (s ≡ out ++ m'))
        (field into _ (λ x' c s. (m' : GoMap A) × EntriesRel R b m c m' × (s ≡ put k x' out ++ m'))
          deep b n h x r v.1
          (λ x' h' r'.
            entries_returns b n h' (put k x' out) m r' d.1 (Apart-put k x x' m out d.0 apart) v.2))
        (λ c s (x', l, (m', l', e)). (
          (k, x') ∷ m',
          (refl, l, l'),
          e
              ∙ (ap (λ o. o ++ m') (put_new k x' out (λ g. apart k (inl refl) g))
                  ∙ append_assoc out ((k, x') ∷ []) m'),
        ))

  pub copy_entries-IsDeepCopy : IsDeepCopy (MapRel R) (copy_entries into [])
  copy_entries-IsDeepCopy = (
    (λ b c d m m' e h. (h.0, EntriesRel-IsStable R deep.0 b c d m m' e h.1)),
    (λ b n h m r v.
        Returns-map n h (copy_entries into [] m)
          (λ c s. (m' : GoMap A) × EntriesRel R b m c m' × (s ≡ m')) (MapRel R b m)
          (entries_returns b n h [] m r v.0 (λ k g f. f) v.1) (λ c s q. rw q.2 (v.0, q.1))),
  )
