-- ===== src/Api/DeepCopy/Memory/Pointers.antt =====
-- The copy of a pointer is deep if that of what it points to is.
use ptp_operator_upstream.Base.{
  ℕ, suc, ◌≤◌, Option, none, some, ◌≡◌, refl, sym, subst, ap, ◌∙◌, arith,
}
use ptp_operator_upstream.Api.DeepCopy.Memory.{
  Cells, Heap, M, pure, ◌>>=◌, ◌>>◌, write, alloc, store, Kind, load, copy_pointer,
}
use ptp_operator_upstream.Api.DeepCopy.Memory.Rules.{
  Extends, from, IsHeap, Rel, IsReady, Grows, Returns, IsStable, IsCopy, IsDeepCopy, bind_some,
}

module _ {C A : Type 0} (kind : Kind C A) where
  -- Two pointers are nil, or lead to values that are related.
  abbrev pub PointerRel : Rel C A → Rel C (Option ℕ)
  PointerRel R b none c none = Unit
  PointerRel R b none c (some q) = ⊥
  PointerRel R b (some p) c none = ⊥
  PointerRel R b (some p) c (some q) =
      (a : A) × (b p ≡ some (kind.to_cell a))
      × (a' : A) × (c q ≡ some (kind.to_cell a'))
      × R b a c a'

  PointerRel-IsStable : (R : Rel C A) → IsStable R → IsStable (PointerRel R)
  PointerRel-IsStable R stable b c d none none e h = tt
  PointerRel-IsStable R stable b c d none (some q) e h = h
  PointerRel-IsStable R stable b c d (some p) none e h = h
  PointerRel-IsStable R stable b c d (some p) (some q) e (a, l, a', l', h) =
      (a, l, a', e q (kind.to_cell a') l', stable b c d a a' e h)

  to_cell-injective :
      (a a' : A) → Path (Option C) (some (kind.to_cell a)) (some (kind.to_cell a')) → a ≡ a'
  to_cell-injective a a' e =
      let f : kind.to_cell a ≡ kind.to_cell a' = ground (arith, e) in
      let g : Path (Option A) (some a) (some a') =
        sym (kind.of-to a) ∙ (ap kind.of_cell f ∙ kind.of-to a') in
      ground (arith, g)

  load-some :
      (p : ℕ) (h : Heap C) (a : A) → h.cell p ≡ some (kind.to_cell a) → load kind p h ≡ some (a, h)
  unfolding load
  load-some p h a e = rw (load, e, kind.of-to a)

  -- A heap with a new cell.
  abbrev grown : Heap C → C → Heap C
  grown h x = record { next = suc h.next; cell = write h.cell h.next x }

  grown-IsReady :
      (b : Cells C) (n : ℕ) (h : Heap C) (x : C)
      → IsReady b n h
      → IsReady b (suc h.next) (grown h x)
  grown-IsReady b n h x r = (
    (λ p l. let e = r.0 p (omega arith) in ground (arith, e)),
    (λ p y e. let f = r.1 p y e in let g = r.0 h.next (omega arith) in ground (arith, f, g)),
    omega arith,
  )

  store-some :
      (p : ℕ) (x y : C) (h : Heap C)
      → h.cell p ≡ some y
      → store p x h ≡ some (tt, record h { cell = write h.cell p x })
  unfolding store
  store-some p x y h e = rw (store, e)

  -- The new cell gets its final content; the cells that are new since then stay as they are.
  abbrev written : Heap C → ℕ → C → Heap C
  written h q x = record h { cell = write h.cell q x }

  written-Grows :
      (h : Heap C) (x y : C) (h' : Heap C)
      → IsHeap h
      → Grows (grown h x) h'
      → Grows h (written h' h.next y)
  written-Grows h x y h' empty g = (
    (λ p l. let e = g.0 p l in let m = g.2 in ground (arith, e)),
    (λ p z e. let f = empty h.next (omega arith) in let k = g.1 p z in ground (arith, e, f, k)),
    omega (arith, g.2),
  )

  from_written :
      (n q : ℕ) (c : Cells C) (x : C) → n ≤ q → Extends (from (suc q) c) (from n (write c q x))
  from_written n q c x l p z e = ground (arith, e)

  copy_pointer_returns :
      (start : A → A) (into : A → M C A) (R : Rel C A)
      → IsDeepCopy R into
      → (b : Cells C) (n : ℕ) (h : Heap C) (p : ℕ) (a : A) → IsReady b n h
      → b p ≡ some (kind.to_cell a)
      → R b a b a
      → Returns n h (copy_pointer kind start into (some p)) (PointerRel R b (some p))
  unfolding copy_pointer alloc Returns
  copy_pointer_returns start into R deep b n h p a r l v =
      let x = kind.to_cell (start a) in
      let (a', h', e, g, rel) = deep.1 b (suc h.next) (grown h x) a (grown-IsReady b n h x r) v in
      let y = kind.to_cell a' in
      let held = g.1 h.next x (ground arith) in
      let done : Unit {0} → M C (Option ℕ) = λ _. pure (some h.next) in
      let filled : A → M C (Option ℕ) = λ z. store h.next (kind.to_cell z) >> pure (some h.next) in
      let made : ℕ → M C (Option ℕ) =
        λ q. into a >>= λ z. store q (kind.to_cell z) >> pure (some q) in
      (
        some h.next,
        written h' h.next y,
        bind_some (load kind p) _ h h a _ (load-some p h a (r.1 p (kind.to_cell a) l)) (
            bind_some (alloc x) made h (grown h x) h.next _ refl (
              bind_some (into a) filled (grown h x) h' a' _ e (
                bind_some (store h.next y) done h' (written h' h.next y) tt _
                  (store-some h.next y x h' held) refl))),
        written-Grows h x y h' r.0 g,
        (
          a,
          l,
          a',
          ground (arith, r.2),
          deep.0 b (from (suc h.next) h'.cell) (from n (write h'.cell h.next y)) a a'
              (from_written n h.next h'.cell y r.2) rel,
        ),
      )

  -- `copy_pointer` copies deeply, if `into` does.
  pub copy_pointer-IsDeepCopy :
      (start : A → A) (into : A → M C A) (R : Rel C A)
      → IsDeepCopy R into
      → IsDeepCopy (PointerRel R) (copy_pointer kind start into)
  unfolding copy_pointer Returns
  copy_pointer-IsDeepCopy start into R deep = (PointerRel-IsStable R deep.0, copies)
    where
      copies : IsCopy (PointerRel R) (copy_pointer kind start into)
      copies b n h none r v = (none, h, refl, (r.0, (λ p x e. e), omega arith), tt)
      copies b n h (some p) r (a, l, a', l', v) =
          let same_value = to_cell-injective a a' (sym l ∙ l') in
          copy_pointer_returns start into R deep b n h p a r l
            (subst (λ z. R b a b z) (sym same_value) v)
