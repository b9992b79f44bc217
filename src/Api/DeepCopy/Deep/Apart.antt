-- ===== src/Api/DeepCopy/Deep/Apart.antt =====
-- What a deep copy means for later writes to the memory.
use ptp_operator_upstream.Base.{ℕ, some, ◌≡◌, refl, arith, ltb, if◌then◌else◌}
use ptp_operator_upstream.Api.DeepCopy.Memory.{Cells, Heap, M, pure, ◌>>=◌}
use ptp_operator_upstream.Api.DeepCopy.Memory.Rules.{
  Extends, from, IsHeap, Returns, Rel, IsDeepCopy, bind_some,
}
use ptp_operator_upstream.Api.DeepCopy.Types.{Pointer}
use ptp_operator_upstream.Api.DeepCopy.Copies.{RuntimeObject, as_object}

-- The cells of one memory below `n`, and those of another one from `n` on.
abbrev pub overlay : {C : Type 0} → ℕ → Cells C → Cells C → Cells C
overlay n c d p = if ltb p n then c p else d p

-- The copy `q` in the memory `h'` of what `p` leads to in the memory `h`: the memory stays well
-- formed, no old cell has changed, and the copy has the content of the original. It still has it when
-- the old cells are replaced by those of any `c`, and the original when the new cells are.
abbrev IsApart : {C : Type 0} → Rel C Pointer → Heap C → Pointer → Heap C → Pointer → Type 0
IsApart R h p h' q =
    IsHeap h'
    × Extends h.cell h'.cell
    × R h.cell p h'.cell q
    × ((c : Cells _) → R h.cell p (overlay h.next c h'.cell) q)
    × ((c : Cells _) → R h.cell p (overlay h.next h'.cell c) p)

-- The routine returns such a copy, as an object.
abbrev pub IsCopiedApart :
    {C : Type 0} → Rel C Pointer → (Pointer → M C RuntimeObject) → Heap C → Pointer → Type 0
IsCopiedApart {C} R copy h p =
    (q : Pointer) × (h' : Heap C) × (copy p h ≡ some (as_object q, h')) × IsApart R h p h' q

module _ {C : Type 0} where
  from-Extends : (n : ℕ) (c d : Cells C) → Extends (from n d) (overlay n c d)
  from-Extends n c d p x e = ground (arith, e)

  from-Extends_all : (n : ℕ) (c : Cells C) → Extends (from n c) c
  from-Extends_all n c p x e = ground (arith, e)

  below-Extends :
      (h h' : Heap C) (c : Cells C)
      → IsHeap h
      → Extends h.cell h'.cell
      → Extends h.cell (overlay h.next h'.cell c)
  below-Extends h h' c empty grows p x e =
      let g = grows p x e in let n = empty p in ground (arith, e, g, n)

  pub object-IsCopiedApart :
      (R : Rel C Pointer) (copy : Pointer → M C Pointer)
      → IsDeepCopy R copy
      → (h : Heap C) (p : Pointer) → IsHeap h
      → R h.cell p h.cell p
      → IsCopiedApart R (λ p. copy p >>= λ q. pure (as_object q)) h p
  unfolding Returns
  object-IsCopiedApart R copy deep h p empty intact =
      let (q, h', e, g, r) = deep.1 h.cell h.next h p (empty, (λ x y e. e), omega arith) intact in
      (
        q,
        h',
        bind_some (copy p) (λ q. pure (as_object q)) h h' q _ e refl,
        (
          g.0,
          g.1,
          deep.0 h.cell (from h.next h'.cell) h'.cell p q (from-Extends_all h.next h'.cell) r,
          (λ c.
              deep.0 h.cell (from h.next h'.cell) (overlay h.next c h'.cell) p q
                (from-Extends h.next c h'.cell) r),
          (λ c.
              deep.0 h.cell h.cell (overlay h.next h'.cell c) p p (below-Extends h h' c empty g.1)
                intact),
        ),
      )
