-- ===== src/Api/DeepCopy/Memory/Rules.antt =====
-- What it means that a copy is deep, and the rules that compose deep copies.
use ptp_operator_upstream.Base.{ℕ, ◌≤◌, Option, none, some, ◌≡◌, refl, arith, ltb, if◌then◌else◌}
use ptp_operator_upstream.Api.DeepCopy.Memory.{Cells, Heap, M, pure, ◌>>=◌}

-- Every cell of the first memory is in the second.
abbrev pub Extends : {C : Type 0} → Cells C → Cells C → Type 0
Extends b c = (p : ℕ) → (x : _) → b p ≡ some x → c p ≡ some x

-- The cells from the address `n` on.
abbrev pub from : {C : Type 0} → ℕ → Cells C → Cells C
from n c p = if ltb p n then none else c p

abbrev pub IsHeap : {C : Type 0} → Heap C → Type 0
IsHeap h = (p : ℕ) → h.next ≤ p → h.cell p ≡ none

-- A relation of two values, each of them in a memory of its own.
abbrev pub Rel : Type 0 → Type 0 → Type 1
Rel C A = Cells C → A → Cells C → A → Type 0

-- Where a copy starts: a heap with the cells of `b`, in which the addresses from `n` on are new.
abbrev pub IsReady : {C : Type 0} → Cells C → ℕ → Heap C → Type 0
IsReady b n h = IsHeap h × Extends b h.cell × (n ≤ h.next)

abbrev pub Grows : {C : Type 0} → Heap C → Heap C → Type 0
Grows h h' = IsHeap h' × Extends h.cell h'.cell × (h.next ≤ h'.next)

-- The routine returns, keeps every cell of `h`, and its result has the property in the cells from
-- `n` on.
unfoldable pub Returns : {C A : Type 0} → ℕ → Heap C → M C A → (Cells C → A → Type 0) → Type 0
Returns {C} {A} n h m Q =
    (a : A) × (h' : Heap C) × (m h ≡ some (a, h')) × Grows h h' × Q (from n h'.cell) a

module _ {C : Type 0} where
  abbrev pub IsStable : {A : Type 0} → Rel C A → Type 0
  IsStable {A} R = (b c d : Cells C) (a a' : A) → Extends c d → R b a c a' → R b a d a'

  -- Whatever is intact in the memory `b` is copied into new cells.
  abbrev pub IsCopy : {A : Type 0} → Rel C A → (A → M C A) → Type 0
  IsCopy {A} R copy =
      (b : Cells C) (n : ℕ) (h : Heap C) (a : A)
      → IsReady b n h
      → R b a b a
      → Returns n h (copy a) (R b a)

  abbrev pub IsDeepCopy : {A : Type 0} → Rel C A → (A → M C A) → Type 0
  IsDeepCopy R copy = IsStable R × IsCopy R copy

  Extends-refl : (b : Cells C) → Extends b b
  Extends-refl b p x h = h

  Extends-from : (n : ℕ) (b c : Cells C) → Extends b c → Extends (from n b) (from n c)
  Extends-from n b c e p x h = ground (arith, e p x)

  Grows-IsReady :
      (b : Cells C) (n : ℕ) (h h' : Heap C) → IsReady b n h → Grows h h' → IsReady b n h'
  Grows-IsReady b n h h' r g = (g.0, (λ p x e. g.1 p x (r.1 p x e)), omega (arith, r.2, g.2))

  Grows-trans : (h h' h'' : Heap C) → Grows h h' → Grows h' h'' → Grows h h''
  Grows-trans h h' h'' g k = (k.0, (λ p x e. k.1 p x (g.1 p x e)), omega (arith, g.2, k.2))

  -- The end of a copy.
  pub returned :
      {A : Type 0} (b : Cells C) (n : ℕ) (h : Heap C) (a : A)
      → IsReady b n h
      → Returns n h (pure a) (λ c a'. a' ≡ a)
  unfolding Returns
  returned b n h a r = (a, h, refl, (r.0, Extends-refl h.cell, omega arith), refl)

  pub bind_some :
      {A B : Type 0} (m : M C A) (f : A → M C B) (h h' : Heap C) (a : A) (r : Option (B × Heap C))
      → m h ≡ some (a, h')
      → f a h' ≡ r
      → (m >>= f) h ≡ r
  bind_some m f h h' a r e e' = rw (e, ◌>>=◌) e'

  -- A routine, and then the rest, which keeps what the routine has made.
  pub bind :
      {A B : Type 0} {P : Cells C → A → Type 0} (m : M C A) (f : A → M C B)
      (Q : A → Cells C → B → Type 0)
      → ((c d : Cells C) (a : A) → Extends c d → P c a → P d a)
      → (b : Cells C) (n : ℕ) (h : Heap C) → IsReady b n h
      → Returns n h m P
      → ((a : A) (h' : Heap C) → IsReady b n h' → Returns n h' (f a) (Q a))
      → Returns n h (m >>= f) (λ c s. (a : A) × P c a × Q a c s)
  unfolding Returns
  bind m f Q stable b n h r (a, h', e, g, q) rest =
      let (s, h'', e', g', q') = rest a h' (Grows-IsReady b n h h' r g) in
      (
        s,
        h'',
        bind_some m f h h' a _ e e',
        Grows-trans h h' h'' g g',
        (
          a,
          stable (from n h'.cell) (from n h''.cell) a (Extends-from n h'.cell h''.cell g'.1) q,
          q',
        ),
      )

  -- A part is copied, and then the rest.
  pub field :
      {A B : Type 0} {R : Rel C A} (copy : A → M C A) (f : A → M C B) (Q : A → Cells C → B → Type 0)
      → IsDeepCopy R copy
      → (b : Cells C) (n : ℕ) (h : Heap C) (a : A) → IsReady b n h
      → R b a b a
      → ((a' : A) (h' : Heap C) → IsReady b n h' → Returns n h' (f a') (Q a'))
      → Returns n h (copy a >>= f) (λ c s. (a' : A) × R b a c a' × Q a' c s)
  field copy f Q deep b n h a r v rest =
      bind (copy a) f Q (λ c d a' e k. deep.0 b c d a a' e k) b n h r (deep.1 b n h a r v) rest

  -- A property that follows from another one, of the result.
  pub Returns-map :
      {B : Type 0} (n : ℕ) (h : Heap C) (m : M C B) (Q Q' : Cells C → B → Type 0)
      → Returns n h m Q
      → ((c : Cells C) (s : B) → Q c s → Q' c s)
      → Returns n h m Q'
  unfolding Returns
  Returns-map n h m Q Q' (s, h', e, g, q) f = (s, h', e, g, f (from n h'.cell) s q)
