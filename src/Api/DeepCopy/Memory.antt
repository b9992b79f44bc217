-- ===== src/Api/DeepCopy/Memory.antt =====
-- The memory that a deep copy works on: cells of a type `C` by their addresses. A pointer, a slice
-- and a map are nil or the address of a cell; the cell of a slice holds its elements.
pub mod Rules
pub mod Pointers
pub mod Elements
pub mod Entries
use ptp_operator_upstream.Base.{
  ℕ, suc, ◌≤◌, Option, none, some, List, [], ◌∷◌, ◌≡◌, ltb, ◌==◌, if◌then◌else◌,
}
use ptp_operator_upstream.Base.GoMap.{GoMap, put}

abbrev pub Cells : Type 0 → Type 0
Cells C = ℕ → Option C

-- The addresses from `next` on are free.
pub record Heap (C : Type 0) : Type 0 where
  pub next : ℕ
  pub cell : Cells C

-- `none` is a fault: an address without a cell, or with a cell of another type.
abbrev pub M : Type 0 → Type 0 → Type 0
M C A = Heap C → Option (A × Heap C)

abbrev pub pure : {C A : Type 0} → A → M C A
pure a h = some (a, h)

-- What follows a routine that has returned, or not.
abbrev resume : {C A B : Type 0} → (A → M C B) → Option (A × Heap C) → Option (B × Heap C)
resume f none = none
resume f (some (a, h)) = f a h

infixl 5 ◌>>=◌ ◌>>◌
abbrev pub ◌>>=◌ : {C A B : Type 0} → M C A → (A → M C B) → M C B
m >>= f = λ h. resume f (m h)

abbrev pub ◌>>◌ : {C B : Type 0} → M C (Unit {0}) → M C B → M C B
m >> k = m >>= λ _. k

abbrev pub write : {C : Type 0} → Cells C → ℕ → C → Cells C
write c p x q = if p == q then some x else c q

-- How values of a type `A` are kept in cells.
pub record Kind (C A : Type 0) : Type 0 where
  pub to_cell : A → C
  pub of_cell : C → Option A
  pub of-to : (a : A) → of_cell (to_cell a) ≡ some a

module _ {C : Type 0} where
  unfoldable pub alloc : C → M C ℕ
  alloc x h = some (h.next, record { next = suc h.next; cell = write h.cell h.next x })

  unfoldable pub store : ℕ → C → M C (Unit {0})
  store p x h = elim (h.cell p) [
    | none ↦ none
    | some old ↦ some (tt, record h { cell = write h.cell p x })
  ]

  module _ {A : Type 0} (kind : Kind C A) where
    unfoldable pub load : ℕ → M C A
    load p h = elim (h.cell p) [
      | none ↦ none
      | some x ↦ elim (kind.of_cell x) [ none ↦ none | some a ↦ some (a, h) ]
    ]

    -- `if in != nil { *out = new(T); **out = **in; … }`: the new cell starts as `start` of the old
    -- one, and `into` gives what it holds in the end.
    unfoldable pub copy_pointer : (A → A) → (A → M C A) → Option ℕ → M C (Option ℕ)
    unfolding load alloc store
    copy_pointer start into none = pure none
    copy_pointer start into (some p) = do
      a ← load p
      q ← alloc (kind.to_cell (start a))
      a' ← into a
      store q (kind.to_cell a')
      pure (some q)

  -- The elements of a slice, one after the other.
  unfoldable pub copy_elements : {A : Type 0} → (A → M C A) → List A → M C (List A)
  copy_elements into [] = pure []
  copy_elements into (x ∷ xs) = do x' ← into x; xs' ← copy_elements into xs; pure (x' ∷ xs')

  -- `for key, val := range in { out[key] = … }`, where the range meets the keys in the order of the list.
  unfoldable pub copy_entries : {A : Type 0} → (A → M C A) → GoMap A → GoMap A → M C (GoMap A)
  copy_entries into out [] = pure out
  copy_entries into out ((key, val) ∷ m) = do
    val' ← into val
    copy_entries into (put key val' out) m

-- A slice: the new cell first holds what the old one does.
unfoldable pub copy_slice :
    {C A : Type 0} → Kind C (List A) → (A → M C A) → Option ℕ → M C (Option ℕ)
unfolding copy_pointer copy_elements
copy_slice kind into = copy_pointer kind (λ xs. xs) (copy_elements into)
