-- ===== src/Base/GoMap.antt =====
-- Go maps with string keys, as association lists in the order in which a `range` meets the keys.
pub mod Order
use Prim.Native.Nat.{suc}
use mathlib.Core.Path.{◌≡◌, refl, sym, ap}
use mathlib.Core.Logic.{◌⊎◌, inl, inr}
use mathlib.Core.Option.{Option, none, some}
use mathlib.Core.List.{List, [], ◌∷◌, reverse}
use mathlib.Core.List.Permᴰ
use mathlib.Core.List.Permᴰ.{Permᴰ}
use native.Mathlib.Omega.{arith}
use ptp_operator_upstream.Base.Tests.{if◌then◌else◌, Bool-cases}
use ptp_operator_upstream.Base.Lists.{length}
use ptp_operator_upstream.Base.Distinct.{Has, Distinct}
use ptp_operator_upstream.Base.Text.{Text, same, same_iff, same_refl}

abbrev pub GoMap {ℓ} : Type ℓ → Type ℓ
GoMap V = List (Text × V)

module _ {ℓ} {V : Type ℓ} where
  -- `v, ok := m[k]`.
  unfoldable pub lookup : Text → GoMap V → Option V
  lookup k [] = none
  lookup k ((j, v) ∷ m) = if same j k then some v else lookup k m

  -- `m[k] = v`.
  unfoldable pub put : Text → V → GoMap V → GoMap V
  put k v [] = (k, v) ∷ []
  put k v ((j, w) ∷ m) = if same j k then (j, v) ∷ m else (j, w) ∷ put k v m

  pub lookup-put :
      (k j : Text) (v : V) (m : GoMap V)
      → lookup j (put k v m) ≡ (if same k j then some v else lookup j m)
  unfolding lookup put
  lookup-put k j v [] = refl
  lookup-put k j v ((i, w) ∷ m) =
      ground (arith, same_iff k j, same_iff i k, same_iff i j, lookup-put k j v m)

  pub lookup-put_self : (k : Text) (v : V) (m : GoMap V) → lookup k (put k v m) ≡ some v
  lookup-put_self k v m = rw (lookup-put, same_refl)

  -- The keys in the order of the map.
  abbrev pub keys : GoMap V → List Text
  keys [] = []
  keys ((k, _) ∷ m) = k ∷ keys m

module _ {ℓ} {V : Type ℓ} where
  pub keys-perm : {m n : GoMap V} → Permᴰ m n → Permᴰ (keys m) (keys n)
  keys-perm Permᴰ.nil = Permᴰ.nil
  keys-perm (Permᴰ.cons e p) = Permᴰ.cons (ap (λ kv. kv.0) e) (keys-perm p)
  keys-perm (Permᴰ.swap e f) = Permᴰ.swap (ap (λ kv. kv.0) e) (ap (λ kv. kv.0) f)
  keys-perm (Permᴰ.trans p q) = Permᴰ.trans (keys-perm p) (keys-perm q)

module _ {ℓ} {V : Type ℓ} where
  pub length-keys : (m : GoMap V) → length (keys m) ≡ length m
  length-keys [] = refl
  length-keys ((k, v) ∷ m) = ap suc (length-keys m)

  pub Has-put :
      (k j : Text) (v : V) (m : GoMap V) → Has j (keys (put k v m)) → (k ≡ j) ⊎ Has j (keys m)
  unfolding put
  Has-put k j v [] (inl e) = inl e
  Has-put k j v [] (inr h) = inr h
  Has-put k j v ((i, w) ∷ m) h = elim (Bool-cases (same i k)) [
    | inl e ↦ inr (rw e at h)
    | inr e ↦
        let later : (i ≡ j) ⊎ Has j (keys (put k v m)) = rw e at h in
        elim later [
          | inl f ↦ inr (inl f)
          | inr f ↦ elim (Has-put k j v m f) [ inl g ↦ inl g | inr g ↦ inr (inr g) ]
        ]
  ]

  pub put-Distinct :
      (k : Text) (v : V) (m : GoMap V) → Distinct (keys m) → Distinct (keys (put k v m))
  unfolding put
  put-Distinct k v [] d = ((λ h. h), tt)
  put-Distinct k v ((i, w) ∷ m) d = elim (Bool-cases (same i k)) [
    | inl e ↦ rw e d
    | inr e ↦ rw e (
      (λ h. elim (Has-put k i v m h) [ inl f ↦ cc (e, (same_iff i k).1 (sym f)) | inr f ↦ d.0 f ]),
      put-Distinct k v m d.1,
    )
  ]

-- The runtime's choice of the order in which a `range` over a map meets its entries.
pub record MapRange : Type 1 where
  pub range : (V : Type 0) → GoMap V → GoMap V
  pub range_perm : (V : Type 0) (m : GoMap V) → Permᴰ (range V m) m

-- The order in which the keys were inserted.
abbrev pub insertion_order : MapRange
insertion_order = record { range = λ V m. m; range_perm = λ V m. Permᴰ.refl m }

-- The opposite order.
abbrev pub reverse_order : MapRange
reverse_order = record { range = λ V m. reverse m; range_perm = λ V m. Permᴰ.reverse m }
