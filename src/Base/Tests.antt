-- ===== src/Base/Tests.antt =====
-- Boolean tests on the native numbers, the conditional, and results that may be a panic.
use Prim.Native.Nat.{ℕ, compare, Ordering}
use mathlib.Core.Path.{◌≡◌, refl, sym, ap}
use mathlib.Core.Logic.{◌↔◌, ◌⊎◌, inl, inr}
use mathlib.Core.Bool.{Bool, true, false}
use mathlib.Core.Option.{Option, none, some, some-injective}
use native.Mathlib.Omega.{arith}

abbrev pub ltb : ℕ → ℕ → Bool
ltb a b = elim (compare a b) [ Ordering.lt ↦ true | _ ↦ false ]

abbrev pub leb : ℕ → ℕ → Bool
leb a b = elim (compare a b) [ Ordering.gt ↦ false | _ ↦ true ]

infix 50 ◌==◌
abbrev pub ◌==◌ : ℕ → ℕ → Bool
a == b = elim (compare a b) [ Ordering.eq ↦ true | _ ↦ false ]

infix 1 if◌then◌else◌
abbrev pub if◌then◌else◌ {ℓ} : {A : Type ℓ} → Bool → A → A → A
if true then x else y = x
if false then x else y = y

pub ==_iff : (a b : ℕ) → ((a == b) ≡ true) ↔ (a ≡ b)
==_iff a b = ground arith

-- To split on a computed value and keep the equation.
pub Bool-cases : (b : Bool) → (b ≡ true) ⊎ (b ≡ false)
Bool-cases true = inl refl
Bool-cases false = inr refl

pub Option-cases {ℓ} : {A : Type ℓ} (o : Option A) → (o ≡ none) ⊎ ((a : A) × (o ≡ some a))
Option-cases none = inl refl
Option-cases (some a) = inr (a, refl)

-- What a Go call does: it returns, or it panics (a nil pointer or a nil map).
pub data Go {ℓ} (A : Type ℓ) : Type ℓ where
  ret : A → Go A
  panic : Go A

infixl 5 ◌>>=◌
abbrev pub ◌>>=◌ {ℓ κ} : {A : Type ℓ} {B : Type κ} → Go A → (A → Go B) → Go B
ret a >>= f = f a
panic >>= f = panic

pub ret-injective {ℓ} : {A : Type ℓ} (a b : A) → ret a ≡ ret b → a ≡ b
ret-injective a b e = cc

pub panic≢ret {ℓ} : {A : Type ℓ} (a : A) → panic ≡ ret a → ⊥
panic≢ret a e = cc

-- A call that may return an error.
pub data Result {ℓ} (E A : Type ℓ) : Type ℓ where
  ok : A → Result E A
  fail : E → Result E A

pub ok-injective {ℓ} : {E A : Type ℓ} (a b : A) → Path (Result E A) (ok a) (ok b) → a ≡ b
ok-injective a b e = cc

pub fail≢ok {ℓ} : {E A : Type ℓ} (e : E) (a : A) → fail e ≡ ok a → ⊥
fail≢ok e a h = cc

pub ok-or-fail {ℓ} :
    {E A : Type ℓ} (x : Result E A) → ((a : A) × (x ≡ ok a)) ⊎ ((e : E) × (x ≡ fail e))
ok-or-fail (ok a) = inl (a, refl)
ok-or-fail (fail e) = inr (e, refl)

-- The next call, unless this one returned an error.
infixl 5 ◌then◌
abbrev pub ◌then◌ {ℓ} : {E A B : Type ℓ} → Result E A → (A → Result E B) → Result E B
ok a then f = f a
fail e then f = fail e

pub then-ok {ℓ} :
    {E A B : Type ℓ} (x : Result E A) (f : A → Result E B) (b : B)
    → (x then f) ≡ ok b
    → (a : A) × (x ≡ ok a) × (f a ≡ ok b)
then-ok (ok a) f b h = (a, refl, h)
then-ok (fail e) f b h = absurd (fail≢ok e b h)

-- `if err != nil { return wrapped(err) }; return nil`, after a call that changed the state.
abbrev pub wrap {ℓ} : {S : Type ℓ} {E F : Type 0} → (E → F) → S × Option E → S × Option F
wrap f (s, none) = (s, none)
wrap f (s, some e) = (s, some (f e))

module _ {ℓ} {S : Type ℓ} {E F : Type 0} where
  pub wrap-none :
      (f : E → F) (p : S × Option E) (s' : S)
      → Path (S × Option F) (wrap f p) (s', none)
      → p ≡ (s', none)
  wrap-none f (s, none) s' h = ap (λ q. (q.0, none)) h
  wrap-none f (s, some e) s' h = absurd (ground (arith, ap (λ q. q.1) h))

  pub wrap-some :
      (f : E → F) (p : S × Option E) (s' : S) (e' : F)
      → Path (S × Option F) (wrap f p) (s', some e')
      → (e : E) × (e' ≡ f e) × (p ≡ (s', some e))
  wrap-some f (s, some e) s' e' h =
      (e, sym (some-injective (f e) e' (ap (λ q. q.1) h)), ap (λ q. (q.0, some e)) h)
  wrap-some f (s, none) s' e' h = absurd (ground (arith, ap (λ q. q.1) h))

-- Whether a call returned an error.
pub answer-cases {ℓ} :
    {S : Type ℓ} {E : Type 0} (p : S × Option E)
    → ((s : S) × (p ≡ (s, none))) ⊎ ((s : S) × (e : E) × (p ≡ (s, some e)))
answer-cases (s, none) = inl (s, refl)
answer-cases (s, some e) = inr (s, e, refl)

module _ {ℓ} {S : Type ℓ} {E : Type 0} where
  pub some-error≢none : (s s' : S) (e : E) → Path (S × Option E) (s, some e) (s', none) → ⊥
  some-error≢none s s' e h = ground (arith, ap (λ q. q.1) h)

-- A call that returns has each of its parts return.
pub bind-ret {ℓ κ} :
    {A : Type ℓ} {B : Type κ} (x : Go A) (f : A → Go B) (b : B)
    → (x >>= f) ≡ ret b
    → (a : A) × (x ≡ ret a) × (f a ≡ ret b)
bind-ret (ret a) f b h = (a, refl, h)
bind-ret panic f b h = absurd (panic≢ret b h)
