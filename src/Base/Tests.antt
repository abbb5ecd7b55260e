-- ===== src/Base/Tests.antt =====
-- Boolean tests on the native numbers, the conditional, and Library::Expected with its chaining.
use Prim.Native.Nat.{ℕ, ◌≤◌, ◌<◌, compare, Ordering}
use mathlib.Core.Path.{◌≡◌, refl}
use mathlib.Core.Logic.{◌↔◌, ◌⊎◌, inl, inr}
use mathlib.Core.Bool.{Bool, true, false}
use mathlib.Core.Option.{Option, none, some}
use native.Mathlib.Omega.{arith}

abbrev pub ltb : ℕ → ℕ → Bool
ltb a b = elim (compare a b) [ Ordering.lt ↦ true | _ ↦ false ]

abbrev pub leb : ℕ → ℕ → Bool
leb a b = elim (compare a b) [ Ordering.gt ↦ false | _ ↦ true ]

infix 50 ◌==◌
abbrev pub ◌==◌ : ℕ → ℕ → Bool
a == b = elim (compare a b) [ Ordering.eq ↦ true | _ ↦ false ]

infix 1 if◌then◌else◌
abbrev pub if◌then◌else◌ {ℓ} : {A : Type ℓ} → Bool → A → A → A
if true then x else y = x
if false then x else y = y

pub ltb→lt : (a b : ℕ) → ltb a b ≡ true → a < b
ltb→lt a b h = ground arith

pub lt→ltb : (a b : ℕ) → a < b → ltb a b ≡ true
lt→ltb a b h = ground arith

pub leb→le : (a b : ℕ) → leb a b ≡ true → a ≤ b
leb→le a b h = ground arith

pub ==_iff : (a b : ℕ) → ((a == b) ≡ true) ↔ (a ≡ b)
==_iff a b = ground arith

pub Bool-cases : (b : Bool) → (b ≡ true) ⊎ (b ≡ false)
Bool-cases true = inl refl
Bool-cases false = inr refl

-- Library::Expected<T, E>: a value, or what is unexpected.
pub data Expected {ℓ} (E : Type 0) (A : Type ℓ) : Type ℓ where
  value : A → Expected E A
  unexpected : E → Expected E A

-- `if (!r) return Failure(r.Error());` and the rest with `r.Value()`.
infixl 5 ◌>>=◌ ◌>>◌
abbrev pub ◌>>=◌ {ℓ κ} :
    {E : Type 0} {A : Type ℓ} {B : Type κ} → Expected E A → (A → Expected E B) → Expected E B
value a >>= f = f a
unexpected e >>= f = unexpected e

abbrev pub ◌>>◌ {ℓ} :
    {E : Type 0} {B : Type ℓ} → Expected E (Unit {0}) → Expected E B → Expected E B
m >> k = m >>= λ _. k

-- `if (!b) return Failure(e);`
abbrev pub require : {E : Type 0} → Bool → E → Expected E (Unit {0})
require true e = value tt
require false e = unexpected e

pub Expected-cases {ℓ} :
    {E : Type 0} {A : Type ℓ} (r : Expected E A)
    → ((a : A) × (r ≡ value a)) ⊎ ((e : E) × (r ≡ unexpected e))
Expected-cases (value a) = inl (a, refl)
Expected-cases (unexpected e) = inr (e, refl)

pub Option-cases {ℓ} : {A : Type ℓ} (o : Option A) → (o ≡ none) ⊎ ((a : A) × (o ≡ some a))
Option-cases none = inl refl
Option-cases (some a) = inr (a, refl)
