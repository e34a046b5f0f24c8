-- ===== src/Base/Run.antt =====
-- Programs that change a state, may throw an exception, fault or run out of the fuel of a loop.
use mathlib.Core.Path.{◌≡◌, refl}
use mathlib.Core.Bool.{Bool, true, false}

-- A fault is a failed assertion, a null or dangling pointer, or a read outside a buffer.
pub data Run (S A : Type 0) : Type 0 where
  ok : A → S → Run S A
  throws : Run S A
  fault : Run S A
  out_of_fuel : Run S A

abbrev pub M : Type 0 → Type 0 → Type 0
M S A = S → Run S A

abbrev pub pure : {S A : Type 0} → A → M S A
pure = ok

module _ {S A B : Type 0} where
  abbrev pub and_then : Run S A → (A → M S B) → Run S B
  and_then (ok a s) k = k a s
  and_then throws k = throws
  and_then fault k = fault
  and_then out_of_fuel k = out_of_fuel

  infixl 5 ◌>>=◌ ◌>>◌
  abbrev pub ◌>>=◌ : M S A → (A → M S B) → M S B
  m >>= k = λ s. and_then (m s) k

  abbrev pub ◌>>◌ : M S A → M S B → M S B
  m >> n = m >>= λ _. n

-- `assert`
abbrev pub assert : {S : Type 0} → Bool → M S (Unit {0})
assert true = pure tt
assert false = λ s. fault

-- The value and the state, if the run returns, have the property.
abbrev pub Ensures {ℓ} : {S A : Type 0} → (A → S → Type ℓ) → Run S A → Type ℓ
Ensures P (ok a s) = P a s
Ensures P throws = Unit
Ensures P fault = Unit
Ensures P out_of_fuel = Unit

pub Ensures-and_then {ℓ κ} :
    {S A B : Type 0} (P : A → S → Type ℓ) (Q : B → S → Type κ) (r : Run S A) (k : A → M S B)
    → Ensures P r
    → ((a : A) (s : S) → P a s → Ensures Q (k a s))
    → Ensures Q (and_then r k)
Ensures-and_then P Q (ok a s) k h next = next a s h
Ensures-and_then P Q throws k h next = tt
Ensures-and_then P Q fault k h next = tt
Ensures-and_then P Q out_of_fuel k h next = tt

-- Two continuations that agree where the first run can lead.
pub and_then-cong {ℓ} :
    {S A B : Type 0} (P : A → S → Type ℓ) (r : Run S A) (k k' : A → M S B)
    → Ensures P r
    → ((a : A) (s : S) → P a s → k a s ≡ k' a s)
    → and_then r k ≡ and_then r k'
and_then-cong P (ok a s) k k' h same = same a s h
and_then-cong P throws k k' h same = refl
and_then-cong P fault k k' h same = refl
and_then-cong P out_of_fuel k k' h same = refl

-- The run returns, a value and a state that have the property.
abbrev pub Returns : {S A : Type 0} → (A → S → Type 0) → Run S A → Type 0
Returns P (ok a s) = P a s
Returns P throws = ⊥
Returns P fault = ⊥
Returns P out_of_fuel = ⊥

pub Returns-and_then :
    {S A B : Type 0} (P : A → S → Type 0) (Q : B → S → Type 0) (r : Run S A) (k : A → M S B)
    → Returns P r
    → ((a : A) (s : S) → P a s → Returns Q (k a s))
    → Returns Q (and_then r k)
Returns-and_then P Q (ok a s) k h next = next a s h
Returns-and_then P Q throws k h next = absurd h
Returns-and_then P Q fault k h next = absurd h
Returns-and_then P Q out_of_fuel k h next = absurd h

pub Returns-map :
    {S A : Type 0} (P Q : A → S → Type 0) (r : Run S A)
    → ((a : A) (s : S) → P a s → Q a s)
    → Returns P r
    → Returns Q r
Returns-map P Q (ok a s) f p = f a s p
Returns-map P Q throws f p = p
Returns-map P Q fault f p = p
Returns-map P Q out_of_fuel f p = p

pub Ensures-map {ℓ κ} :
    {S A : Type 0} {P : A → S → Type ℓ} {Q : A → S → Type κ}
    → ((a : A) (s : S) → P a s → Q a s)
    → (r : Run S A) → Ensures P r
    → Ensures Q r
Ensures-map f (ok a s) p = f a s p
Ensures-map f throws p = tt
Ensures-map f fault p = tt
Ensures-map f out_of_fuel p = tt

pub Ensures-both {ℓ κ} :
    {S A : Type 0} (P : A → S → Type ℓ) (Q : A → S → Type κ) (r : Run S A)
    → Ensures P r
    → Ensures Q r
    → Ensures (λ a s. P a s × Q a s) r
Ensures-both P Q (ok a s) p q = (p, q)
Ensures-both P Q throws p q = tt
Ensures-both P Q fault p q = tt
Ensures-both P Q out_of_fuel p q = tt

module _ {S A B C : Type 0} where
  pub and_then_assoc :
      (r : Run S A) (k : A → M S B) (l : B → M S C)
      → and_then (and_then r k) l ≡ and_then r (λ a. k a >>= l)
  and_then_assoc (ok a s) k l = refl
  and_then_assoc throws k l = refl
  and_then_assoc fault k l = refl
  and_then_assoc out_of_fuel k l = refl

  -- Two runs that begin alike, of which the first goes on as the second does when `l` follows it.
  pub and_then-split {ℓ κ} :
      (P : A → S → Type ℓ) (E : B → S → Type κ) (r : Run S A) (k : A → M S C) (k' : A → M S B)
      (l : B → M S C)
      → Ensures P r
      → Ensures E (and_then r k')
      → ((a : A) (s : S) → P a s → Ensures E (k' a s) → k a s ≡ and_then (k' a s) l)
      → and_then r k ≡ and_then (and_then r k') l
  and_then-split P E (ok a s) k k' l p e same = same a s p e
  and_then-split P E throws k k' l p e same = refl
  and_then-split P E fault k k' l p e same = refl
  and_then-split P E out_of_fuel k k' l p e same = refl

pub and_then-pure : {S A : Type 0} (r : Run S A) → and_then r (λ a. pure a) ≡ r
and_then-pure (ok a s) = refl
and_then-pure throws = refl
and_then-pure fault = refl
and_then-pure out_of_fuel = refl

-- What holds behind a change of the value.
pub Ensures-under {ℓ} :
    {S A B : Type 0} (P : B → S → Type ℓ) (f : A → B) (r : Run S A)
    → Ensures P (and_then r (λ a. pure (f a)))
    → Ensures (λ a s. P (f a) s) r
Ensures-under P f (ok a s) p = p
Ensures-under P f throws p = tt
Ensures-under P f fault p = tt
Ensures-under P f out_of_fuel p = tt
