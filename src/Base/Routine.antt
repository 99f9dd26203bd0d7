-- ===== src/Base/Routine.antt =====
-- How a C routine ends, and the monad of routines over a state.
use Prim.Native.Nat.{ℕ}
use mathlib.Core.Path.{◌≡◌, refl}

pub data Outcome (A : Type 0) : Type 0 where
  done : A → Outcome A
  -- `exit(status)`
  exited : ℕ → Outcome A
  -- a failed `trueorabort`
  aborted : Outcome A
  -- an access outside of an object, which C leaves undefined
  fault : Outcome A
  -- a loop that has used up the fuel of the model
  out_of_fuel : Outcome A

-- A routine that works on the state `S` and returns an `A`.
abbrev pub M : Type 0 → Type 0 → Type 0
M S A = S → Outcome (A × S)

abbrev pub pure : {S A : Type 0} → A → M S A
pure a s = done (a, s)

infixl 5 ◌>>=◌ ◌>>◌
abbrev pub ◌>>=◌ : {S A B : Type 0} → M S A → (A → M S B) → M S B
◌>>=◌ m f s = elim (m s) [
  | done (a, s') ↦ f a s'
  | exited n ↦ exited n
  | aborted ↦ aborted
  | fault ↦ fault
  | out_of_fuel ↦ out_of_fuel
]

abbrev pub ◌>>◌ : {S B : Type 0} → M S (Unit {0}) → M S B → M S B
m >> k = m >>= λ _. k

-- `P` holds of the result and the state if the routine returns.
abbrev pub Ensures : {A S : Type 0} → (A → S → Type 0) → Outcome (A × S) → Type 0
Ensures P (done (a, s)) = P a s
Ensures P (exited n) = Unit
Ensures P aborted = Unit
Ensures P fault = Unit
Ensures P out_of_fuel = Unit

module _ {S A B : Type 0} (Q : A → S → Type 0) (P : B → S → Type 0) (k : A → M S B) where
  continued :
      (r : Outcome (A × S))
      → Ensures Q r
      → ((a : A) (s : S) → Q a s → Ensures P (k a s))
      → Ensures P (elim r [
        | done (a, s') ↦ k a s'
        | exited n ↦ exited n
        | aborted ↦ aborted
        | fault ↦ fault
        | out_of_fuel ↦ out_of_fuel
      ])
  continued (done (a, s)) h f = f a s h
  continued (exited n) h f = tt
  continued aborted h f = tt
  continued fault h f = tt
  continued out_of_fuel h f = tt

  pub Ensures-bind :
      (m : M S A) (s : S)
      → Ensures Q (m s)
      → ((a : A) (s' : S) → Q a s' → Ensures P (k a s'))
      → Ensures P ((m >>= k) s)
  Ensures-bind m s h f = continued (m s) h f

module _ {S A B : Type 0} (P : B → S → Type 0) where
  trivially : (r : Outcome (A × S)) → Ensures (λ _ _. Unit {0}) r
  trivially (done _) = tt
  trivially (exited n) = tt
  trivially aborted = tt
  trivially fault = tt
  trivially out_of_fuel = tt

  -- What the second part ensures in any case.
  pub Ensures-last :
      (k : A → M S B) (m : M S A) (s : S)
      → ((a : A) (s' : S) → Ensures P (k a s'))
      → Ensures P ((m >>= k) s)
  Ensures-last k m s f = Ensures-bind (λ _ _. Unit {0}) P k m s (trivially (m s)) (λ a s' _. f a s')

-- The equation of a result that was returned.
pub Ensures-returned : {S A : Type 0} (r : Outcome (A × S)) → Ensures (λ a s. r ≡ done (a, s)) r
Ensures-returned (done (a, s)) = refl
Ensures-returned (exited n) = tt
Ensures-returned aborted = tt
Ensures-returned fault = tt
Ensures-returned out_of_fuel = tt

pub Ensures-mono :
    {S A : Type 0} (Q P : A → S → Type 0) (r : Outcome (A × S))
    → ((a : A) (s : S) → Q a s → P a s)
    → Ensures Q r
    → Ensures P r
Ensures-mono Q P (done (a, s)) f h = f a s h
Ensures-mono Q P (exited n) f h = tt
Ensures-mono Q P aborted f h = tt
Ensures-mono Q P fault f h = tt
Ensures-mono Q P out_of_fuel f h = tt

pub Ensures-both :
    {S A : Type 0} (P Q : A → S → Type 0) (r : Outcome (A × S))
    → Ensures P r
    → Ensures Q r
    → Ensures (λ a s. P a s × Q a s) r
Ensures-both P Q (done (a, s)) p q = (p, q)
Ensures-both P Q (exited n) p q = tt
Ensures-both P Q aborted p q = tt
Ensures-both P Q fault p q = tt
Ensures-both P Q out_of_fuel p q = tt
