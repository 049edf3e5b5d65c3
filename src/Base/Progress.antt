-- ===== src/Base/Progress.antt =====
-- Where runs go on with a property, and where they may call `exit`.
use mathlib.Core.Bool.{Bool, true, false}
use mathlib.Core.Option.{Option, none, some}
use mathlib.Core.Path.{◌≡◌, refl}
use rebench.Base.Tests.{if◌then◌else◌}
use rebench.Base.Exec.{
  Run, done, exited, fault, M, and_then, need, check, when, unless, Returns, returns, Safe, goes_on,
  stops,
}

-- The run goes on with the property, exits, where `E` allows it, or faults.
pub data Goes {S A : Type 0} (E : Type 0) (P : A → S → Type 0) : Run S A → Type 0 where
  goes : {a : A} {s : S} → P a s → Goes E P (done a s)
  exits : {s : S} → E → Goes E P (exited s)
  faults : Goes E P fault

module _ {S A E : Type 0} {P : A → S → Type 0} where
  pub Goes-mono :
      {Q : A → S → Type 0} {r : Run S A}
      → Goes E P r
      → ((a : A) (s : S) → P a s → Q a s)
      → Goes E Q r
  Goes-mono (goes p) weaken = goes (weaken _ _ p)
  Goes-mono (exits e) weaken = exits e
  Goes-mono faults weaken = faults

  pub Goes-if :
      (b : Bool) (m n : M S A) {s : S}
      → Goes E P (m s)
      → Goes E P (n s)
      → Goes E P ((if b then m else n) s)
  Goes-if true m n h k = h
  Goes-if false m n h k = k

  pub Goes-if_run :
      (b : Bool) {r q : Run S A} → Goes E P r → Goes E P q → Goes E P (if b then r else q)
  Goes-if_run true h k = h
  Goes-if_run false h k = k

  pub Goes-need_is : (o : Option A) (s : S) → ((a : A) → o ≡ some a → P a s) → Goes E P (need o s)
  Goes-need_is none s h = faults
  Goes-need_is (some a) s h = goes (h a refl)

  pub Goes-need : (o : Option A) (s : S) → ((a : A) → P a s) → Goes E P (need o s)
  Goes-need none s h = faults
  Goes-need (some a) s h = goes (h a)

module _ {S E : Type 0} {P : Unit {0} → S → Type 0} where
  pub Goes-check : (b : Bool) (s : S) → P tt s → Goes E P (check b s)
  Goes-check true s h = goes h
  Goes-check false s h = faults

  pub Goes-when :
      (b : Bool) (m : M S (Unit {0})) {s : S} → P tt s → Goes E P (m s) → Goes E P (when b m s)
  Goes-when true m h k = k
  Goes-when false m h k = goes h

  pub Goes-unless :
      (b : Bool) (m : M S (Unit {0})) {s : S} → P tt s → Goes E P (m s) → Goes E P (unless b m s)
  Goes-unless true m h k = goes h
  Goes-unless false m h k = k

module _ {S A B E : Type 0} {P : A → S → Type 0} {Q : B → S → Type 0} where
  pub Goes-and_then :
      {r : Run S A} {k : A → M S B}
      → Goes E P r
      → ((a : A) (s : S) → P a s → Goes E Q (k a s))
      → Goes E Q (and_then r k)
  Goes-and_then (goes p) next = next _ _ p
  Goes-and_then (exits e) next = exits e
  Goes-and_then faults next = faults

-- A run that neither faults nor exits returns.
pub Returns-of_Safe :
    {S A : Type 0} {P Q : A → S → Type 0} {r : Run S A}
    → Safe Q r
    → Goes ⊥ P r
    → Returns (λ a s. Q a s × P a s) r
Returns-of_Safe (goes_on q) (goes p) = returns (q, p)
Returns-of_Safe stops (exits e) = absurd e

pub Returns-and_Goes :
    {S A E : Type 0} {P Q : A → S → Type 0} {r : Run S A}
    → Returns P r
    → Goes E Q r
    → Returns (λ a s. P a s × Q a s) r
Returns-and_Goes (returns p) (goes q) = returns (p, q)

-- Two properties of the same run.
pub Goes-both :
    {S A E F : Type 0} {P Q : A → S → Type 0} {r : Run S A}
    → Goes E P r
    → Goes F Q r
    → Goes E (λ a s. P a s × Q a s) r
Goes-both (goes p) (goes q) = goes (p, q)
Goes-both (exits x) (exits y) = exits x
Goes-both faults faults = faults

-- A run that begins with a value that may be missing.
pub Goes-need_then :
    {S A B E : Type 0} {P : B → S → Type 0} (o : Option A) (k : A → M S B) (s : S)
    → ((a : A) → o ≡ some a → Goes E P (and_then (need o s) k))
    → Goes E P (and_then (need o s) k)
Goes-need_then none k s h = faults
Goes-need_then (some a) k s h = h a refl
