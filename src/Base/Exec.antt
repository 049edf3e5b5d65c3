-- ===== src/Base/Exec.antt =====
-- Runs of C code over a state: it goes on, it calls `exit`, or it does what C leaves undefined.
use mathlib.Core.Bool.{Bool, true, false}
use mathlib.Core.Path.{◌≡◌, refl}
use rebench.Base.Tests.{if◌then◌else◌}
use mathlib.Core.Option.{Option, none, some}

pub data Run (S A : Type 0) : Type 0 where
  -- The code went on, with a result and a state.
  done : A → S → Run S A
  -- The code called `exit` or `abort`.
  exited : S → Run S A
  -- A write or read outside an object, or another undefined behaviour.
  fault : Run S A

abbrev pub M : Type 0 → Type 0 → Type 0
M S A = S → Run S A

module _ {S : Type 0} where
  abbrev pub pure : {A : Type 0} → A → M S A
  pure = done

  abbrev pub and_then : {A B : Type 0} → Run S A → (A → M S B) → Run S B
  and_then (done a s) k = k a s
  and_then (exited s) k = exited s
  and_then fault k = fault

  infixl 5 ◌>>=◌ ◌>>◌
  abbrev pub ◌>>=◌ : {A B : Type 0} → M S A → (A → M S B) → M S B
  m >>= k = λ s. and_then (m s) k

  abbrev pub ◌>>◌ : {A B : Type 0} → M S A → M S B → M S B
  m >> n = λ s. and_then (m s) λ _. n

  abbrev pub get : M S S
  get s = done s s

  abbrev pub put : S → M S (Unit {0})
  put s _ = done tt s

  abbrev pub modify : (S → S) → M S (Unit {0})
  modify f s = done tt (f s)

  abbrev pub exit : {A : Type 0} → M S A
  exit s = exited s

  abbrev pub crash : {A : Type 0} → M S A
  crash s = fault

  abbrev pub skip : M S (Unit {0})
  skip = done tt

  -- The value, where there is one; undefined behaviour otherwise.
  abbrev pub need : {A : Type 0} → Option A → M S A
  need none s = fault
  need (some a) s = done a s

  abbrev pub check : Bool → M S (Unit {0})
  check true s = done tt s
  check false s = fault

  abbrev pub when : Bool → M S (Unit {0}) → M S (Unit {0})
  when true m s = m s
  when false m s = done tt s

  -- The rest of a function behind `if (b) return;`.
  abbrev pub unless : Bool → M S (Unit {0}) → M S (Unit {0})
  unless true m s = done tt s
  unless false m s = m s

-- The run goes on to a result and a state with the property.
pub data Returns {S A : Type 0} (P : A → S → Type 0) : Run S A → Type 0 where
  returns : {a : A} {s : S} → P a s → Returns P (done a s)

-- The run goes on so, or exits; it does not fault.
pub data Safe {S A : Type 0} (P : A → S → Type 0) : Run S A → Type 0 where
  goes_on : {a : A} {s : S} → P a s → Safe P (done a s)
  stops : {s : S} → Safe P (exited s)

-- The same by computation, which the tactics split on.
abbrev pub Holds : {S A : Type 0} → (A → S → Type 0) → Run S A → Type 0
Holds P (done a s) = P a s
Holds P (exited s) = Unit
Holds P fault = ⊥

module _ {S A : Type 0} {P : A → S → Type 0} where
  pub Safe-of_Holds : (r : Run S A) → Holds P r → Safe P r
  Safe-of_Holds (done a s) p = goes_on p
  Safe-of_Holds (exited s) p = stops
  Safe-of_Holds fault p = absurd p

  pub Safe-if :
      (b : Bool) (m n : M S A) {s : S}
      → (b ≡ true → Safe P (m s))
      → (b ≡ false → Safe P (n s))
      → Safe P ((if b then m else n) s)
  Safe-if true m n h k = h refl
  Safe-if false m n h k = k refl

  pub Returns-mono :
      {Q : A → S → Type 0} {r : Run S A}
      → Returns P r
      → ((a : A) (s : S) → P a s → Q a s)
      → Returns Q r
  Returns-mono (returns p) weaken = returns (weaken _ _ p)

  pub Safe-of_Returns : {r : Run S A} → Returns P r → Safe P r
  Safe-of_Returns (returns p) = goes_on p

  pub Safe-mono :
      {Q : A → S → Type 0} {r : Run S A} → Safe P r → ((a : A) (s : S) → P a s → Q a s) → Safe Q r
  Safe-mono (goes_on p) weaken = goes_on (weaken _ _ p)
  Safe-mono stops weaken = stops

  pub Safe-both :
      {Q : A → S → Type 0} {r : Run S A} → Safe P r → Safe Q r → Safe (λ a s. P a s × Q a s) r
  Safe-both (goes_on p) (goes_on q) = goes_on (p, q)
  Safe-both stops stops = stops

module _ {S : Type 0} {P : Unit {0} → S → Type 0} where
  pub Safe-unless :
      (b : Bool) (m : M S (Unit {0})) {s : S}
      → (b ≡ true → P tt s)
      → (b ≡ false → Safe P (m s))
      → Safe P (unless b m s)
  Safe-unless true m h k = goes_on (h refl)
  Safe-unless false m h k = k refl

module _ {S A B : Type 0} {P : A → S → Type 0} {Q : B → S → Type 0} where
  pub Returns-and_then :
      {r : Run S A} {k : A → M S B}
      → Returns P r
      → ((a : A) (s : S) → P a s → Returns Q (k a s))
      → Returns Q (and_then r k)
  Returns-and_then (returns p) next = next _ _ p

  pub Safe-and_then :
      {r : Run S A} {k : A → M S B}
      → Safe P r
      → ((a : A) (s : S) → P a s → Safe Q (k a s))
      → Safe Q (and_then r k)
  Safe-and_then (goes_on p) next = next _ _ p
  Safe-and_then stops next = stops
