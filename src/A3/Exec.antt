-- ===== src/A3/Exec.antt =====
-- Actions of assignment 3: a function of the state that returns a result and the new state, ends the
-- program with `exit`, faults, or runs out of fuel.
pub mod Leads
use mock_os.Prelude.{ℕ, Bool, Option, none, some, if◌then◌else◌}
use mock_os.A3.LinkedList.{Result, ok, exited, fault, out_of_fuel}

abbrev pub Exec : Type 0 → Type 0 → Type 0
Exec S A = S → Result (A × S)

module _ {S A : Type 0} where
  unfoldable pub pure : A → Exec S A
  pure a s = ok (a, s)

  unfoldable pub exit : ℕ → Exec S A
  exit n s = exited n

  unfoldable pub crash : Exec S A
  crash s = fault

  unfoldable pub no_fuel : Exec S A
  no_fuel s = out_of_fuel

  unfoldable pub gets : (S → A) → Exec S A
  gets f s = ok (f s, s)

  -- A pointer that is used, or an element of an array: nothing is a fault.
  unfoldable pub demand : Option A → Exec S A
  demand none s = fault
  demand (some a) s = ok (a, s)

module _ {S : Type 0} where
  unfoldable pub modify : (S → S) → Exec S (Unit {0})
  modify f s = ok (tt, f s)

  -- A change of the state that may fault.
  unfoldable pub try_modify : (S → Option S) → Exec S (Unit {0})
  try_modify f s = elim (f s) [ none ↦ fault | some s' ↦ ok (tt, s') ]

  unfoldable pub when : Bool → Exec S (Unit {0}) → Exec S (Unit {0})
  when b m s = if b then m s else ok (tt, s)

module _ {S A B : Type 0} where
  abbrev pub continue : Result (A × S) → (A → Exec S B) → Result (B × S)
  continue (ok (a, s)) f = f a s
  continue (exited n) f = exited n
  continue fault f = fault
  continue out_of_fuel f = out_of_fuel

  infixl 5 ◌>>=◌ ◌>>◌
  unfoldable pub ◌>>=◌ : Exec S A → (A → Exec S B) → Exec S B
  ◌>>=◌ m f s = continue (m s) f

  unfoldable pub ◌>>◌ : Exec S A → Exec S B → Exec S B
  m >> k = m >>= λ _. k
