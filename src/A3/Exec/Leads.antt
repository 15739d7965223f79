-- ===== src/A3/Exec/Leads.antt =====
-- What an action comes to when it returns: from the states of one property, to those of another one,
-- with a rule for each way to build an action.
use mock_os.Prelude.{ℕ, ◌≡◌, refl, Bool, true, false, Option, none, some, if◌then◌else◌}
use mock_os.A3.LinkedList.{Result, ok, exited, fault, out_of_fuel}
use mock_os.A3.Exec.{Exec, pure, exit, crash, no_fuel, gets, demand, modify, continue, ◌>>=◌, ◌>>◌}

-- What holds of the result and the state; nothing when the action ends otherwise.
abbrev pub Ensures {ℓ} : {S A : Type 0} → (A → S → Type ℓ) → Result (A × S) → Type ℓ
Ensures Q (ok (a, s)) = Q a s
Ensures Q (exited n) = Unit
Ensures Q fault = Unit
Ensures Q out_of_fuel = Unit

pub record Leads {ℓ} {S A : Type 0} (P : S → Type ℓ) (m : Exec S A) (Q : A → S → Type ℓ)
    : Type ℓ where
  pub at : (s : S) → P s → Ensures Q (m s)

-- An action that keeps a property.
abbrev pub Keeps {ℓ} : {S A : Type 0} → (S → Type ℓ) → Exec S A → Type ℓ
Keeps P m = Leads P m (λ _. P)

module _ {ℓ} {S A : Type 0} {P : S → Type ℓ} {Q : A → S → Type ℓ} where
  pub Leads-pure : (a : A) → ((s : S) → P s → Q a s) → Leads P (pure a) Q
  unfolding pure
  Leads-pure a h = record { at = h }

  pub Leads-exit : (n : ℕ) → Leads P (exit n) Q
  unfolding exit
  Leads-exit n = record { at = λ s h. tt }

  pub Leads-crash : Leads P crash Q
  unfolding crash
  Leads-crash = record { at = λ s h. tt }

  pub Leads-no_fuel : Leads P no_fuel Q
  unfolding no_fuel
  Leads-no_fuel = record { at = λ s h. tt }

  pub Leads-if :
      (b : Bool) (m n : Exec S A) → Leads P m Q → Leads P n Q → Leads P (if b then m else n) Q
  Leads-if true m n km kn = km
  Leads-if false m n km kn = kn

  pub Leads-pre :
      (m : Exec S A) {P' : S → Type ℓ} → ((s : S) → P' s → P s) → Leads P m Q → Leads P' m Q
  Leads-pre m h k = record { at = λ s p. k.at s (h s p) }

module _ {ℓ} {S A : Type 0} {P : S → Type ℓ} where
  pub Keeps-pure : (a : A) → Keeps P (pure a)
  Keeps-pure a = Leads-pure a λ s h. h

  pub Keeps-gets : (f : S → A) → Keeps P (gets f)
  unfolding gets
  Keeps-gets f = record { at = λ s h. h }

  pub Keeps-demand : (o : Option A) → Keeps P (demand o)
  unfolding demand
  Keeps-demand none = record { at = λ s h. tt }
  Keeps-demand (some a) = record { at = λ s h. h }

-- A fact that does not depend on the state.
pub Leads-given :
    {S A : Type 0} {P : S → Type 0} {C : Type 0} {Q : A → S → Type 0} (m : Exec S A)
    → (C → Leads P m Q)
    → Leads (λ s. P s × C) m Q
Leads-given m k = record { at = λ s h. (k h.1).at s h.0 }

module _ {S A : Type 0} {P : S → Type 0} where
  -- What was read of the state, and still holds.
  pub Leads-gets : (f : S → A) → Leads P (gets f) (λ a s. P s × (a ≡ f s))
  unfolding gets
  Leads-gets f = record { at = λ s h. (h, refl) }

  pub Leads-demand :
      (f : S → Option A) (o : Option A)
      → Leads (λ s. P s × (o ≡ f s)) (demand o) (λ a s. P s × (some a ≡ f s))
  unfolding demand
  Leads-demand f none = record { at = λ s h. tt }
  Leads-demand f (some a) = record { at = λ s h. h }

module _ {ℓ} {S : Type 0} {P : S → Type ℓ} where
  pub Leads-modify :
      {Q : Unit {0} → S → Type ℓ} (f : S → S) → ((s : S) → P s → Q tt (f s)) → Leads P (modify f) Q
  unfolding modify
  Leads-modify f h = record { at = h }

module _ {ℓ} {S A : Type 0} {Q Q' : A → S → Type ℓ} where
  Ensures-post :
      (r : Result (A × S)) → ((a : A) (s : S) → Q a s → Q' a s) → Ensures Q r → Ensures Q' r
  Ensures-post (ok (a, s)) h k = h a s k
  Ensures-post (exited n) h k = tt
  Ensures-post fault h k = tt
  Ensures-post out_of_fuel h k = tt

  pub Leads-post :
      {P : S → Type ℓ} (m : Exec S A)
      → ((a : A) (s : S) → Q a s → Q' a s)
      → Leads P m Q
      → Leads P m Q'
  Leads-post m h k = record { at = λ s p. Ensures-post (m s) h (k.at s p) }

-- Nothing is asked.
Ensures-any : {S A : Type 0} (r : Result (A × S)) → Ensures (λ _ _. Unit {0}) r
Ensures-any (ok (a, s)) = tt
Ensures-any (exited n) = tt
Ensures-any fault = tt
Ensures-any out_of_fuel = tt

pub Leads-any : {S A : Type 0} {P : S → Type 0} (m : Exec S A) → Leads P m (λ _ _. Unit {0})
Leads-any m = record { at = λ s h. Ensures-any (m s) }

module _ {ℓ} {S A B : Type 0} {R : A → S → Type ℓ} {Q : B → S → Type ℓ} where
  Ensures-continue :
      (r : Result (A × S)) (f : A → Exec S B)
      → Ensures R r
      → ((a : A) → Leads (R a) (f a) Q)
      → Ensures Q (continue r f)
  Ensures-continue (ok (a, s)) f h k = (k a).at s h
  Ensures-continue (exited n) f h k = tt
  Ensures-continue fault f h k = tt
  Ensures-continue out_of_fuel f h k = tt

  pub Leads-bind :
      {P : S → Type ℓ} (m : Exec S A) (f : A → Exec S B)
      → Leads P m R
      → ((a : A) → Leads (R a) (f a) Q)
      → Leads P (m >>= f) Q
  unfolding ◌>>=◌
  Leads-bind m f km kf = record { at = λ s h. Ensures-continue (m s) f (km.at s h) kf }

  pub Leads-then :
      {P : S → Type ℓ} (m : Exec S A) (k : Exec S B)
      → Leads P m R
      → ((a : A) → Leads (R a) k Q)
      → Leads P (m >> k) Q
  unfolding ◌>>◌
  Leads-then m k km kk = Leads-bind m (λ _. k) km kk

-- A chain of actions that all keep one property.
module _ {ℓ} {S A B : Type 0} {P : S → Type ℓ} where
  pub Keeps-bind :
      (m : Exec S A) (f : A → Exec S B) → Keeps P m → ((a : A) → Keeps P (f a)) → Keeps P (m >>= f)
  Keeps-bind m f km kf = Leads-bind m f km kf

  pub Keeps-then : (m : Exec S A) (k : Exec S B) → Keeps P m → Keeps P k → Keeps P (m >> k)
  Keeps-then m k km kk = Leads-then m k km λ _. kk
