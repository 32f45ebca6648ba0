-- ===== src/Exec/Costs.antt =====
-- Upper bounds on what a computation adds to a measure of the outside world: one rule for each way
-- to build a computation.
use kvsynk8s.Base.{ℕ, ◌+◌, ◌≤◌, Bool, true, false, if◌then◌else◌, arith}
use kvsynk8s.Errors.{Err, Result, ok, err}
use kvsynk8s.Exec.{Exec, pure, raise, attempt, continue, rewrap, wrapped, ◌>>=◌}

-- `m` adds at most `n` to the measure, whether it returns or fails
pub record Costs {W A : Type 0} (size : W → ℕ) (n : ℕ) (m : Exec W A) : Type 0 where
  pub at : (w : W) → size (m w).1 ≤ n + size w

module _ {W : Type 0} {size : W → ℕ} (n : ℕ) where
  pub Costs-pure : {A : Type 0} (a : A) → Costs size n (pure a)
  Costs-pure a = record { at = λ w. omega arith }

  pub Costs-raise : {A : Type 0} (e : Err) → Costs size n (raise {A = A} e)
  Costs-raise e = record { at = λ w. omega arith }

  pub Costs-weaken : {A : Type 0} (k : ℕ) (m : Exec W A) → Costs size k m → k ≤ n → Costs size n m
  Costs-weaken k m cost below = record { at = λ w. let h = cost.at w in omega arith }

  pub Costs-attempt :
      {A B : Type 0} (k : ℕ) (m : Exec W A) (f : Result A → Exec W B)
      → Costs size n m
      → ((r : Result A) → Costs size k (f r))
      → Costs size (n + k) (attempt m f)
  Costs-attempt k m f cm cf = record {
    at = λ w. let h = cm.at w in let g = (cf (m w).0).at (m w).1 in omega arith;
  }

  pub Costs-continue :
      {A B : Type 0} (f : A → Exec W B) (r : Result A)
      → ((a : A) → Costs size n (f a))
      → Costs size n (continue f r)
  Costs-continue f (ok a) cf = cf a
  Costs-continue f (err e) cf = Costs-raise e

  Costs-rewrap : {A : Type 0} (r : Result A) → Costs size 0 (rewrap r)
  Costs-rewrap (ok a) = record { at = λ w. omega arith }
  Costs-rewrap (err e) = record { at = λ w. omega arith }

  pub Costs-wrapped : {A : Type 0} (m : Exec W A) → Costs size n m → Costs size n (wrapped m)
  Costs-wrapped m cm = record {
    at = λ w. let h = (Costs-attempt 0 m rewrap cm Costs-rewrap).at w in omega arith;
  }

  pub Costs-bind :
      {A B : Type 0} (k : ℕ) (m : Exec W A) (f : A → Exec W B)
      → Costs size n m
      → ((a : A) → Costs size k (f a))
      → Costs size (n + k) (m >>= f)
  Costs-bind k m f cm cf = record {
    at = λ w. let h = cm.at w in let g = (continued k f cf (m w).0).at (m w).1 in omega arith;
  }
    where
      continued :
          {A B : Type 0} (k : ℕ) (f : A → Exec W B)
          → ((a : A) → Costs size k (f a))
          → (r : Result A) → Costs size k (continue f r)
      continued k f cf (ok a) = cf a
      continued k f cf (err e) = record { at = λ w. omega arith }

  pub Costs-if :
      {A : Type 0} (b : Bool) (m k : Exec W A)
      → Costs size n m
      → Costs size n k
      → Costs size n (if b then m else k)
  Costs-if true m k cm ck = cm
  Costs-if false m k cm ck = ck
