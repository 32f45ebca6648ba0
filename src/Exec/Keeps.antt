-- ===== src/Exec/Keeps.antt =====
-- Invariants of the outside world: one rule for each way to build a computation.
use kvsynk8s.Base.{Bool, true, false, if◌then◌else◌}
use kvsynk8s.Errors.{Err, Result, ok, err}
use kvsynk8s.Exec.{Exec, pure, raise, attempt, continue, rewrap, wrapped, ◌>>=◌}

-- `m` keeps `P`, whether it returns or fails
pub record Keeps {W A : Type 0} (P : W → Type 0) (m : Exec W A) : Type 0 where
  pub at : (w : W) → P w → P (m w).1

module _ {W : Type 0} {P : W → Type 0} where
  pub Keeps-pure : {A : Type 0} (a : A) → Keeps P (pure a)
  Keeps-pure a = record { at = λ w h. h }

  pub Keeps-raise : {A : Type 0} (e : Err) → Keeps P (raise {A = A} e)
  Keeps-raise e = record { at = λ w h. h }

  pub Keeps-attempt :
      {A B : Type 0} (m : Exec W A) (f : Result A → Exec W B)
      → Keeps P m
      → ((r : Result A) → Keeps P (f r))
      → Keeps P (attempt m f)
  Keeps-attempt m f km kf = record { at = λ w h. let (r, v) = m w in (kf r).at v (km.at w h) }

  pub Keeps-continue :
      {A B : Type 0} (f : A → Exec W B) (r : Result A)
      → ((a : A) → Keeps P (f a))
      → Keeps P (continue f r)
  Keeps-continue f (ok a) kf = kf a
  Keeps-continue f (err e) kf = Keeps-raise e

  pub Keeps-rewrap : {A : Type 0} (r : Result A) → Keeps P (rewrap r)
  Keeps-rewrap (ok a) = Keeps-pure a
  Keeps-rewrap (err e) = Keeps-raise (Err.wrap e)

  pub Keeps-wrapped : {A : Type 0} (m : Exec W A) → Keeps P m → Keeps P (wrapped m)
  Keeps-wrapped m km = Keeps-attempt m rewrap km Keeps-rewrap

  pub Keeps-bind :
      {A B : Type 0} (m : Exec W A) (f : A → Exec W B)
      → Keeps P m
      → ((a : A) → Keeps P (f a))
      → Keeps P (m >>= f)
  Keeps-bind m f km kf = Keeps-attempt m (continue f) km (λ r. Keeps-continue f r kf)

  pub Keeps-if :
      {A : Type 0} (b : Bool) (m n : Exec W A)
      → Keeps P m
      → Keeps P n
      → Keeps P (if b then m else n)
  Keeps-if true m n km kn = km
  Keeps-if false m n km kn = kn

pub ruleset keeps_rules = (
  Keeps-pure, Keeps-raise, Keeps-attempt, Keeps-continue, Keeps-rewrap, Keeps-wrapped, Keeps-bind,
  Keeps-if,
)
