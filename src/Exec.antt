-- ===== src/Exec.antt =====
-- Code that calls the cluster, Key Vault or the queue: it takes the outside world as a state and
-- gives it back beside a value or an error. What was called before an error stays done.
pub mod Keeps
pub mod Costs
pub mod Triples
use kvsynk8s.Base.{◌≡◌, refl}
use kvsynk8s.Errors.{Err, Result, ok, err}

abbrev pub Exec : Type 0 → Type 0 → Type 0
Exec W A = W → Result A × W

module _ {W : Type 0} where
  abbrev pub pure : {A : Type 0} → A → Exec W A
  pure a w = (ok a, w)

  abbrev pub raise : {A : Type 0} → Err → Exec W A
  raise e w = (err e, w)

  -- `a, err := m` followed by code that looks at `err` itself
  abbrev pub attempt : {A B : Type 0} → Exec W A → (Result A → Exec W B) → Exec W B
  attempt m k w = let (r, v) = m w in k r v

  abbrev pub continue : {A B : Type 0} → (A → Exec W B) → Result A → Exec W B
  continue f (ok a) = f a
  continue f (err e) = raise e

  -- `if err != nil { return err }`
  infixl 5 ◌>>=◌ ◌>>◌
  abbrev pub ◌>>=◌ : {A B : Type 0} → Exec W A → (A → Exec W B) → Exec W B
  m >>= f = attempt m (continue f)

  abbrev pub ◌>>◌ : {B : Type 0} → Exec W (Unit {0}) → Exec W B → Exec W B
  m >> n = m >>= λ _. n

  -- the error is wrapped by `fmt.Errorf("…: %w", err)` before it is returned
  abbrev pub rewrap : {A : Type 0} → Result A → Exec W A
  rewrap (ok a) = pure a
  rewrap (err e) = raise (Err.wrap e)

  abbrev pub wrapped : {A : Type 0} → Exec W A → Exec W A
  wrapped m = attempt m rewrap

  rewrap_world : {A : Type 0} (r : Result A) (w : W) → (rewrap r w).1 ≡ w
  rewrap_world (ok a) w = refl
  rewrap_world (err e) w = refl

  -- wrapping an error calls nothing
  pub wrapped_world : {A : Type 0} (m : Exec W A) (w : W) → (wrapped m w).1 ≡ (m w).1
  wrapped_world m w = rewrap_world (m w).0 (m w).1
