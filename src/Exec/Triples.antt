-- ===== src/Exec/Triples.antt =====
-- What holds after a computation when something holds before it, for each of its two ends: one rule
-- for each way to build a computation.
use kvsynk8s.Base.{◌≡◌, refl, Bool, true, false, if◌then◌else◌}
use kvsynk8s.Errors.{Err, Result, ok, err}
use kvsynk8s.Exec.Keeps.{Keeps}
use kvsynk8s.Exec.{Exec, pure, raise, attempt, continue, rewrap, wrapped, ◌>>=◌}

module _ {W A : Type 0} (Q : A → W → Type 0) (E : W → Type 0) where
  -- `Q` after a value, `E` after an error
  abbrev pub Ends : Result A × W → Type 0
  Ends (ok a, w) = Q a w
  Ends (err e, w) = E w

pub record Triple {W A : Type 0} (P : W → Type 0) (m : Exec W A) (Q : A → W → Type 0)
    (E : W → Type 0) : Type 0 where
  pub at : (w : W) → P w → Ends Q E (m w)

module _ {W : Type 0} {P E : W → Type 0} where
  pub Triple-pure :
      {A : Type 0} {Q : A → W → Type 0} (a : A) → ((w : W) → P w → Q a w) → Triple P (pure a) Q E
  Triple-pure a h = record { at = h }

  pub Triple-raise :
      {A : Type 0} {Q : A → W → Type 0} (e : Err)
      → ((w : W) → P w → E w)
      → Triple P (raise {A = A} e) Q E
  Triple-raise e h = record { at = h }

  -- what is known besides the state
  pub Triple-given :
      {A K : Type 0} {Q : A → W → Type 0} (m : Exec W A)
      → (K → Triple P m Q E)
      → Triple (λ w. K × P w) m Q E
  Triple-given m f = record { at = λ w (k, p). (f k).at w p }

  pub Triple-pre :
      {A : Type 0} {Q : A → W → Type 0} {R : W → Type 0} (m : Exec W A)
      → ((w : W) → P w → R w)
      → Triple R m Q E
      → Triple P m Q E
  Triple-pre m h t = record { at = λ w p. t.at w (h w p) }

  pub Triple-post :
      {A : Type 0} {Q R : A → W → Type 0} {F : W → Type 0} (m : Exec W A)
      → Triple P m Q E
      → ((a : A) (w : W) → Q a w → R a w)
      → ((w : W) → E w → F w)
      → Triple P m R F
  Triple-post {Q = Q} {R = R} {F = F} m t h g = record { at = λ w p. go (m w).0 (m w).1 (t.at w p) }
    where
      go : (r : Result _) (w : W) → Ends Q E (r, w) → Ends R F (r, w)
      go (ok a) w q = h a w q
      go (err e) w q = g w q

  pub Triple-attempt :
      {A B : Type 0} {Q : A → W → Type 0} {R : B → W → Type 0} {F : W → Type 0} (m : Exec W A)
      (f : Result A → Exec W B)
      → Triple P m Q E
      → ((a : A) → Triple (Q a) (f (ok a)) R F)
      → ((e : Err) → Triple E (f (err e)) R F)
      → Triple P (attempt m f) R F
  Triple-attempt {Q = Q} {R = R} {F = F} m f t h g = record {
    at = λ w p. go (m w).0 (m w).1 (t.at w p);
  }
    where
      go : (r : Result _) (w : W) → Ends Q E (r, w) → Ends R F (f r w)
      go (ok a) w q = (h a).at w q
      go (err e) w q = (g e).at w q

  pub Triple-bind :
      {A B : Type 0} {Q : A → W → Type 0} {R : B → W → Type 0} (m : Exec W A) (f : A → Exec W B)
      → Triple P m Q E
      → ((a : A) → Triple (Q a) (f a) R E)
      → Triple P (m >>= f) R E
  Triple-bind m f t h = Triple-attempt m (continue f) t h (λ e. record { at = λ w q. q })

  pub Triple-wrapped :
      {A : Type 0} {Q : A → W → Type 0} (m : Exec W A) → Triple P m Q E → Triple P (wrapped m) Q E
  Triple-wrapped m t =
      Triple-attempt m rewrap t (λ a. record { at = λ w q. q }) (λ e. record { at = λ w q. q })

  pub Triple-if :
      {A : Type 0} {Q : A → W → Type 0} (b : Bool) (m n : Exec W A)
      → Triple P m Q E
      → Triple P n Q E
      → Triple P (if b then m else n) Q E
  Triple-if true m n tm tn = tm
  Triple-if false m n tm tn = tn

-- an invariant, after both ends
pub Triple-keeps :
    {W A : Type 0} {P : W → Type 0} (m : Exec W A) → Keeps P m → Triple P m (λ _. P) P
Triple-keeps {W = W} {A = A} {P = P} m keeps = record {
  at = λ w p. go (m w).0 (m w).1 (keeps.at w p);
}
  where
    go : (r : Result A) (w : W) → P w → Ends (λ (a : A). P) P (r, w)
    go (ok a) w q = q
    go (err e) w q = q

-- an invariant, and what is known of the value
pub Triple-known :
    {W A : Type 0} {P : W → Type 0} (Q : A → Type 0) (m : Exec W A)
    → Keeps P m
    → ((a : A) (w v : W) → m w ≡ (ok a, v) → Q a)
    → Triple P m (λ a w. Q a × P w) P
Triple-known {W = W} {A = A} {P = P} Q m keeps known = record {
  at = λ w p. go w (m w).0 (m w).1 refl (keeps.at w p);
}
  where
    go :
        (w : W) (r : Result A) (v : W)
        → m w ≡ (r, v)
        → P v
        → Ends (λ (a : A) (w : W). Q a × P w) P (r, v)
    go w (ok a) v e p = (known a w v e, p)
    go w (err x) v e p = p

-- what holds after both ends
pub Triple-always :
    {W A : Type 0} {P Q : W → Type 0} (m : Exec W A)
    → Triple P m (λ _. Q) Q
    → (w : W) → P w
    → Q (m w).1
Triple-always {W = W} {A = A} {Q = Q} m t w p = go (m w).0 (m w).1 (t.at w p)
  where
    go : (r : Result A) (w : W) → Ends (λ (a : A). Q) Q (r, w) → Q w
    go (ok a) w q = q
    go (err e) w q = q
