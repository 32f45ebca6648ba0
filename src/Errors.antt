-- ===== src/Errors.antt =====
-- Go's `error` values and the results of calls that may fail.
-- An error is seen by the code only through `errors.Is`, `errors.As` and the `apierrors.IsX` tests,
-- all of which look through `%w`; so an error is a leaf below the wraps that `fmt.Errorf` put on it.
-- The wrapping text is not modelled: nothing reads it.
use kvsynk8s.Base.{◌≡◌, ap, Bool, true, false, if◌then◌else◌}

-- What an error from the Kubernetes API is to `apierrors.IsX`.
pub data ApiReason : Type 0 where
  not_found already_exists conflict invalid other : ApiReason

pub data Leaf : Type 0 where
  api : ApiReason → Leaf
  -- the sentinels of internal/sync/writer.go
  target_conflict target_immutable : Leaf
  -- the sentinels of internal/azure/keyvault.go
  secret_not_found access_denied auth_failure secret_disabled transient : Leaf
  -- the sentinel of internal/events/parser.go
  malformed_message : Leaf
  -- an error of another kind, such as `errors.New` without a name
  plain : Leaf

pub data Err : Type 0 where
  leaf : Leaf → Err
  -- `fmt.Errorf("…%w", err)`
  wrap : Err → Err
  -- `fmt.Errorf("…%w: %w", a, b)`
  wrap_both : Err → Err → Err

-- `errors.Is`, for a target that the test `p` picks out
unfoldable pub errors_is : (Leaf → Bool) → Err → Bool
errors_is p (leaf l) = p l
errors_is p (wrap e) = errors_is p e
errors_is p (wrap_both a b) = let later = errors_is p b in if errors_is p a then true else later

abbrev pub is_not_found : Leaf → Bool
is_not_found (api not_found) = true
is_not_found _ = false

abbrev pub is_already_exists : Leaf → Bool
is_already_exists (api already_exists) = true
is_already_exists _ = false

abbrev pub is_conflict : Leaf → Bool
is_conflict (api conflict) = true
is_conflict _ = false

abbrev pub is_invalid : Leaf → Bool
is_invalid (api invalid) = true
is_invalid _ = false

abbrev pub is_target_conflict : Leaf → Bool
is_target_conflict target_conflict = true
is_target_conflict _ = false

abbrev pub is_target_immutable : Leaf → Bool
is_target_immutable target_immutable = true
is_target_immutable _ = false

abbrev pub is_secret_not_found : Leaf → Bool
is_secret_not_found secret_not_found = true
is_secret_not_found _ = false

abbrev pub is_access_denied : Leaf → Bool
is_access_denied access_denied = true
is_access_denied _ = false

abbrev pub is_auth_failure : Leaf → Bool
is_auth_failure auth_failure = true
is_auth_failure _ = false

abbrev pub is_secret_disabled : Leaf → Bool
is_secret_disabled secret_disabled = true
is_secret_disabled _ = false

abbrev pub is_transient : Leaf → Bool
is_transient transient = true
is_transient _ = false

abbrev pub is_malformed_message : Leaf → Bool
is_malformed_message malformed_message = true
is_malformed_message _ = false

pub data Result {ℓ} (A : Type ℓ) : Type ℓ where
  ok : A → Result A
  err : Err → Result A

ok_or {ℓ} : {A : Type ℓ} → A → Result A → A
ok_or d (ok a) = a
ok_or d (err e) = d

pub ok_inj {ℓ} : {A : Type ℓ} {a b : A} → ok a ≡ ok b → a ≡ b
unfolding ok_or
ok_inj {a = a} e = ap (ok_or a) e
