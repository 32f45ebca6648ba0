-- ===== src/Base/Maps.antt =====
-- Go's `map[string]V` as an association list with distinct keys. `m[k] = v` keeps the keys distinct;
-- a nil map and an empty map are read alike, so both are `[]`.
use Prim.Native.String.{String}
use mathlib.Core.Path.{◌≡◌, refl}
use mathlib.Core.Option.{Option, none, some}
use mathlib.Core.List.{List, [], ◌∷◌}
use native.Mathlib.Omega.{arith}
use text.Mathlib.Text.{◌==◌}
use text.Mathlib.TextEquality.{eq_iff}
use text.Mathlib.TextPositions.{eq_refl}
use kvsynk8s.Base.Tests.{if◌then◌else◌}

abbrev pub Dict {ℓ} : Type ℓ → Type ℓ
Dict V = List (String × V)

module _ {ℓ} {V : Type ℓ} where
  -- `v, ok := m[k]`
  unfoldable pub lookup : String → Dict V → Option V
  lookup k [] = none
  lookup k ((j, v) ∷ m) = if j == k then some v else lookup k m

  -- `m[k] = v`
  unfoldable pub put : String → V → Dict V → Dict V
  put k v [] = (k, v) ∷ []
  put k v ((j, w) ∷ m) = if j == k then (k, v) ∷ m else (j, w) ∷ put k v m

  pub lookup-put :
      (k j : String) (v : V) (m : Dict V)
      → lookup j (put k v m) ≡ (if k == j then some v else lookup j m)
  unfolding lookup put
  lookup-put k j v [] = refl
  lookup-put k j v ((i, w) ∷ m) =
      ground (arith, eq_iff k j, eq_iff i k, eq_iff i j, lookup-put k j v m)

  pub lookup-put_self : (k : String) (v : V) (m : Dict V) → lookup k (put k v m) ≡ some v
  lookup-put_self k v m = simp (lookup-put, eq_refl)

-- `m[k]` on a string map: the empty string if the key is missing.
unfoldable pub get : String → Dict String → String
get k m = elim (lookup k m) [ none ↦ "" | some v ↦ v ]

pub get-put :
    (k j v : String) (m : Dict String) → get j (put k v m) ≡ (if k == j then v else get j m)
unfolding get
get-put k j v m = ground (arith, lookup-put k j v m)

abbrev text_or_empty : Option String → String
text_or_empty none = ""
text_or_empty (some v) = v

-- a missing key reads as the empty text
pub get-lookup : (k : String) (m : Dict String) → get k m ≡ text_or_empty (lookup k m)
unfolding get
get-lookup k m = go (lookup k m)
  where
    go : (o : Option String) → elim o [ none ↦ "" | some v ↦ v ] ≡ text_or_empty o
    go none = refl
    go (some v) = refl
