-- ===== src/Events/Fold.antt =====
-- `strings.EqualFold`, by which vault names, secret names and the object type are compared.
-- Unicode's simple folding joins to the ASCII letters only the other case, the Kelvin sign (with k)
-- and the long s (with s). So the test below is Go's wherever one of the two texts is ASCII: the
-- literal "secret", and the names of a spec, which the CRD's patterns hold to ASCII.
use Prim.Native.Char.{code}
use Prim.Native.String.{[], ◌∷◌}
use kvsynk8s.Base.{
  ℕ, ◌+◌, String, ◌≡◌, refl, ◌∙◌, Bool, true, false, ◌&&◌, leb, ◌==◌, arith, if◌then◌else◌,
}

unfoldable pub fold : ℕ → ℕ
fold c =
    if leb 65 c && leb c 90 then c + 32 else if c == 8490 then 107 else if c == 383 then 115 else c

unfoldable pub equal_fold : String → String → Bool
unfolding fold
equal_fold [] [] = true
equal_fold [] (d ∷ t) = false
equal_fold (c ∷ s) [] = false
equal_fold (c ∷ s) (d ∷ t) = if fold (code c) == fold (code d) then equal_fold s t else false

equal_fold_refl : (s : String) → equal_fold s s ≡ true
unfolding equal_fold
equal_fold_refl [] = refl
equal_fold_refl (c ∷ s) = ground (arith, equal_fold_refl s)

equal_fold-sym : (s t : String) → equal_fold s t ≡ equal_fold t s
unfolding equal_fold
equal_fold-sym [] [] = refl
equal_fold-sym [] (d ∷ t) = refl
equal_fold-sym (c ∷ s) [] = refl
equal_fold-sym (c ∷ s) (d ∷ t) = heads (fold (code c)) (fold (code d)) (equal_fold-sym s t)
  where
    heads :
        (a b : ℕ)
        → equal_fold s t ≡ equal_fold t s
        → (if a == b then equal_fold s t else false) ≡ (if b == a then equal_fold t s else false)
    heads a b h = ground arith

equal_fold_trans :
    (s t u : String) → equal_fold s t ≡ true → equal_fold t u ≡ true → equal_fold s u ≡ true
unfolding equal_fold
equal_fold_trans [] [] u h g = g
equal_fold_trans [] (d ∷ t) u h g = cc
equal_fold_trans (c ∷ s) [] u h g = cc
equal_fold_trans (c ∷ s) (d ∷ t) [] h g = cc
equal_fold_trans (c ∷ s) (d ∷ t) (e ∷ u) h g =
    heads (fold (code c)) (fold (code d)) (fold (code e)) (equal_fold s t) (equal_fold t u)
      (equal_fold s u) (equal_fold_trans s t u) h g
  where
    heads :
        (a b c : ℕ) (p q r : Bool)
        → (p ≡ true → q ≡ true → r ≡ true)
        → (if a == b then p else false) ≡ true
        → (if b == c then q else false) ≡ true
        → (if a == c then r else false) ≡ true
    heads a b c p q r k h g = ground arith

-- Two names that differ from a third only in case differ from each other only in case.
pub equal_fold_join :
    (s t u : String) → equal_fold s t ≡ true → equal_fold u t ≡ true → equal_fold s u ≡ true
equal_fold_join s t u h g = equal_fold_trans s t u h (equal_fold-sym t u ∙ g)
