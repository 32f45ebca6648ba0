-- ===== src/Controller/Precedence.antt =====
-- Which of several SecretSyncs that claim one target Secret wins (FR-012).
use mathlib.Core.List.{Memᴰ}
use kvsynk8s.Base.{
  String, ◌≡◌, ◌≢◌, refl, sym, inl, inr, Bool, true, false, not, Bool-cases, List, [], ◌∷◌, str_eq,
  eq_iff, eq_refl, str_lt_trans, str_lt_flip, any, All, arith, if◌then◌else◌,
}
use kvsynk8s.Api.{SecretSync}
use kvsynk8s.Controller.{takes_precedence, beats, resolve_target_name, defeated}

-- Of two objects with different names exactly one takes precedence over the other.
pub takes_precedence_flip :
    (a b : SecretSync) → a.name ≢ b.name → takes_precedence b a ≡ not (takes_precedence a b)
unfolding takes_precedence
takes_precedence_flip a b n = ground (arith, str_lt_flip a.name b.name n)

-- Precedence is transitive.
pub takes_precedence_trans :
    (a b c : SecretSync)
    → takes_precedence a b ≡ true
    → takes_precedence b c ≡ true
    → takes_precedence a c ≡ true
unfolding takes_precedence
takes_precedence_trans a b c h g = ground (arith, str_lt_trans a.name b.name c.name)

-- `a` claims the target that `t` names, and was not defeated before.
pub record Claims (t : String) (a : SecretSync) : Type 0 where
  pub target : resolve_target_name a ≡ t
  pub live : defeated a.status.state a.status.reason ≡ false

beats-Claims :
    (t : String) (a b : SecretSync)
    → Claims t a
    → Claims t b
    → beats a b ≡ (if str_eq b.name a.name then false else takes_precedence b a)
unfolding beats
beats-Claims t a b p q = rw (q.target, p.target, q.live) (ground (arith, eq_refl t))

-- Between two live claims with different names on one target, each beats the other exactly when it
-- is not beaten by it.
pub beats_flip :
    (t : String) (a b : SecretSync)
    → Claims t a
    → Claims t b
    → a.name ≢ b.name
    → beats a b ≡ not (beats b a)
beats_flip t a b p q n =
    rw (beats-Claims t a b p q, beats-Claims t b a q p)
      (ground (arith, eq_iff a.name b.name, eq_iff b.name a.name, takes_precedence_flip a b n, n))

any-false :
    (p : SecretSync → Bool) (x : SecretSync) (xs : List SecretSync)
    → Memᴰ x xs
    → any p xs ≡ false
    → p x ≡ false
any-false p x [] m h = elim m [ ]
any-false p x (y ∷ ys) (Memᴰ.head e) h = rw e (ground arith)
any-false p x (y ∷ ys) (Memᴰ.tail m) h = any-false p x ys m (ground arith)

any-none :
    (p : SecretSync → Bool) (xs : List SecretSync)
    → ((z : SecretSync) → Memᴰ z xs → p z ≡ false)
    → any p xs ≡ false
any-none p [] h = refl
any-none p (x ∷ xs) h = rw (h x (Memᴰ.head refl)) (any-none p xs (λ z m. h z (Memᴰ.tail m)))

module _ (t : String) where
  All-mem : (xs : List SecretSync) {z : SecretSync} → All (Claims t) xs → Memᴰ z xs → Claims t z
  All-mem [] c m = elim m [ ]
  All-mem (x ∷ xs) c (Memᴰ.head e) = rw e c.0
  All-mem (x ∷ xs) c (Memᴰ.tail m) = All-mem xs c.1 m

  -- At most one live claim on a target is free of conflict: if no listed object beats `a` and none
  -- beats `b`, both listed live claims on the target, then they have one name.
  pub at_most_one_winner :
      (items : List SecretSync) (a b : SecretSync)
      → Memᴰ a items
      → Memᴰ b items
      → Claims t a
      → Claims t b
      → any (beats a) items ≡ false
      → any (beats b) items ≡ false
      → a.name ≡ b.name
  at_most_one_winner items a b ma mb p q h g = elim (Bool-cases (str_eq a.name b.name)) [
    | inl y ↦ (eq_iff a.name b.name).0 y
    | inr n ↦
        let differ : a.name ≢ b.name = λ e. cc (n, (eq_iff a.name b.name).1 e) in
        cc (
          any-false (beats a) b items mb h,
          any-false (beats b) a items ma g,
          beats_flip t a b p q differ,
        )
  ]

  -- names are unique within a namespace
  abbrev pub NamesUnique : List SecretSync → Type 0
  NamesUnique items = (a b : SecretSync) → Memᴰ a items → Memᴰ b items → a.name ≡ b.name → a ≡ b

  beats_self : (a : SecretSync) → beats a a ≡ false
  unfolding beats
  beats_self a = rw (eq_refl a.name)

  -- what beats `x` beats what `x` beats, unless it is the same object
  beats_trans :
      (w x z : SecretSync)
      → Claims t w
      → Claims t x
      → Claims t z
      → beats w x ≡ true
      → beats w z ≡ false
      → (z.name ≡ w.name → z ≡ w)
      → beats x z ≡ false
  beats_trans w x z cw cx cz h g unique = elim (Bool-cases (beats x z)) [
    | inr n ↦ n
    | inl y ↦ elim (Bool-cases (str_eq z.name w.name)) [
      | inl e ↦
          let same : z ≡ w = unique ((eq_iff z.name w.name).0 e) in
          let back : beats x w ≡ true = rw same at y in
          let differ : w.name ≢ x.name =
            λ p. cc (beats-Claims t w x cw cx, h, (eq_iff x.name w.name).1 (sym p)) in
          cc (beats_flip t w x cw cx differ, h, back)
      | inr n ↦ ground (
        arith,
        beats-Claims t w x cw cx,
        beats-Claims t x z cx cz,
        beats-Claims t w z cw cz,
        takes_precedence_trans z x w,
      )
    ]
  ]

  -- Among objects with different names that all claim one target and are live, there is one that
  -- none of them beats, so a conflict never leaves the target without an owner.
  pub exists_winner :
      (x : SecretSync) (xs : List SecretSync)
      → All (Claims t) (x ∷ xs)
      → NamesUnique (x ∷ xs)
      → (w : SecretSync) × Memᴰ w (x ∷ xs) × Claims t w × (any (beats w) (x ∷ xs) ≡ false)
  exists_winner x [] c u = (x, Memᴰ.head refl, c.0, rw (beats_self x))
  exists_winner x (y ∷ ys) c u =
      let (w, m, cw, best) =
        exists_winner y ys c.1 (λ a b ma mb. u a b (Memᴰ.tail ma) (Memᴰ.tail mb)) in
      elim (Bool-cases (beats w x)) [
        | inr n ↦ (w, Memᴰ.tail m, cw, rw n best)
        | inl h ↦ (
          x,
          Memᴰ.head refl,
          c.0,
          rw (beats_self x) (
              any-none (beats x) (y ∷ ys) (λ z mz.
                beats_trans w x z cw c.0 (All-mem (y ∷ ys) c.1 mz) h
                  (any-false (beats w) z (y ∷ ys) mz best) (u z w (Memᴰ.tail mz) (Memᴰ.tail m)))),
        )
      ]
