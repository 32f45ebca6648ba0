-- ===== src/Events/Base64/Encoding.antt =====
-- The encoding of bytes by RFC 4648, and that the decoder undoes it.
use Prim.Native.Nat.{◌/◌, ◌%◌}
use kvsynk8s.Base.{
  ℕ, ◌+◌, ◌-◌, ◌*◌, ◌<◌, String, ◌≡◌, refl, false, some, List, [], ◌∷◌, ltb, ◌==◌, All, arith,
  if◌then◌else◌,
}
use kvsynk8s.Events.Base64.{sextet, significant, decode_quanta, decode_string}

-- the character of six bits
unfoldable pub digit : ℕ → ℕ
digit n =
    if ltb n 26
    then n + 65
    else if ltb n 52
    then n + 71
    else if ltb n 62
    then n - 4
    else if n == 62
    then 43
    else 47

sextet-digit : (n : ℕ) → n < 64 → sextet (digit n) ≡ some n
unfolding sextet digit
sextet-digit n h = ground arith

digit_plain : (n : ℕ) → n < 64 → (digit n == 61) ≡ false
unfolding digit
digit_plain n h = ground arith

-- three bytes are four characters; one or two at the end are padded
unfoldable pub encode : List ℕ → List ℕ
unfolding digit
encode [] = []
encode (x ∷ []) = digit (x / 4) ∷ digit (x % 4 * 16) ∷ 61 ∷ 61 ∷ []
encode (x ∷ y ∷ []) = digit (x / 4) ∷ digit (x % 4 * 16 + y / 16) ∷ digit (y % 16 * 4) ∷ 61 ∷ []
encode (x ∷ y ∷ z ∷ rest) =
    digit (x / 4)
    ∷ digit (x % 4 * 16 + y / 16)
    ∷ digit (y % 16 * 4 + z / 64)
    ∷ digit (z % 64)
    ∷ encode rest

abbrev pub AllBytes : List ℕ → Type 0
AllBytes = All (λ b. b < 256)

decode_quanta-encode : (bs : List ℕ) → AllBytes bs → decode_quanta (encode bs) ≡ some bs
unfolding encode decode_quanta
decode_quanta-encode [] h = refl
decode_quanta-encode (x ∷ []) (hx, h) =
    rw (sextet-digit (x / 4) (omega arith), sextet-digit (x % 4 * 16) (omega arith)) (ground arith)
decode_quanta-encode (x ∷ y ∷ []) (hx, (hy, h)) =
    rw
      (
        digit_plain (y % 16 * 4) (omega arith),
        sextet-digit (x / 4) (omega arith),
        sextet-digit (x % 4 * 16 + y / 16) (omega arith),
        sextet-digit (y % 16 * 4) (omega arith),
      )
      (ground arith)
decode_quanta-encode (x ∷ y ∷ z ∷ rest) (hx, (hy, (hz, h))) =
    rw
      (
        digit_plain (z % 64) (omega arith),
        sextet-digit (x / 4) (omega arith),
        sextet-digit (x % 4 * 16 + y / 16) (omega arith),
        sextet-digit (y % 16 * 4 + z / 64) (omega arith),
        sextet-digit (z % 64) (omega arith),
        decode_quanta-encode rest h,
      )
      (ground arith)

-- A text that spells the encoding of some bytes, broken into lines or not, decodes to them.
pub decode_string-encode :
    (s : String) (bs : List ℕ) → AllBytes bs → significant s ≡ encode bs → decode_string s ≡ some bs
unfolding decode_string
decode_string-encode s bs h e = rw e (decode_quanta-encode bs h)
