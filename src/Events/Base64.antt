-- ===== src/Events/Base64.antt =====
-- `base64.StdEncoding.DecodeString`, which internal/events/parser.go calls: the standard alphabet
-- with padding, line breaks skipped wherever they stand, the unused bits before the padding ignored.
-- A character that is not ASCII is bytes outside the alphabet, and is refused like any of those.
pub mod Encoding
use Prim.Native.Nat.{◌/◌, ◌%◌}
use Prim.Native.Char.{code}
use Prim.Native.String.{[], ◌∷◌}
use kvsynk8s.Base.{
  ℕ, ◌+◌, ◌-◌, ◌*◌, String, Bool, true, false, ◌&&◌, ◌||◌, Option, none, some, List, leb, ◌==◌,
  if◌then◌else◌,
}

-- the six bits of a character
unfoldable pub sextet : ℕ → Option ℕ
sextet c =
    if leb 65 c && leb c 90
    then some (c - 65)
    else if leb 97 c && leb c 122
    then some (c - 71)
    else if leb 48 c && leb c 57
    then some (c + 4)
    else if c == 43
    then some 62
    else if c == 47
    then some 63
    else none

abbrev pub line_break : ℕ → Bool
line_break c = c == 10 || c == 13

-- the characters that count
unfoldable pub significant : String → List ℕ
significant [] = List.[]
significant (c ∷ cs) =
    let rest = significant cs in if line_break (code c) then rest else List.◌∷◌ (code c) rest

abbrev pub byte_list : ℕ → List ℕ → List ℕ
byte_list b bs = List.◌∷◌ b bs

-- the bytes of four characters, before those of the rest
abbrev three_bytes : Option ℕ → Option ℕ → Option ℕ → Option ℕ → Option (List ℕ) → Option (List ℕ)
three_bytes (some a) (some b) (some c) (some d) (some rest) =
    some (
      byte_list (a * 4 + b / 16)
        (byte_list (b % 16 * 16 + c / 4) (byte_list (c % 4 * 64 + d) rest)))
three_bytes _ _ _ _ _ = none

abbrev two_bytes : Option ℕ → Option ℕ → Option ℕ → Option (List ℕ)
two_bytes (some a) (some b) (some c) =
    some (byte_list (a * 4 + b / 16) (byte_list (b % 16 * 16 + c / 4) List.[]))
two_bytes _ _ _ = none

abbrev one_byte : Option ℕ → Option ℕ → Option (List ℕ)
one_byte (some a) (some b) = some (byte_list (a * 4 + b / 16) List.[])
one_byte _ _ = none

-- four characters with `=` as the last one, which must be the end
abbrev padded : ℕ → ℕ → ℕ → List ℕ → Option (List ℕ)
padded a b c List.[] =
    if c == 61 then one_byte (sextet a) (sextet b) else two_bytes (sextet a) (sextet b) (sextet c)
padded a b c (List.◌∷◌ d rest) = none

unfoldable pub decode_quanta : List ℕ → Option (List ℕ)
unfolding sextet
decode_quanta List.[] = some List.[]
decode_quanta (List.◌∷◌ a (List.◌∷◌ b (List.◌∷◌ c (List.◌∷◌ d rest)))) =
    let later = decode_quanta rest in
    if d == 61
    then padded a b c rest
    else three_bytes (sextet a) (sextet b) (sextet c) (sextet d) later
decode_quanta _ = none

unfoldable pub decode_string : String → Option (List ℕ)
unfolding significant decode_quanta
decode_string s = decode_quanta (significant s)
