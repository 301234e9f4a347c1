-- ===== src/Base/Format.antt =====
-- The verbs of Go's fmt that the provider uses on numbers, and the bytes of a text.
use Prim.Native.Nat.{ℕ, zero, suc, ◌+◌, ◌/◌, ◌%◌}
use Prim.Native.Char.{code}
use Prim.Native.String.{String, ◌++◌ as ◌<>◌}
use mathlib.Core.List.{List, [], ◌∷◌, ◌++◌}
use cluster_api_provider_nom.Base.Logic.{ltb, if◌then◌else◌}

nth : List String → ℕ → String
nth [] n = ""
nth (x ∷ xs) zero = x
nth (x ∷ xs) (suc n) = nth xs n

abbrev hex_digits : List String
hex_digits =
    "0" ∷ "1" ∷ "2" ∷ "3" ∷ "4" ∷ "5" ∷ "6" ∷ "7" ∷ "8" ∷ "9" ∷ "a" ∷ "b" ∷ "c" ∷ "d" ∷ "e" ∷ "f"
    ∷ []

unfoldable pub digit : ℕ → String
unfolding nth
digit n = nth hex_digits n

-- A number in a base of at most 16, for at most `more` digits and one.
unfoldable pub numeral : ℕ → ℕ → ℕ → String
unfolding digit
numeral base zero n = digit n
numeral base (suc more) n =
    let rest = numeral base more (n / base) in
    if ltb n base then digit n else rest <> digit (n % base)

-- %d, of a number below 2 ^ 64.
unfoldable pub decimal : ℕ → String
unfolding numeral
decimal = numeral 10 19

-- %02x, of a number below 2 ^ 64: padded with a zero to two digits.
unfoldable pub hex2 : ℕ → String
unfolding numeral
hex2 n = if ltb n 16 then "0" <> numeral 16 15 n else numeral 16 15 n

-- UTF-8, one character at a time: the conversion of a string to []byte.
unfoldable pub utf8 : ℕ → List ℕ
utf8 c =
    if ltb c 0x80
    then c ∷ []
    else if ltb c 0x800
    then (0xc0 + c / 64) ∷ (0x80 + c % 64) ∷ []
    else if ltb c 0x10000
    then (0xe0 + c / 4096) ∷ (0x80 + c / 64 % 64) ∷ (0x80 + c % 64) ∷ []
    else (0xf0 + c / 262144) ∷ (0x80 + c / 4096 % 64) ∷ (0x80 + c / 64 % 64) ∷ (0x80 + c % 64) ∷ []

unfoldable pub bytes : String → List ℕ
unfolding utf8
bytes String.[] = []
bytes (String.◌∷◌ c s) = utf8 (code c) ++ bytes s
