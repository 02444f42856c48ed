-- ===== src/Forge/Numbers.antt =====
-- The functions of strconv, strings and fmt on numbers in file names, as cmd/forge calls them.
use go_api_scaffolding.Common.{
  ℕ, zero, suc, ◌+◌, ◌-◌, ◌*◌, ◌/◌, ◌%◌, ◌^◌, ◌&&◌, Bytes, [], ◌∷◌, Option, none, some, length, leb,
  ltb, ◌==◌, if◌then◌else◌,
}
use go_api_scaffolding.Config.{ℤ, pos, negsuc}

-- strings.Cut at the first byte of a kind: none where there is none.
unfoldable pub cut : ℕ → Bytes → Option (Bytes × Bytes)
cut d [] = none
cut d (c ∷ s) = elim (cut d s) [
  | none ↦ if c == d then some ([], s) else none
  | some (front, rest) ↦ if c == d then some ([], s) else some (c ∷ front, rest)
]

-- The decimal digits that a text consists of.
unfoldable pub decimal : ℕ → Bytes → Option ℕ
decimal n [] = some n
decimal n (c ∷ s) =
    let rest = decimal (10 * n + (c - b'0')) s in if leb b'0' c && leb c b'9' then rest else none

-- strconv: no number, a number that 64 bits do not hold (with the nearest one that they do), or a number.
pub data Parsed : Type 0 where
  syntax : Parsed
  range value : ℤ → Parsed

abbrev pub positive : ℕ → Parsed
positive n = if ltb n (2 ^ 63) then value (pos n) else range (pos (2 ^ 63 - 1))

abbrev pub negative : ℕ → Parsed
negative zero = value (pos 0)
negative (suc n) = if ltb n (2 ^ 63) then value (negsuc n) else range (negsuc (2 ^ 63 - 1))

abbrev pub parsed : (ℕ → Parsed) → Bytes → Parsed
parsed sign [] = syntax
parsed sign (c ∷ s) = elim (decimal 0 (c ∷ s)) [ none ↦ syntax | some n ↦ sign n ]

unfoldable pub parse_int : Bytes → Parsed
unfolding decimal
parse_int [] = syntax
parse_int (c ∷ s) =
    if c == b'-'
    then parsed negative s
    else if c == b'+'
    then parsed positive s
    else parsed positive (c ∷ s)

-- fmt.Sprintf("%05d", n), for numbers that 64 bits hold.
unfoldable pub digits : ℕ → ℕ → Bytes → Bytes
digits zero n text = text
digits (suc fuel) n text =
    let more = digits fuel (n / 10) ((b'0' + n % 10) ∷ text) in
    if ltb n 10 then (b'0' + n) ∷ text else more

unfoldable pub zeros : ℕ → Bytes → Bytes
zeros zero text = text
zeros (suc n) text = b'0' ∷ zeros n text

abbrev pub padded : Bytes → Bytes
padded text = zeros (5 - length text) text

unfoldable pub sprintf_05d : ℤ → Bytes
unfolding digits zeros
sprintf_05d (pos n) = padded (digits 20 n [])
sprintf_05d (negsuc n) = b'-' ∷ digits 20 (suc n) []
