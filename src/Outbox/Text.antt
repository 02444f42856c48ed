-- ===== src/Outbox/Text.antt =====
-- internal/outbox/outbox.go: storableError, with strings.ReplaceAll and strings.ToValidUTF8.
use go_api_scaffolding.Common.{
  ℕ, zero, suc, Bool, true, false, not, ◌&&◌, ◌||◌, Bytes, [], ◌∷◌, take, keep, leb, ltb, ◌==◌,
  if◌then◌else◌,
}

abbrev pub max_error_bytes : ℕ
max_error_bytes = 2048

abbrev pub within : ℕ → ℕ → ℕ → Bool
within lo hi c = leb lo c && leb c hi

-- The number of continuation bytes that the first byte asks for and the range of the first of
-- them, where the byte begins a well-formed sequence.
abbrev pub starts : ℕ → ℕ → ℕ
starts c d =
    if within 0xc2 0xdf c && within 0x80 0xbf d
    then 1
    else if (c == 0xe0 && within 0xa0 0xbf d) || (within 0xe1 0xec c && within 0x80 0xbf d)
    then 2
    else if (c == 0xed && within 0x80 0x9f d) || (within 0xee 0xef c && within 0x80 0xbf d)
    then 2
    else if (c == 0xf0 && within 0x90 0xbf d) || (within 0xf1 0xf3 c && within 0x80 0xbf d)
    then 3
    else if c == 0xf4 && within 0x80 0x8f d
    then 3
    else 0

-- As many bytes of the text as asked for are continuation bytes.
unfoldable pub continues : ℕ → Bytes → Bool
continues zero s = true
continues (suc n) [] = false
continues (suc n) (c ∷ s) = within 0x80 0xbf c && continues n s

-- The width of the multi-byte rune at the head, less one; 0 where there is none.
unfoldable pub tail_width : ℕ → Bytes → ℕ
tail_width c [] = 0
tail_width c (d ∷ s) = if continues (starts c d) (d ∷ s) then starts c d else 0

-- strings.ToValidUTF8 with "?": `copy` bytes of a rune remain to be copied, and `invalid` tells
-- that the byte before was replaced.
unfoldable pub scrub : ℕ → Bool → Bytes → Bytes
scrub copy invalid [] = []
scrub (suc copy) invalid (c ∷ s) = c ∷ scrub copy false s
scrub zero invalid (c ∷ s) =
    let plain = c ∷ scrub 0 false s in
    let rune = c ∷ scrub (tail_width c s) false s in
    let first = 63 ∷ scrub 0 true s in
    let more = scrub 0 true s in
    if ltb c 0x80
    then plain
    else if ltb 0 (tail_width c s)
    then rune
    else if invalid
    then more
    else first

unfoldable pub storable_error : Bytes → Bytes
unfolding scrub tail_width continues
storable_error msg = scrub 0 false (take max_error_bytes (keep (λ c. not (c == 0)) msg))
