-- ===== src/Outbox/Laws/Storable.antt =====
-- The text that is stored for a rejection is one that a TEXT column takes.
use go_api_scaffolding.Common.{
  ℕ, zero, suc, ◌≡◌, ◌≢◌, ◌≤◌, refl, sym, subst, Bool, true, false, not, ◌&&◌, ◌||◌, Bool-cases,
  inl, inr, Bytes, [], ◌∷◌, length, take, keep, ltb, ◌==◌, All, All-take, keep-All, length-take-le,
  arith, if◌then◌else◌,
}
use go_api_scaffolding.Db.Queries.Laws.{All-map_weaken}
use go_api_scaffolding.Outbox.Text.{
  max_error_bytes, within, starts, continues, tail_width, scrub, storable_error,
}

-- Well-formed UTF-8, where `n` continuation bytes of a rune are to come: every rune begins with a
-- byte that asks for the bytes that follow it.
unfoldable pub is_utf8 : ℕ → Bytes → Bool
is_utf8 zero [] = true
is_utf8 (suc n) [] = false
is_utf8 (suc n) (c ∷ s) = within 0x80 0xbf c && is_utf8 n s
is_utf8 zero (c ∷ s) =
    (ltb c 0x80 && is_utf8 0 s) || (ltb 0 (tail_width c s) && is_utf8 (tail_width c s) s)

continues-scrub :
    (n : ℕ) (b : Bool) (s : Bytes) → continues n s ≡ true → continues n (scrub n b s) ≡ true
unfolding continues scrub
continues-scrub zero b s h = refl
continues-scrub (suc n) b [] h = cc
continues-scrub (suc n) b (c ∷ s) h = ground (arith, continues-scrub n false s)

-- A rune at the head asks for at least one byte, and those bytes are there.
tail_width-continues :
    (c : ℕ) (s : Bytes) → ltb 0 (tail_width c s) ≡ true → continues (tail_width c s) s ≡ true
unfolding tail_width
tail_width-continues c [] h = ground arith
tail_width-continues c (d ∷ s) h = elim (Bool-cases (continues (starts c d) (d ∷ s))) [
  | inl good ↦ rw good good
  | inr bad ↦ cc (rw bad at h)
]

-- The bytes that a rune asks for are copied, so the rune is one in the result, too.
tail_width-copied :
    (c d n : ℕ) (s : Bytes)
    → starts c d ≡ suc n
    → continues (suc n) (d ∷ s) ≡ true
    → tail_width c (scrub (suc n) false (d ∷ s)) ≡ suc n
unfolding tail_width scrub
tail_width-copied c d n s e k =
    let copied : continues (suc n) (scrub (suc n) false (d ∷ s)) ≡ true =
      continues-scrub (suc n) false (d ∷ s) k in
    rw (e, copied) refl

tail_width-scrub :
    (c : ℕ) (s : Bytes)
    → ltb 0 (tail_width c s) ≡ true
    → tail_width c (scrub (tail_width c s) false s) ≡ tail_width c s
unfolding tail_width
tail_width-scrub c [] h = ground arith
tail_width-scrub c (d ∷ s) h = elim (Bool-cases (continues (starts c d) (d ∷ s))) [
  | inl good ↦
      let width : tail_width c (d ∷ s) ≡ starts c d = rw good refl in
      by_width (starts c d) refl good (rw width at h) width
  | inr bad ↦ cc (rw bad at h)
]
  where
    by_width :
        (n : ℕ)
        → starts c d ≡ n
        → continues n (d ∷ s) ≡ true
        → ltb 0 n ≡ true
        → tail_width c (d ∷ s) ≡ n
        → tail_width c (scrub (tail_width c (d ∷ s)) false (d ∷ s)) ≡ tail_width c (d ∷ s)
    by_width zero e k positive width = cc
    by_width (suc n) e k positive width =
        subst (λ w. tail_width c (scrub w false (d ∷ s)) ≡ w) (sym width)
          (tail_width-copied c d n s e k)

if-cases :
    (Q : Bytes → Type 0) (b : Bool) (x y : Bytes)
    → (b ≡ true → Q x)
    → (b ≡ false → Q y)
    → Q (if b then x else y)
if-cases Q true x y h k = h refl
if-cases Q false x y h k = k refl

or-right : (x y : Bool) → y ≡ true → (x || y) ≡ true
or-right true y h = refl
or-right false y h = h

plain-is_utf8 :
    (c : ℕ) (s : Bytes) → ltb c 0x80 ≡ true → is_utf8 0 s ≡ true → is_utf8 0 (c ∷ s) ≡ true
unfolding is_utf8
plain-is_utf8 c s ascii h = ground arith

rune-is_utf8 :
    (c n : ℕ) (s : Bytes)
    → tail_width c s ≡ n
    → ltb 0 n ≡ true
    → is_utf8 n s ≡ true
    → is_utf8 0 (c ∷ s) ≡ true
unfolding is_utf8
rune-is_utf8 c n s width positive h =
    or-right (ltb c 0x80 && is_utf8 0 s) _ (rw (width, positive, h) refl)

scrub-is_utf8 :
    (n : ℕ) (b : Bool) (s : Bytes) → continues n s ≡ true → is_utf8 n (scrub n b s) ≡ true
unfolding is_utf8 scrub continues
scrub-is_utf8 zero b [] h = refl
scrub-is_utf8 (suc n) b [] h = cc
scrub-is_utf8 (suc n) b (c ∷ s) h = ground (arith, scrub-is_utf8 n false s)
scrub-is_utf8 zero b (c ∷ s) h =
    let good : Bytes → Type 0 = λ o. is_utf8 0 o ≡ true in
    let more = scrub-is_utf8 0 true s refl in
    if-cases good (ltb c 0x80) _ _
      (λ ascii. plain-is_utf8 c (scrub 0 false s) ascii (scrub-is_utf8 0 false s refl))
      (λ _.
        if-cases good (ltb 0 (tail_width c s)) _ _
          (λ rune.
            rune-is_utf8 c (tail_width c s) (scrub (tail_width c s) false s)
              (tail_width-scrub c s rune) rune
              (scrub-is_utf8 (tail_width c s) false s (tail_width-continues c s rune)))
          (λ _. if-cases good b _ _ (λ _. more) (λ _. plain-is_utf8 63 (scrub 0 true s) refl more)))

scrub-All : (P : ℕ → Type 0) (n : ℕ) (b : Bool) (s : Bytes) → P 63 → All P s → All P (scrub n b s)
unfolding scrub
scrub-All P zero b [] q h = tt
scrub-All P (suc n) b [] q h = tt
scrub-All P (suc n) b (c ∷ s) q (p, h) = (p, scrub-All P n false s q h)
scrub-All P zero b (c ∷ s) q (p, h) =
    let more = scrub-All P 0 true s q h in
    if-cases (All P) (ltb c 0x80) _ _ (λ _. (p, scrub-All P 0 false s q h))
      (λ _.
        if-cases (All P) (ltb 0 (tail_width c s)) _ _
          (λ _. (p, scrub-All P (tail_width c s) false s q h))
          (λ _. if-cases (All P) b _ _ (λ _. more) (λ _. (q, more))))

length-scrub : (n : ℕ) (b : Bool) (s : Bytes) → length (scrub n b s) ≤ length s
unfolding scrub
length-scrub zero b [] = omega arith
length-scrub (suc n) b [] = omega arith
length-scrub (suc n) b (c ∷ s) = ground (arith, length-scrub n false s)
length-scrub zero b (c ∷ s) =
    ground
      (arith, length-scrub 0 false s, length-scrub (tail_width c s) false s, length-scrub 0 true s)

no_nul : (c : ℕ) → not (c == 0) ≡ true → c ≢ 0
no_nul c h = ground arith

-- Whatever a publisher says of a message that it turns down, the text that is stored holds no NUL,
-- is at most 2048 bytes long, and is well-formed UTF-8.
pub storable_error_lem :
    (msg : Bytes)
    → All (λ c. c ≢ 0) (storable_error msg)
      × (length (storable_error msg) ≤ max_error_bytes)
      × (is_utf8 0 (storable_error msg) ≡ true)
unfolding storable_error continues
storable_error_lem msg =
    let clean = keep (λ c. not (c == 0)) msg in
    let cut = take max_error_bytes clean in
    (
      scrub-All (λ c. c ≢ 0) 0 false cut (λ h. omega arith)
          (All-take _ max_error_bytes clean
            (All-map_weaken _ _ clean no_nul (keep-All (λ c. not (c == 0)) msg))),
      omega (arith, length-scrub 0 false cut, length-take-le max_error_bytes clean),
      scrub-is_utf8 0 false cut refl,
    )
