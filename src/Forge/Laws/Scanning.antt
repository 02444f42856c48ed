-- ===== src/Forge/Laws/Scanning.antt =====
-- sqlTokens: each turn of the loop reads on, and the fuel is enough.
use go_api_scaffolding.Common.{
  ℕ, zero, suc, ◌≤◌, ◌≡◌, refl, ap, Bool, Bytes, [], ◌∷◌, ◌++◌, Option, none, some, drop, length,
  arith,
}
use go_api_scaffolding.Forge.Tokens.{
  word_char, ident_char, while_char, past_line, past_comment, quoted, past_first, closing,
  dollar_quoted, past_dollar, next_token, emit, tokens_within, sql_tokens,
}

length-drop : (n : ℕ) (s : Bytes) → length (drop n s) ≤ length s
length-drop zero s = omega arith
length-drop (suc n) [] = omega arith
length-drop (suc n) (c ∷ s) = omega (arith, length-drop n s)

while_char-reads : (p : ℕ → Bool) (s : Bytes) → length (while_char p s).1 ≤ length s
unfolding while_char
while_char-reads p [] = omega arith
while_char-reads p (c ∷ s) = ground (arith, while_char-reads p s)

past_line-reads : (s : Bytes) → length (past_line s) ≤ length s
unfolding past_line
past_line-reads [] = omega arith
past_line-reads (c ∷ s) = ground (arith, past_line-reads s)

past_comment-reads : (depth : ℕ) (s : Bytes) → length (past_comment depth s) ≤ length s
unfolding past_comment
past_comment-reads zero s = omega arith
past_comment-reads (suc depth) [] = omega arith
past_comment-reads (suc depth) (c ∷ []) = omega arith
past_comment-reads (suc depth) (c ∷ d ∷ s) = ground (
  arith,
  past_comment-reads (suc (suc depth)) s,
  past_comment-reads depth s,
  past_comment-reads (suc depth) (d ∷ s),
)

quoted-reads : (q : ℕ) (s : Bytes) → length (quoted q s).1 ≤ length s
unfolding quoted
quoted-reads q [] = omega arith
quoted-reads q (c ∷ []) = ground arith
quoted-reads q (c ∷ d ∷ s) = ground (arith, quoted-reads q s, quoted-reads q (d ∷ s))

past_first-reads : (tag s : Bytes) → length (closing [] (past_first tag s)) ≤ length s
unfolding past_first
past_first-reads tag [] = ground arith
past_first-reads tag (c ∷ s) =
    ground (arith, past_first-reads tag s, length-drop (length tag) (c ∷ s))

closing-reads :
    (s body : Bytes) (r : Option Bytes)
    → length (closing [] r) ≤ length s
    → length (closing s r) ≤ length s
closing-reads s body none h = omega arith
closing-reads s body (some rest) h = h

past_dollar-reads : (s : Bytes) → length (past_dollar s) ≤ length s
unfolding past_dollar
past_dollar-reads s = by_rest (while_char word_char s) (while_char-reads word_char s)
  where
    by_rest : (r : Bytes × Bytes) → length r.1 ≤ length s → length (dollar_quoted s r) ≤ length s
    by_rest (tag, []) h = omega arith
    by_rest (tag, c ∷ body) h = ground (
      arith,
      closing-reads s body (past_first (b'$' ∷ tag ++ b'$' ∷ []) body)
          (omega (arith, past_first-reads (b'$' ∷ tag ++ b'$' ∷ []) body)),
    )

next_token-reads : (c : ℕ) (s : Bytes) → length (next_token c s).1 ≤ length s
unfolding next_token
next_token-reads c s = ground (
  arith,
  past_line-reads s,
  past_comment-reads 1 (drop 1 s),
  length-drop 1 s,
  quoted-reads c s,
  past_dollar-reads s,
  while_char-reads ident_char s,
)

-- Fuel beyond the length of the source changes nothing.
tokens_within-enough :
    (n m : ℕ) (s : Bytes) → length s ≤ n → length s ≤ m → tokens_within n s ≡ tokens_within m s
unfolding tokens_within
tokens_within-enough zero zero s h k = refl
tokens_within-enough zero (suc m) [] h k = refl
tokens_within-enough (suc n) zero [] h k = refl
tokens_within-enough zero (suc m) (c ∷ s) h k = absurd (omega arith)
tokens_within-enough (suc n) zero (c ∷ s) h k = absurd (omega arith)
tokens_within-enough (suc n) (suc m) [] h k = refl
tokens_within-enough (suc n) (suc m) (c ∷ s) h k = ap (emit (next_token c s).0) (
    tokens_within-enough n m (next_token c s).1 (omega (arith, next_token-reads c s))
      (omega (arith, next_token-reads c s)))

pub sql_tokens-loop :
    (c : ℕ) (s : Bytes)
    → sql_tokens (c ∷ s) ≡ (let (token, rest) = next_token c s in emit token (sql_tokens rest))
unfolding sql_tokens tokens_within
sql_tokens-loop c s = ap (emit (next_token c s).0) (
    tokens_within-enough (length s) (length (next_token c s).1) (next_token c s).1
      (next_token-reads c s) (omega arith))
