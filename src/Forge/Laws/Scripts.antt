-- ===== src/Forge/Laws/Scripts.antt =====
-- sqlTokens on SQL text that is written from a list of its parts.
use go_api_scaffolding.Common.{
  ℕ, suc, ◌≡◌, ◌≢◌, refl, ap, ◌∙◌, Bool, true, false, Bytes, List, [], ◌∷◌, ◌++◌, Option, none,
  some, has_prefix, drop, length, map, lower, arith, All, Bool-cases, ◌⊎◌, inl, inr, ◌==◌,
  if◌then◌else◌,
}
use go_api_scaffolding.Forge.Tokens.{
  word_char, ident_char, punctuation, while_char, past_line, past_comment, quoted, past_first,
  past_dollar, word_of, next_token, emit, sql_tokens,
}
use go_api_scaffolding.Forge.Laws.Scanning.{sql_tokens-loop}

-- The text of a block comment behind its opening, with the comments nested in it.
pub data Block : Type 0 where
  ended : Block
  byte : ℕ → Block → Block
  nested : Block → Block → Block

-- The parts of a script.
pub data Part : Type 0 where
  word : ℕ → Bytes → Part
  name literal line_comment : Bytes → Part
  block_comment : Block → Part
  dollar : Bytes → Bytes → Part
  mark : ℕ → Part

-- Each text is written before what follows it.
unfoldable pub block_text : Block → Bytes → Bytes
block_text ended r = b'*' ∷ b'/' ∷ r
block_text (byte c b) r = c ∷ block_text b r
block_text (nested a b) r = b'/' ∷ b'*' ∷ block_text a (block_text b r)

-- A quote inside a quoted text is written twice.
unfoldable pub escaped : ℕ → Bytes → Bytes → Bytes
escaped q [] r = q ∷ 32 ∷ r
escaped q (c ∷ s) r = if c == q then c ∷ c ∷ escaped q s r else c ∷ escaped q s r

abbrev pub part_text : Part → Bytes → Bytes
part_text (word c s) r = c ∷ s ++ 32 ∷ r
part_text (name s) r = b'"' ∷ escaped b'"' s r
part_text (literal s) r = b'\'' ∷ escaped b'\'' s r
part_text (line_comment s) r = b'-' ∷ b'-' ∷ s ++ 10 ∷ r
part_text (block_comment b) r = b'/' ∷ b'*' ∷ block_text b r
part_text (dollar tag body) r = b'$' ∷ tag ++ b'$' ∷ (body ++ b'$' ∷ (tag ++ b'$' ∷ r))
part_text (mark c) r = c ∷ r

unfoldable pub script_text : List Part → Bytes
script_text [] = []
script_text (p ∷ ps) = part_text p (script_text ps)

unfoldable pub IsBlock : Block → Type 0
IsBlock ended = Unit
IsBlock (byte c b) = (c ≢ b'*') × (c ≢ b'/') × IsBlock b
IsBlock (nested a b) = IsBlock a × IsBlock b

abbrev pub IsPart : Part → Type 0
IsPart (word c s) = (word_char c ≡ true) × All (λ d. ident_char d ≡ true) s
IsPart (name s) = Unit
IsPart (literal s) = Unit
IsPart (line_comment s) = All (λ d. d ≢ 10) s
IsPart (block_comment b) = IsBlock b
IsPart (dollar tag body) = All (λ d. word_char d ≡ true) tag × All (λ d. d ≢ b'$') body
IsPart (mark c) = punctuation c ≡ true

-- What a part adds to the tokens.
abbrev pub part_token : Part → Option Bytes
part_token (word c s) = some (map lower (c ∷ s))
part_token (name s) = some s
part_token (mark c) = some (c ∷ [])
part_token _ = none

unfoldable pub part_tokens : List Part → List Bytes
part_tokens [] = []
part_tokens (p ∷ ps) = emit (part_token p) (part_tokens ps)

while_char-stops :
    (p : ℕ → Bool) (s : Bytes) (d : ℕ) (r : Bytes)
    → All (λ c. p c ≡ true) s
    → p d ≡ false
    → while_char p (s ++ d ∷ r) ≡ (s, d ∷ r)
unfolding while_char
while_char-stops p [] d r h k = ground arith
while_char-stops p (c ∷ s) d r h k = ground (arith, while_char-stops p s d r h.1 k)

past_line-stops : (s r : Bytes) → All (λ d. d ≢ 10) s → past_line (s ++ 10 ∷ r) ≡ 10 ∷ r
unfolding past_line
past_line-stops [] r h = refl
past_line-stops (c ∷ s) r h = ground (arith, past_line-stops s r h.1)

past_comment-byte :
    (depth c : ℕ) (s : Bytes)
    → c ≢ b'*'
    → c ≢ b'/'
    → past_comment (suc depth) (c ∷ s) ≡ past_comment (suc depth) s
unfolding past_comment
past_comment-byte depth c [] h k = refl
past_comment-byte depth c (d ∷ s) h k = ground arith

past_comment-block :
    (b : Block) (depth : ℕ) (r : Bytes)
    → IsBlock b
    → past_comment (suc depth) (block_text b r) ≡ past_comment depth r
unfolding past_comment block_text IsBlock
past_comment-block ended depth r h = refl
past_comment-block (byte c b) depth r h =
    past_comment-byte depth c (block_text b r) h.0 h.1 ∙ past_comment-block b depth r h.2
past_comment-block (nested a b) depth r h =
    past_comment-block a (suc depth) (block_text b r) h.0 ∙ past_comment-block b depth r h.1

quoted-byte :
    (q c : ℕ) (s : Bytes)
    → (c == q) ≡ false
    → quoted q (c ∷ s) ≡ (c ∷ (quoted q s).0, (quoted q s).1)
unfolding quoted
quoted-byte q c [] h = ground arith
quoted-byte q c (d ∷ s) h = ground arith

quoted-escaped : (q : ℕ) (s r : Bytes) → q ≢ 32 → quoted q (escaped q s r) ≡ (s, 32 ∷ r)
unfolding quoted escaped
quoted-escaped q [] r h = ground arith
quoted-escaped q (c ∷ s) r h = elim (Bool-cases (c == q)) [
  | inl e ↦ ground (arith, quoted-escaped q s r h)
  | inr e ↦ ground (arith, quoted-byte q c (escaped q s r) e, quoted-escaped q s r h)
]

prefix_refl : (t r : Bytes) → has_prefix (t ++ r) t ≡ true
unfolding has_prefix
prefix_refl [] r = refl
prefix_refl (c ∷ t) r = ground (arith, prefix_refl t r)

drop_prefix : (t r : Bytes) → drop (length t) (t ++ r) ≡ r
drop_prefix [] r = refl
drop_prefix (c ∷ t) r = drop_prefix t r

prefix_miss : (c : ℕ) (s t : Bytes) → c ≢ b'$' → has_prefix (c ∷ s) (b'$' ∷ t) ≡ false
unfolding has_prefix
prefix_miss c s t h = ground arith

end_tag : (tag r : Bytes) → (tag ++ b'$' ∷ []) ++ r ≡ tag ++ b'$' ∷ r
end_tag [] r = refl
end_tag (c ∷ tag) r = ap (λ z. c ∷ z) (end_tag tag r)

past_first-body :
    (body t r : Bytes)
    → All (λ d. d ≢ b'$') body
    → past_first (b'$' ∷ t) (body ++ b'$' ∷ (t ++ r)) ≡ some r
unfolding past_first
past_first-body [] t r h = rw (prefix_refl (b'$' ∷ t) r) (ap some (drop_prefix t r))
past_first-body (c ∷ body) t r h =
    rw (prefix_miss c (body ++ b'$' ∷ (t ++ r)) t h.0) (past_first-body body t r h.1)

-- One turn of the loop reads a whole part.
past_dollar-part :
    (tag body r : Bytes)
    → All (λ d. word_char d ≡ true) tag
    → All (λ d. d ≢ b'$') body
    → past_dollar (tag ++ b'$' ∷ (body ++ b'$' ∷ (tag ++ b'$' ∷ r))) ≡ r
unfolding past_dollar
past_dollar-part tag body r h k =
    rw (while_char-stops word_char tag b'$' (body ++ b'$' ∷ (tag ++ b'$' ∷ r)) h refl)
      (rw (← end_tag tag r, past_first-body body (tag ++ b'$' ∷ []) r k) refl)

blank_turn : (c : ℕ) (r : Bytes) → (c ≡ 32) ⊎ (c ≡ 10) → next_token c r ≡ (none, r)
unfolding next_token
blank_turn c r h = ground arith

blank : (c : ℕ) (r : Bytes) → (c ≡ 32) ⊎ (c ≡ 10) → sql_tokens (c ∷ r) ≡ sql_tokens r
blank c r h = sql_tokens-loop c r ∙ ap (λ z. emit z.0 (sql_tokens z.1)) (blank_turn c r h)

ident-word : (c : ℕ) → word_char c ≡ true → ident_char c ≡ true
ident-word c h = ground arith

-- A byte of a word starts nothing else.
plain :
    (c : ℕ)
    → word_char c ≡ true
    → ((c == b'-') ≡ false)
      × ((c == b'/') ≡ false)
      × ((c == b'\'') ≡ false)
      × ((c == b'"') ≡ false)
      × ((c == b'$') ≡ false)
plain c h = ground arith

scans_word :
    (c : ℕ) (s : Bytes)
    → word_char c ≡ true
    → next_token c s ≡ word_of (while_char ident_char (c ∷ s))
unfolding next_token
scans_word c s h = let (a, b, d, e, f) = plain c h in rw (a, b, d, e, f, h) refl

word_turn :
    (c : ℕ) (s r : Bytes)
    → IsPart (word c s)
    → next_token c (s ++ 32 ∷ r) ≡ (some (map lower (c ∷ s)), 32 ∷ r)
word_turn c s r h =
    scans_word c (s ++ 32 ∷ r) h.0
    ∙ ap word_of (while_char-stops ident_char (c ∷ s) 32 r (ident-word c h.0, h.1) refl)

mark_turn : (c : ℕ) (r : Bytes) → IsPart (mark c) → next_token c r ≡ (some (c ∷ []), r)
unfolding next_token
mark_turn c r h = ground arith

reads :
    (p : Part) (r : Bytes)
    → IsPart p
    → sql_tokens (part_text p r) ≡ emit (part_token p) (sql_tokens r)
reads (word c s) r h =
    sql_tokens-loop c (s ++ 32 ∷ r)
    ∙ ap (λ z. emit z.0 (sql_tokens z.1)) (word_turn c s r h)
    ∙ ap (λ z. map lower (c ∷ s) ∷ z) (blank 32 r (inl refl))
reads (name s) r h =
    unfold next_token in
    sql_tokens-loop b'"' (escaped b'"' s r)
    ∙ ap (λ z. z.0 ∷ sql_tokens z.1) (quoted-escaped b'"' s r (λ e. omega arith))
    ∙ ap (λ z. s ∷ z) (blank 32 r (inl refl))
reads (literal s) r h =
    unfold next_token in
    sql_tokens-loop b'\'' (escaped b'\'' s r)
    ∙ ap (λ z. sql_tokens z.1) (quoted-escaped b'\'' s r (λ e. omega arith))
    ∙ blank 32 r (inl refl)
reads (line_comment s) r h =
    unfold next_token past_line in
    sql_tokens-loop b'-' (b'-' ∷ s ++ 10 ∷ r)
    ∙ ap sql_tokens (past_line-stops s r h)
    ∙ blank 10 r (inr refl)
reads (block_comment b) r h =
    unfold next_token past_comment in
    sql_tokens-loop b'/' (b'*' ∷ block_text b r) ∙ ap sql_tokens (past_comment-block b 0 r h)
reads (dollar tag body) r h =
    unfold next_token in
    sql_tokens-loop b'$' (tag ++ b'$' ∷ (body ++ b'$' ∷ (tag ++ b'$' ∷ r)))
    ∙ ap sql_tokens (past_dollar-part tag body r h.0 h.1)
reads (mark c) r h = sql_tokens-loop c r ∙ ap (λ z. emit z.0 (sql_tokens z.1)) (mark_turn c r h)

-- A script that is written from words, quoted names, strings, dollar quotes, comments (blocks nest)
-- and punctuation marks has as its tokens the words in lower case, the names as they stand between
-- the quotes, and the marks, in their order; what a comment, a string or a dollar quote holds adds none.
pub sql_tokens-script_text :
    (ps : List Part) → All IsPart ps → sql_tokens (script_text ps) ≡ part_tokens ps
unfolding script_text part_tokens sql_tokens
sql_tokens-script_text [] h = refl
sql_tokens-script_text (p ∷ ps) h =
    reads p (script_text ps) h.0 ∙ ap (emit (part_token p)) (sql_tokens-script_text ps h.1)
