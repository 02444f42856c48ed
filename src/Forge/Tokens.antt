-- ===== src/Forge/Tokens.antt =====
-- cmd/forge/resource_schema.go: sqlTokens, the scanner that finds the identifiers of a migration.
-- A text is the rest of the source from the position of the scan.
use go_api_scaffolding.Common.{
  ℕ, zero, suc, Bool, ◌&&◌, ◌||◌, Bytes, codes, List, [], ◌∷◌, ◌++◌, Option, none, some, has_prefix,
  drop, length, lower, map, leb, ◌==◌, if◌then◌else◌,
}

abbrev pub word_char : ℕ → Bool
word_char c =
    c == b'_'
    || (leb b'a' c && leb c b'z')
    || (leb b'A' c && leb c b'Z')
    || (leb b'0' c && leb c b'9')

abbrev pub ident_char : ℕ → Bool
ident_char c =
    c == b'_'
    || c == b'$'
    || (leb b'a' c && leb c b'z')
    || (leb b'A' c && leb c b'Z')
    || (leb b'0' c && leb c b'9')

abbrev pub punctuation : ℕ → Bool
punctuation c = c == b'.' || c == b';' || c == b',' || c == b'(' || c == b')'

-- The longest front whose bytes pass, and what follows it.
unfoldable pub while_char : (ℕ → Bool) → Bytes → Bytes × Bytes
while_char p [] = ([], [])
while_char p (c ∷ s) =
    let (front, rest) = while_char p s in if p c then (c ∷ front, rest) else ([], c ∷ s)

unfoldable pub past_line : Bytes → Bytes
past_line [] = []
past_line (c ∷ s) = if c == 10 then c ∷ s else past_line s

-- The loop over a comment that `depth` openings are still open of.
unfoldable pub past_comment : ℕ → Bytes → Bytes
past_comment zero s = s
past_comment (suc depth) [] = []
past_comment (suc depth) (c ∷ []) = []
past_comment (suc depth) (c ∷ d ∷ s) =
    let deeper = past_comment (suc (suc depth)) s in
    let closed = past_comment depth s in
    let further = past_comment (suc depth) (d ∷ s) in
    if c == b'/' && d == b'*' then deeper else if c == b'*' && d == b'/' then closed else further

-- A quoted text behind its opening quote; a doubled quote stands for one.
unfoldable pub quoted : ℕ → Bytes → Bytes × Bytes
quoted q [] = ([], [])
quoted q (c ∷ []) = if c == q then ([], []) else (c ∷ [], [])
quoted q (c ∷ d ∷ s) =
    let (doubled, rest) = quoted q s in
    let (value, rest') = quoted q (d ∷ s) in
    if c == q then (if d == q then (d ∷ doubled, rest) else ([], d ∷ s)) else (c ∷ value, rest')

-- What follows the first occurrence of a text: strings.Index.
unfoldable pub past_first : Bytes → Bytes → Option Bytes
past_first tag [] = if has_prefix [] tag then some [] else none
past_first tag (c ∷ s) =
    let later = past_first tag s in
    if has_prefix (c ∷ s) tag then some (drop (length tag) (c ∷ s)) else later

-- A dollar quote behind its first dollar; without an end, only the dollar is skipped.
abbrev pub closing : Bytes → Option Bytes → Bytes
closing s none = s
closing s (some rest) = rest

abbrev pub dollar_quoted : Bytes → Bytes × Bytes → Bytes
dollar_quoted s (tag, []) = s
dollar_quoted s (tag, c ∷ body) =
    if c == b'$' then closing s (past_first (b'$' ∷ tag ++ b'$' ∷ []) body) else s

unfoldable pub past_dollar : Bytes → Bytes
unfolding while_char past_first
past_dollar s = dollar_quoted s (while_char word_char s)

-- One turn of the loop, at a source that is not at its end: the token it adds, and the rest.
abbrev pub name_if : Bool → Bytes × Bytes → Option Bytes × Bytes
name_if is_name (value, rest) = (if is_name then some value else none, rest)

abbrev pub word_of : Bytes × Bytes → Option Bytes × Bytes
word_of (word, rest) = (some (map lower word), rest)

unfoldable pub next_token : ℕ → Bytes → Option Bytes × Bytes
unfolding while_char past_line past_comment quoted past_dollar has_prefix lower
next_token c s =
    if has_prefix (c ∷ s) (codes "--")
    then (none, past_line (c ∷ s))
    else if has_prefix (c ∷ s) (codes "/*")
    then (none, past_comment 1 (drop 1 s))
    else if c == b'\'' || c == b'"'
    then name_if (c == b'"') (quoted c s)
    else if c == b'$'
    then (none, past_dollar s)
    else if word_char c
    then word_of (while_char ident_char (c ∷ s))
    else (if punctuation c then some (c ∷ []) else none, s)

abbrev pub emit : Option Bytes → List Bytes → List Bytes
emit none tokens = tokens
emit (some token) tokens = token ∷ tokens

-- The loop, on fuel: one unit for each turn.
unfoldable pub tokens_within : ℕ → Bytes → List Bytes
unfolding next_token
tokens_within zero s = []
tokens_within (suc fuel) [] = []
tokens_within (suc fuel) (c ∷ s) =
    let (token, rest) = next_token c s in emit token (tokens_within fuel rest)

-- Each turn reads a byte at least, so that the length of the source is fuel enough.
unfoldable pub sql_tokens : Bytes → List Bytes
unfolding tokens_within
sql_tokens s = tokens_within (length s) s
