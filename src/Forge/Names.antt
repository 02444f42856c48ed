-- ===== src/Forge/Names.antt =====
-- cmd/forge/main.go: the names of a resource, and the options of sqlc.yaml. A text is a list of
-- runes; the classes of runes are those of the package unicode.
use go_api_scaffolding.Common.{
  ℕ, ◌-◌, Bool, true, false, not, ◌&&◌, ◌||◌, Bytes, codes, List, [], ◌∷◌, ◌++◌, Option, none, some,
  map, any, same, has_prefix, has_suffix, contains, length, take, drop, ◌==◌, if◌then◌else◌,
}
use go_api_scaffolding.Errors.{Result, ok, err, panic, rejected}
use go_api_scaffolding.Forge.Migrations.{Entry}

pub record Unicode : Type 0 where
  pub is_upper : ℕ → Bool
  pub is_lower : ℕ → Bool
  pub is_letter : ℕ → Bool
  pub is_digit : ℕ → Bool
  pub to_upper : ℕ → ℕ
  pub to_lower : ℕ → ℕ

abbrev pub is_part : Unicode → ℕ → Bool
is_part u r = u.is_letter r || u.is_digit r

abbrev pub next_lower : Unicode → Bytes → Bool
next_lower u [] = false
next_lower u (r ∷ rs) = u.is_lower r

-- flush: the word that is being read, in lower case, before the words that follow.
abbrev pub flush : Unicode → Bytes → List Bytes → List Bytes
flush u [] words = words
flush u (r ∷ cur) words = map u.to_lower (r ∷ cur) ∷ words

-- The loop over the runes; `prev_upper` is about the rune before.
unfoldable pub split_from : Unicode → Bool → Bytes → Bytes → List Bytes
split_from u prev_upper cur [] = flush u cur []
split_from u prev_upper cur (r ∷ rs) =
    let new_word = flush u cur (split_from u true (r ∷ []) rs) in
    let acronym = split_from u true (cur ++ r ∷ []) rs in
    let longer = split_from u false (cur ++ r ∷ []) rs in
    let separated = flush u cur (split_from u false [] rs) in
    if u.is_upper r
    then (if not prev_upper || next_lower u rs then new_word else acronym)
    else if is_part u r
    then longer
    else separated

-- Words that do not start with a letter are no name.
abbrev pub starts_letter : Unicode → List Bytes → Bool
starts_letter u [] = false
starts_letter u ([] ∷ words) = false
starts_letter u ((r ∷ w) ∷ words) = u.is_letter r

abbrev pub checked_words : Unicode → List Bytes → List Bytes
checked_words u words = if starts_letter u words then words else []

unfoldable pub split_words : Unicode → Bytes → List Bytes
unfolding split_from
split_words u s = checked_words u (split_from u false [] s)

unfoldable pub is_initialism : Bytes → Bool
unfolding contains
is_initialism word =
    contains
      (codes
        " ACL API ASCII CPU CSS DNS EOF GUID HTML HTTP HTTPS ID IP JSON QPS RAM RPC SLA SMTP SQL SSH TCP TLS TTL UDP UI UID UUID URI URL UTF8 VM XML XMPP XSRF XSS ")
      (32 ∷ word ++ 32 ∷ [])

-- strings.TrimSuffix
abbrev pub trim_suffix : Bytes → Bytes → Bytes
trim_suffix s t = if has_suffix s t then take (length s - length t) s else s

abbrev pub first_upper : Unicode → Bytes → Bytes
first_upper u [] = []
first_upper u (r ∷ w) = u.to_upper r ∷ w

abbrev pub pascal_word : Unicode → Bytes → Bytes
pascal_word u w =
    let upper = map u.to_upper w in
    if is_initialism upper
    then upper
    else if has_suffix w (codes "s") && is_initialism (trim_suffix upper (codes "S"))
    then trim_suffix upper (codes "S") ++ codes "s"
    else first_upper u w

unfoldable pub to_pascal : Unicode → List Bytes → Bytes
unfolding is_initialism has_suffix
to_pascal u [] = []
to_pascal u (w ∷ words) = pascal_word u w ++ to_pascal u words

abbrev pub is_vowel : ℕ → Bool
is_vowel c = c == b'a' || c == b'e' || c == b'i' || c == b'o' || c == b'u'

-- The rune before the last one.
unfoldable pub before_last : Bytes → Option ℕ
before_last [] = none
before_last (c ∷ []) = none
before_last (c ∷ d ∷ []) = some c
before_last (c ∷ d ∷ e ∷ s) = before_last (d ∷ e ∷ s)

abbrev pub after_consonant : Option ℕ → Bool
after_consonant none = false
after_consonant (some c) = not (is_vowel c)

unfoldable pub pluralize : Bytes → Bytes
unfolding has_suffix before_last
pluralize snake =
    if same snake []
    then []
    else if has_suffix snake (codes "s")
        || has_suffix snake (codes "x")
        || has_suffix snake (codes "z")
        || has_suffix snake (codes "ch")
        || has_suffix snake (codes "sh")
    then snake ++ codes "es"
    else if has_suffix snake (codes "y") && after_consonant (before_last snake)
    then take (length snake - 1) snake ++ codes "ies"
    else snake ++ codes "s"

-- strings.Join with an underscore
unfoldable pub join_words : List Bytes → Bytes
join_words [] = []
join_words (w ∷ []) = w
join_words (w ∷ v ∷ words) = w ++ b'_' ∷ join_words (v ∷ words)

pub record Resource : Type 0 where
  pub pascal : Bytes
  pub plural : Bytes
  pub camel : Bytes
  pub snake : Bytes
  pub table : Bytes
  pub mod_path : Bytes
  pub outbox : Bool
  pub idempotency : Bool

abbrev pub is_source : Entry → Bool
is_source e =
    not e.is_dir
    && has_suffix e.name (codes ".go")
    && not (has_suffix e.name (codes "_test.go"))
    && not (has_prefix e.name (codes "_"))
    && not (has_prefix e.name (codes "."))

unfoldable pub has_package_sources : Result (List Entry) → Bool
unfolding has_suffix has_prefix
has_package_sources (ok entries) = any is_source entries
has_package_sources (err e) = false
has_package_sources panic = false

abbrev pub camel_case : Unicode → List Bytes → Bytes
camel_case u [] = []
camel_case u (w ∷ words) = w ++ to_pascal u words

-- The module path, and the directories of the two slices, are read by the caller.
unfoldable pub new_resource :
    Unicode → Bytes → Result (List Entry) → Result (List Entry) → Bytes → Resource
unfolding split_words to_pascal pluralize join_words has_package_sources
new_resource u module_path outbox idempotency name =
    let words = split_words u name in
    let snake = join_words words in
    record {
      pascal = to_pascal u words;
      plural = to_pascal u (split_words u (pluralize snake));
      camel = camel_case u words;
      snake = snake;
      table = pluralize snake;
      mod_path = module_path;
      outbox = has_package_sources outbox;
      idempotency = has_package_sources idempotency;
    }

-- What stands before the first occurrence of a text, and what follows it.
unfoldable pub split_at : Bytes → Bytes → Option (Bytes × Bytes)
unfolding has_prefix
split_at t [] = if has_prefix [] t then some ([], []) else none
split_at t (c ∷ s) = elim (split_at t s) [
  | none ↦ if has_prefix (c ∷ s) t then some ([], drop (length t) (c ∷ s)) else none
  | some (front, rest) ↦
      if has_prefix (c ∷ s) t then some ([], drop (length t) (c ∷ s)) else some (c ∷ front, rest)
]

abbrev pub under_go : Bytes → Bytes → Option (Bytes × Bytes) → Result Bytes
under_go header line none = err (rejected (codes "no gen.go block found"))
under_go header line (some (front, rest)) =
    ok (front ++ codes "      go:\n" ++ header ++ line ++ rest)

abbrev pub under_key :
    Bytes → Bytes → Bytes → Option (Bytes × Bytes) → Option (Bytes × Bytes) → Result Bytes
under_key src header line none go_block = under_go header line go_block
under_key src header line (some (front, rest)) go_block =
    if contains rest line then ok src else ok (front ++ header ++ line ++ rest)

unfoldable pub add_go_option : Bytes → Bytes → Bytes → Result Bytes
unfolding split_at contains
add_go_option src key entry =
    let line = codes "          " ++ entry ++ codes "\n" in
    let header = codes "        " ++ key ++ codes ":\n" in
    under_key src header line (split_at header src) (split_at (codes "      go:\n") src)
