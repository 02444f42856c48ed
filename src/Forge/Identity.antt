-- ===== src/Forge/Identity.antt =====
-- cmd/forge/init.go: the identity of a project by its module path (unversionedModule to
-- composeProjectName), underAny, and lineReader. SHA-256 is a parameter.
use go_api_scaffolding.Common.{
  ℕ, zero, suc, ◌+◌, ◌-◌, ◌/◌, ◌%◌, Bool, true, false, not, ◌&&◌, ◌||◌, Bytes, codes, List, [], ◌∷◌,
  ◌++◌, Option, none, some, any, same, has_prefix, length, take, lower, to_lower, leb, ltb, ◌==◌,
  if◌then◌else◌,
}
use go_api_scaffolding.Forge.Paths.{dir}

abbrev pub is_small : ℕ → Bool
is_small c = leb b'a' c && leb c b'z'

abbrev pub is_figure : ℕ → Bool
is_figure c = leb b'0' c && leb c b'9'

-- The bytes that a name of a Compose project may have.
abbrev pub is_slug : ℕ → Bool
is_slug c = is_small c || is_figure c || c == b'_' || c == b'-'

-- path.Base, of a path that does not end in a slash: what stands behind the last slash.
abbrev behind : Bytes → Option Bytes → Bytes
behind s none = s
behind s (some t) = t

unfoldable pub past_slash : Bytes → Option Bytes
past_slash [] = none
past_slash (c ∷ s) = elim (past_slash s) [
  | none ↦ if c == b'/' then some s else none
  | some t ↦ some t
]

unfoldable pub base : Bytes → Bytes
unfolding past_slash
base path = behind path (past_slash path)

-- moduleMajorSuffix: v2 to v9, or v10 and on
abbrev is_major : Bytes → Bool
is_major [] = false
is_major (v ∷ []) = false
is_major (v ∷ d ∷ []) = v == b'v' && leb b'2' d && leb d b'9'
is_major (v ∷ d ∷ e ∷ s) =
    v == b'v' && leb b'1' d && leb d b'9' && not (any (λ c. not (is_figure c)) (e ∷ s))

unfoldable pub unversioned_module : Bytes → Bytes
unfolding base dir
unversioned_module path = if is_major (base path) then dir path else path

unfoldable pub project_name : Bytes → Bytes
unfolding base unversioned_module
project_name path = base (unversioned_module path)

-- [^a-z0-9_-]+ becomes one dash; `inside` tells that the byte before was in such a run.
unfoldable pub slug_from : Bool → Bytes → Bytes
slug_from inside [] = []
slug_from inside (c ∷ s) =
    let kept = c ∷ slug_from false s in
    let dashed = b'-' ∷ slug_from true s in
    let skipped = slug_from true s in if is_slug c then kept else if inside then skipped else dashed

abbrev pub is_edge : ℕ → Bool
is_edge c = c == b'-' || c == b'_'

-- strings.TrimLeft and TrimRight of "-_"
unfoldable pub trim_front : Bytes → Bytes
trim_front [] = []
trim_front (c ∷ s) = if is_edge c then trim_front s else c ∷ s

abbrev pub cons_unless_edge : ℕ → Bytes → Bytes
cons_unless_edge c [] = if is_edge c then [] else c ∷ []
cons_unless_edge c (d ∷ s) = c ∷ d ∷ s

unfoldable pub trim_back : Bytes → Bytes
trim_back [] = []
trim_back (c ∷ s) = cons_unless_edge c (trim_back s)

-- fmt's %x
abbrev pub figure : ℕ → ℕ
figure n = if ltb n 10 then b'0' + n else b'a' + (n - 10)

unfoldable pub hex : Bytes → Bytes
hex [] = []
hex (c ∷ s) = figure (c / 16 % 16) ∷ figure (c % 16) ∷ hex s

abbrev pub or_app : Bytes → Bytes
or_app [] = codes "app"
or_app (c ∷ s) = c ∷ s

abbrev pub shortened : Bytes → Bytes
shortened slug = if ltb 24 (length slug) then trim_back (take 24 slug) else slug

unfoldable pub compose_project_name : (Bytes → Bytes) → Bytes → Bytes
unfolding slug_from trim_front trim_back hex project_name lower
compose_project_name sum256 path =
    let slug = trim_back (trim_front (slug_from false (to_lower (project_name path)))) in
    or_app (shortened slug) ++ b'-' ∷ hex (take 6 (sum256 path))

unfoldable pub under_any : Bytes → List Bytes → Bool
unfolding has_prefix
under_any path prefixes = any (λ p. same path p || has_prefix path (p ++ codes "/")) prefixes

-- Read of a lineReader: what the reader below still has, and at most as many bytes as are asked for.
-- The end of the input is the error.
abbrev pub read_more : ℕ → Bytes × Bool × Bytes → Bytes × Bool × Bytes
read_more c (read, ended, rest) = (c ∷ read, ended, rest)

unfoldable pub read_line : ℕ → Bytes → Bytes × Bool × Bytes
read_line zero input = ([], false, input)
read_line (suc n) [] = ([], true, [])
read_line (suc n) (c ∷ input) =
    let more = read_more c (read_line n input) in if c == 10 then (c ∷ [], false, input) else more
