-- ===== src/Forge/Paths.antt =====
-- The functions of path/filepath that cmd/forge calls, on paths with slashes, and
-- validateRecoveryPath (init_recovery.go).
use go_api_scaffolding.Common.{
  Bool, not, ◌&&◌, ◌||◌, Bytes, codes, List, [], ◌∷◌, ◌++◌, any, same, has_prefix, to_lower, lower,
  ◌==◌, if◌then◌else◌,
}

-- The elements between the slashes; `cur` is the one that is being read.
unfoldable pub elements : Bytes → Bytes → List Bytes
elements cur [] = cur ∷ []
elements cur (c ∷ s) =
    let next = cur ∷ elements [] s in
    let longer = elements (cur ++ c ∷ []) s in if c == b'/' then next else longer

abbrev dot : Bytes
dot = codes "."

abbrev dots : Bytes
dots = codes ".."

abbrev pub is_rooted : Bytes → Bool
is_rooted path = has_prefix path (codes "/")

-- filepath.Clean on the elements: `kept` holds the ones that are kept, the last one first.
abbrev up : Bool → List Bytes → List Bytes
up rooted [] = if rooted then [] else dots ∷ []
up rooted (e ∷ kept) = if same e dots then dots ∷ e ∷ kept else kept

unfoldable pub cleaned : Bool → List Bytes → List Bytes → List Bytes
cleaned rooted kept [] = kept
cleaned rooted kept (e ∷ es) =
    let skipped = cleaned rooted kept es in
    let parent = cleaned rooted (up rooted kept) es in
    let deeper = cleaned rooted (e ∷ kept) es in
    if same e [] || same e dot then skipped else if same e dots then parent else deeper

unfoldable pub joined : List Bytes → Bytes
joined [] = []
joined (e ∷ []) = e
joined (e ∷ f ∷ es) = joined (f ∷ es) ++ b'/' ∷ e

abbrev pub or_dot : Bytes → Bytes
or_dot [] = dot
or_dot (c ∷ s) = c ∷ s

unfoldable pub clean : Bytes → Bytes
unfolding elements cleaned joined
clean path =
    let kept = joined (cleaned (is_rooted path) [] (elements [] path)) in
    if is_rooted path then b'/' ∷ kept else or_dot kept

-- filepath.IsLocal
abbrev has_dots : List Bytes → Bool
has_dots es = any (λ e. same e dot || same e dots) es

abbrev stays_inside : Bytes → Bool
stays_inside path = not (same path dots || has_prefix path (codes "../"))

unfoldable pub is_local : Bytes → Bool
unfolding clean has_prefix elements
is_local path =
    not (is_rooted path)
    && not (same path [])
    && stays_inside (if has_dots (elements [] path) then clean path else path)

-- filepath.Dir: what stands before the last slash, cleaned.
unfoldable pub up_to_slash : Bytes → Bytes
up_to_slash [] = []
up_to_slash (c ∷ s) = elim (up_to_slash s) [
  | [] ↦ if c == b'/' then c ∷ [] else []
  | d ∷ t ↦ c ∷ d ∷ t
]

unfoldable pub dir : Bytes → Bytes
unfolding up_to_slash clean
dir path = clean (up_to_slash path)

-- The first element of a path.
unfoldable pub first_element : Bytes → Bytes
first_element [] = []
first_element (c ∷ s) = if c == b'/' then [] else c ∷ first_element s

unfoldable pub recovery_directory : Bytes
recovery_directory = codes ".forge-init-recovery"

-- validateRecoveryPath: is the path accepted?
unfoldable pub validate_recovery_path : Bytes → Bool
unfolding is_local clean first_element recovery_directory has_prefix lower
validate_recovery_path name =
    let first = to_lower (first_element (clean name)) in
    is_local name
    && not (same (clean name) dot)
    && not (same first (codes ".git"))
    && not (same first recovery_directory)
    && not (has_prefix first (codes ".forge-init-backup-"))
