-- ===== src/Forge/Strip.antt =====
-- cmd/forge/init.go: the markers of optional blocks, and strip, which removes the dropped ones.
use go_api_scaffolding.Common.{
  ℕ, suc, ◌-◌, Bool, false, ◌&&◌, ◌||◌, Bytes, String, codes, List, [], ◌∷◌, ◌++◌, Option, none,
  some, any, same, has_prefix, drop, leb, ltb, ◌==◌, if◌then◌else◌,
}
use go_api_scaffolding.Errors.{wrap, rejected, Result, ok, err, panic}

-- The names of the slices and of the derived slices.
abbrev pub slices : List String
slices = "example" ∷ "outbox" ∷ "idempotency" ∷ "otlp" ∷ "admin" ∷ []

abbrev pub derived : List String
derived = "workers" ∷ "sqlc" ∷ []

unfoldable pub is_slice : Bytes → Bool
is_slice name = any (λ s. same (codes s) name) slices

unfoldable pub is_derived : Bytes → Bool
is_derived name = any (λ s. same (codes s) name) derived

-- markerRe: \bforge:(begin|end) ([a-z]+)\b
pub data Marker : Type 0 where
  begins ends : Bytes → Marker

abbrev is_lower : ℕ → Bool
is_lower c = leb 97 c && leb c 122

abbrev is_word : ℕ → Bool
is_word c = is_lower c || (leb 65 c && leb c 90) || (leb 48 c && leb c 57) || c == 95

unfoldable pub letters : Bytes → Bytes
letters [] = []
letters (c ∷ s) = if is_lower c then c ∷ letters s else []

unfoldable pub starts_word : Bytes → Bool
starts_word [] = false
starts_word (c ∷ s) = is_word c

unfoldable pub past_letters : Bytes → Bytes
past_letters [] = []
past_letters (c ∷ s) = if is_lower c then past_letters s else c ∷ s

-- The name after the kind: as many letters as there are, and the end of a word behind them.
abbrev named : (Bytes → Marker) → Bytes → Option Marker
named kind s =
    if same (letters s) [] || starts_word (past_letters s) then none else some (kind (letters s))

unfoldable pub marker_at : Bytes → Option Marker
unfolding letters past_letters starts_word
marker_at s =
    if has_prefix s (codes "forge:begin ")
    then named begins (drop 12 s)
    else if has_prefix s (codes "forge:end ")
    then named ends (drop 10 s)
    else none

abbrev or_later : Option Marker → Option Marker → Option Marker
or_later (some m) later = some m
or_later none later = later

-- The first match in a line; `inside` tells that the byte before belongs to a word.
unfoldable pub find_marker : Bool → Bytes → Option Marker
unfolding marker_at
find_marker inside [] = none
find_marker inside (c ∷ s) =
    or_later (if inside then none else marker_at (c ∷ s)) (find_marker (is_word c) s)

-- What strip has written, the open blocks, and how many of them are being skipped.
pub record State : Type 0 where
  pub out : Bytes
  pub stack : List Bytes
  pub skipping : ℕ

abbrev pub drops : (Bytes → Bool) → Bytes → Bool
drops dropped name = dropped name || same name (codes "init")

abbrev pub is_known : Bytes → Bool
is_known name = is_slice name || is_derived name || same name (codes "init")

abbrev pub close : (Bytes → Bool) → Bytes → State → List Bytes → Result State
close dropped name st [] = err (wrap "end without matching begin" (rejected name))
close dropped name st (top ∷ stack) =
    if same top name
    then ok (record st {
      stack = stack;
      skipping = if drops dropped name then st.skipping - 1 else st.skipping;
    })
    else err (wrap "end without matching begin" (rejected name))

-- One line, by the marker in it.
abbrev pub step : (Bytes → Bool) → Bytes → State → Option Marker → Result State
step dropped line st none = ok (if st.skipping == 0 then record st { out = st.out ++ line } else st)
step dropped line st (some (begins name)) =
    if is_known name
    then ok (record st {
      stack = name ∷ st.stack;
      skipping = if drops dropped name then suc st.skipping else st.skipping;
    })
    else err (wrap "unknown marker" (rejected name))
step dropped line st (some (ends name)) =
    if is_known name
    then close dropped name st st.stack
    else err (wrap "unknown marker" (rejected name))

abbrev pub and_then : Result State → (State → Result State) → Result State
and_then (ok st) f = f st
and_then (err e) f = err e
and_then panic f = panic

-- The loop over the lines.
unfoldable pub run : (Bytes → Bool) → List Bytes → State → Result State
unfolding find_marker
run dropped [] st = ok st
run dropped (line ∷ lines) st =
    and_then (step dropped line st (find_marker false line)) (run dropped lines)

-- collapseBlankLines: `n` newlines stand before.
unfoldable pub collapse_blank_lines : ℕ → Bytes → Bytes
collapse_blank_lines n [] = []
collapse_blank_lines n (c ∷ s) =
    let kept = c ∷ collapse_blank_lines (suc n) s in
    let over = collapse_blank_lines n s in
    let other = c ∷ collapse_blank_lines 0 s in
    if c == 10 then (if ltb n 2 then kept else over) else other

unfoldable pub trim_newlines : Bytes → Bytes
trim_newlines [] = []
trim_newlines (c ∷ s) = let rest = trim_newlines s in if c == 10 then rest else c ∷ s

abbrev pub tidy : Bytes → Bytes
tidy out = trim_newlines (collapse_blank_lines 0 out)

abbrev pub finish_strip : Result State → Result Bytes
finish_strip (ok st) = elim (st.stack) [
  | [] ↦ ok (tidy st.out)
  | (name ∷ stack) ↦ err (wrap "begin without matching end" (rejected name))
]
finish_strip (err e) = err e
finish_strip panic = panic

abbrev pub strip_lines : (Bytes → Bool) → List Bytes → Result Bytes
strip_lines dropped lines =
    finish_strip (run dropped lines (record { out = []; stack = []; skipping = 0 }))

-- strings.SplitAfter at newlines, with the line that is being read
unfoldable pub split_after : Bytes → Bytes → List Bytes
split_after cur [] = cur ∷ []
split_after cur (c ∷ s) =
    let rest = split_after [] s in
    let longer = split_after (cur ++ c ∷ []) s in if c == 10 then (cur ++ c ∷ []) ∷ rest else longer

unfoldable pub strip : (Bytes → Bool) → Bytes → Result Bytes
strip dropped src = strip_lines dropped (split_after [] src)
