-- ===== src/Forge/Laws/Strip.antt =====
-- strip against the blocks that a scaffold file is made of.
use go_api_scaffolding.Common.{
  suc, ◌≡◌, refl, ap, sym, ◌∙◌, Bool, true, false, Bool-cases, inl, inr, Bytes, List, [], ◌∷◌, ◌++◌,
  none, some, same_refl, ◌==◌, if◌then◌else◌, arith,
}
use mathlib.Core.List.{append_assoc, append-nil}
use go_api_scaffolding.Errors.{ok}
use go_api_scaffolding.Forge.Strip.{
  begins, ends, find_marker, State, drops, is_known, close, step, and_then, run, tidy, finish_strip,
  strip_lines,
}

-- A file as lines and fenced blocks: a fence has its name, the lines of its markers, and the blocks
-- inside it.
pub data Blocks : Type 0 where
  finished : Blocks
  line : Bytes → Blocks → Blocks
  fence : Bytes → Bytes → Bytes → Blocks → Blocks → Blocks

unfoldable pub lines_of : Blocks → List Bytes
lines_of finished = []
lines_of (line l rest) = l ∷ lines_of rest
lines_of (fence name opening closing inner rest) =
    opening ∷ (lines_of inner ++ closing ∷ lines_of rest)

-- The lines outside every dropped block, without the lines of the markers.
unfoldable pub kept : (Bytes → Bool) → Blocks → Bytes
kept dropped finished = []
kept dropped (line l rest) = l ++ kept dropped rest
kept dropped (fence name opening closing inner rest) =
    (if drops dropped name then [] else kept dropped inner) ++ kept dropped rest

-- The lines read as what they stand for, and the markers have known names.
unfoldable pub IsScaffold : Blocks → Type 0
IsScaffold finished = Unit
IsScaffold (line l rest) = (find_marker false l ≡ none) × IsScaffold rest
IsScaffold (fence name opening closing inner rest) =
    (find_marker false opening ≡ some (begins name))
    × (find_marker false closing ≡ some (ends name))
    × (is_known name ≡ true)
    × IsScaffold inner
    × IsScaffold rest

-- A state in which a text was met: it is written where nothing is being skipped.
abbrev write : Bytes → State → State
write text st = record st { out = st.out ++ (if st.skipping == 0 then text else []) }

write-write : (s t : Bytes) (st : State) → write t (write s st) ≡ write (s ++ t) st
write-write s t st = elim (Bool-cases (st.skipping == 0)) [
  | inl here ↦ rw here (ap (λ o. record st { out = o }) (append_assoc st.out s t))
  | inr skipped ↦ rw skipped (ap (λ o. record st { out = o }) (append-nil (st.out ++ [])))
]

write-nil : (st : State) → write [] st ≡ st
write-nil st = ground (arith, append-nil st.out)

step-write :
    (dropped : Bytes → Bool) (l : Bytes) (st : State) → step dropped l st none ≡ ok (write l st)
step-write dropped l st = ground (arith, append-nil st.out)

abbrev opened : (Bytes → Bool) → Bytes → State → State
opened dropped name st = record st {
  stack = name ∷ st.stack;
  skipping = if drops dropped name then suc st.skipping else st.skipping;
}

close-opened :
    (dropped : Bytes → Bool) (name text : Bytes) (st : State)
    → close dropped name (write text (opened dropped name st)) (name ∷ st.stack)
      ≡ ok (write (if drops dropped name then [] else text) st)
close-opened dropped name text st = elim (Bool-cases (drops dropped name)) [
  | inl gone ↦ rw (gone, same_refl name) (ground arith)
  | inr stays ↦ rw (stays, same_refl name) refl
]

begin-opened :
    (dropped : Bytes → Bool) (name l : Bytes) (st : State)
    → is_known name ≡ true
    → step dropped l st (some (begins name)) ≡ ok (opened dropped name st)
begin-opened dropped name l st known = rw known refl

end-close :
    (dropped : Bytes → Bool) (name l : Bytes) (st : State)
    → is_known name ≡ true
    → step dropped l st (some (ends name)) ≡ close dropped name st st.stack
end-close dropped name l st known = rw known refl

run-lines_of :
    (dropped : Bytes → Bool) (b : Blocks) (rest : List Bytes) (st : State)
    → IsScaffold b
    → run dropped (lines_of b ++ rest) st ≡ run dropped rest (write (kept dropped b) st)
unfolding run lines_of kept IsScaffold
run-lines_of dropped finished rest st h = ap (run dropped rest) (sym (write-nil st))
run-lines_of dropped (line l b) rest st (plain, h) =
    ap (λ m. and_then (step dropped l st m) (run dropped (lines_of b ++ rest))) plain
    ∙ (ap (λ r. and_then r (run dropped (lines_of b ++ rest))) (step-write dropped l st)
        ∙ (run-lines_of dropped b rest (write l st) h
            ∙ ap (run dropped rest) (write-write l (kept dropped b) st)))
run-lines_of dropped (fence name opening closing inner b) rest st (o, c, known, hi, hb) =
    let after = lines_of b ++ rest in
    let inside = opened dropped name st in
    let inner_text = kept dropped inner in
    let text = if drops dropped name then [] else inner_text in
    let opening_step =
      ap (λ m. step dropped opening st m) o ∙ begin-opened dropped name opening st known in
    let closing_step =
      ap (λ m. step dropped closing (write inner_text inside) m) c
      ∙ end-close dropped name closing (write inner_text inside) known in
    ap (λ r. and_then r (run dropped ((lines_of inner ++ closing ∷ lines_of b) ++ rest)))
      opening_step
    ∙ (ap (λ ls. run dropped ls inside) (append_assoc (lines_of inner) (closing ∷ lines_of b) rest)
        ∙ (run-lines_of dropped inner (closing ∷ after) inside hi
            ∙ (ap (λ r. and_then r (run dropped after))
                  (closing_step ∙ close-opened dropped name inner_text st)
                ∙ (run-lines_of dropped b rest (write text st) hb
                    ∙ ap (run dropped rest) (write-write text (kept dropped b) st)))))

-- A scaffold file, as lines and nested blocks, is stripped without an error. What is left are
-- exactly the lines outside every dropped block, without the lines of the markers, and tidied up.
pub strip_lines-lines_of :
    (dropped : Bytes → Bool) (b : Blocks)
    → IsScaffold b
    → strip_lines dropped (lines_of b) ≡ ok (tidy (kept dropped b))
unfolding run
strip_lines-lines_of dropped b h =
    let start : State = record { out = []; stack = []; skipping = 0 } in
    ap (λ ls. finish_strip (run dropped ls start)) (sym (append-nil (lines_of b)))
    ∙ ap finish_strip (run-lines_of dropped b [] start h)
