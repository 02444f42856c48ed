-- ===== src/Examples/Forge.antt =====
-- The theorems on the scaffolding command at concrete files.
use go_api_scaffolding.Common.{
  ◌≡◌, refl, inl, inr, Bool, true, false, Bytes, codes, List, [], ◌∷◌, none, some, same, has_prefix,
}
use go_api_scaffolding.Errors.{ok}
use go_api_scaffolding.Forge.Strip.{
  strip_lines, tidy, find_marker, marker_at, letters, starts_word, past_letters, is_slice,
  is_derived,
}
use go_api_scaffolding.Forge.Laws.Strip.{
  Blocks, finished, line, fence, lines_of, kept, IsScaffold, strip_lines-lines_of,
}
use go_api_scaffolding.Forge.Changes.{Files, Change, Disk, put, apply_changes}
use go_api_scaffolding.Forge.Laws.Changes.{AllOrNone, all_written, apply_changes-AllOrNone}

abbrev dropped : Bytes → Bool
dropped name = same name (codes "otlp")

abbrev scaffold : Blocks
scaffold = line (codes "a") (
    fence (codes "admin") (codes "//forge:begin admin") (codes "//forge:end admin")
      (fence (codes "otlp") (codes "# forge:begin otlp") (codes "# forge:end otlp")
        (line (codes "b") finished) (line (codes "c") finished))
      finished)

strip_lines-lines_of_example :
    strip_lines dropped (lines_of scaffold) ≡ ok (tidy (kept dropped scaffold))
unfolding IsScaffold find_marker marker_at letters starts_word past_letters is_slice is_derived same
    has_prefix
strip_lines-lines_of_example =
    strip_lines-lines_of dropped scaffold
      (refl, (refl, refl, refl, (refl, refl, refl, (refl, tt), (refl, tt)), tt))

abbrev files : Files
files = put (codes "sqlc.yaml") (some (codes "old", 420)) (λ p. none)

-- The rename of the third change fails.
abbrev disk : Disk
disk = record {
  files = files;
  fails = false ∷ false ∷ false ∷ false ∷ false ∷ false ∷ false ∷ false ∷ true ∷ [];
  undo_fails = [];
}

abbrev changes : List Change
changes =
    record {
      path = codes "sqlc.yaml";
      content = codes "new";
      previous = codes "old";
      mode = 420;
      exists = true;
    }
    ∷ record {
      path = codes "store.go";
      content = codes "x";
      previous = [];
      mode = 384;
      exists = false;
    }
    ∷ []

apply_changes-AllOrNone_example :
    AllOrNone (all_written changes files) files (apply_changes changes disk)
unfolding same
apply_changes-AllOrNone_example =
    apply_changes-AllOrNone changes disk (inr refl, (refl, tt), (inl refl, tt, tt)) refl
