-- ===== src/Examples/Publication.antt =====
-- The theorems on publication and recovery at a project of one file.
use go_api_scaffolding.Common.{
  ℕ, ◌≡◌, refl, ◌⊎◌, inr, true, codes, [], ◌∷◌, none, some, same, has_prefix, lower,
}
use go_api_scaffolding.Errors.{ok}
use go_api_scaffolding.Forge.Paths.{
  is_local, clean, elements, cleaned, joined, first_element, recovery_directory,
  validate_recovery_path,
}
use go_api_scaffolding.Forge.Changes.{Files, put}
use go_api_scaffolding.Forge.Publication.{
  Entries, Project, untouched, works, fails, dies, valid_names,
}
use go_api_scaffolding.Forge.Recovery.{recover_project, publish}
use go_api_scaffolding.Forge.Laws.Triples.{Post}
use go_api_scaffolding.Forge.Laws.Loops.{AreApart}
use go_api_scaffolding.Forge.Laws.Saving.{journal_of}
use go_api_scaffolding.Forge.Laws.Activation.{Published, Safe, Pending}
use go_api_scaffolding.Forge.Laws.Publishing.{Recovered, publish-Safe, recover_project-Pending}
use go_api_scaffolding.Forge.Laws.Completing.{recover_project-completes}

abbrev umask : ℕ → ℕ
umask mode = mode

abbrev before : Entries
before = (codes "a", (codes "old", 420)) ∷ []

abbrev after : Entries
after = (codes "b", (codes "new", 384)) ∷ []

abbrev files : Files
files = put (codes "a") (some (codes "old", 420)) (λ p. none)

-- The second call fails.
abbrev project : Project
project = record {
  files = files;
  journal = none;
  tracked = codes "a" ∷ [];
  answers = works ∷ fails untouched ∷ [];
}

publish-Safe_example :
    Post
      (Published files before after)
      (Safe files before after)
      (publish umask (codes "a" ∷ []) before after project)
unfolding AreApart same
publish-Safe_example =
    publish-Safe umask (codes "a" ∷ []) before after project (refl, tt) (refl, tt) (refl, tt) refl

-- A process that stopped at its first write.
abbrev stopped : Project
stopped = record {
  files = files;
  journal = some (journal_of true before after);
  tracked = codes "a" ∷ [];
  answers = works ∷ dies untouched ∷ [];
}

abbrev quiet : Project
quiet = record stopped { answers = [] }

recover_project-Pending_example :
    Post
      (Recovered files before after)
      (λ f j. Recovered files before after f j ⊎ Pending files before after f j)
      (recover_project umask stopped)
unfolding AreApart same valid_names validate_recovery_path is_local clean elements cleaned joined
    first_element recovery_directory has_prefix lower
recover_project-Pending_example =
    recover_project-Pending umask files before after stopped (refl, tt)
      ((refl, λ q a b. refl), ((refl, tt), (inr refl, tt)), refl)

recover_project-completes_example :
    ((recover_project umask quiet).0 ≡ ok tt)
    × ((recover_project umask quiet).1.files ≡ files)
    × ((recover_project umask quiet).1.journal ≡ none)
unfolding AreApart same valid_names validate_recovery_path is_local clean elements cleaned joined
    first_element recovery_directory has_prefix lower
recover_project-completes_example =
    recover_project-completes umask files before after quiet (refl, tt)
      ((refl, λ q a b. refl), ((refl, tt), (inr refl, tt)), refl) refl
