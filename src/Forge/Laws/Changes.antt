-- ===== src/Forge/Laws/Changes.antt =====
-- applyChanges makes all of its changes or none.
use go_api_scaffolding.Common.{
  ◌≡◌, refl, ap, ◌∙◌, ◌⊎◌, inl, inr, false, List, [], ◌∷◌, none, some, All, same,
}
use go_api_scaffolding.Errors.{Error, join_all}
use go_api_scaffolding.Forge.Changes.{
  Files, Change, Disk, Answer, write_change, undo, rollback, rolled_back, next_change, apply_from,
  apply_changes,
}
use go_api_scaffolding.Forge.Laws.Writes.{put-at, Prepared, written, Made, write_change-Made}

abbrev undo_all : List Change → Files → Files
undo_all [] files = files
undo_all (c ∷ applied) files = undo_all applied (undo c files)

rollback-undo_all :
    (applied : List Change) (d : Disk)
    → d.undo_fails ≡ []
    → ((rollback applied d).0 ≡ []) × ((rollback applied d).1.files ≡ undo_all applied d.files)
unfolding rollback
rollback-undo_all [] d u = (refl, refl)
rollback-undo_all (c ∷ applied) d u =
    rw u (rollback-undo_all applied (record d { files = undo c d.files; undo_fails = [] }) refl)

-- The files after all changes, and changes to different files that are prepared.
abbrev pub all_written : List Change → Files → Files
all_written [] files = files
all_written (c ∷ changes) files = all_written changes (written c files)

abbrev pub AreReady : Files → List Change → Type 0
AreReady files [] = Unit
AreReady files (c ∷ changes) =
    Prepared files c × All (λ d. same c.path d.path ≡ false) changes × AreReady files changes

AreReady-written :
    (c : Change) (files : Files) (changes : List Change)
    → All (λ d. same c.path d.path ≡ false) changes
    → AreReady files changes
    → AreReady (written c files) changes
AreReady-written c files [] apart ready = tt
AreReady-written c files (d ∷ changes) (other, apart) (prepared, distinct, ready) =
    (kept prepared, distinct, AreReady-written c files changes apart ready)
  where
    kept : Prepared files d → Prepared (written c files) d
    kept (inl new) = inl new
    kept (inr there) =
        inr (put-at c.path d.path (some (c.content, c.mode)) files false other ∙ there)

-- The end of a call: no error and the files after it, or an error and the files before it.
abbrev pub AllOrNone : Files → Files → Answer → Type 0
AllOrNone after before r =
    ((r.0 ≡ none) × (r.1.files ≡ after)) ⊎ ((e : Error) × (r.0 ≡ some e) × (r.1.files ≡ before))

joined : (e : Error) (errs : List Error) → errs ≡ [] → join_all (e ∷ errs) ≡ some e
joined e errs h = rw h refl

failed-AllOrNone :
    (applied : List Change) (after before files : Files) (x : Error) (d : Disk)
    → undo_all applied files ≡ before
    → d.files ≡ files
    → d.undo_fails ≡ []
    → AllOrNone after before (rolled_back x (rollback applied d))
failed-AllOrNone applied after before files x d base f u =
    let (errs, back) = rollback-undo_all applied d u in
    inr (x, joined x _ errs, back ∙ (ap (undo_all applied) f ∙ base))

apply_from-AllOrNone :
    (changes applied : List Change) (before files : Files) (d : Disk)
    → undo_all applied files ≡ before
    → AreReady files changes
    → d.files ≡ files
    → d.undo_fails ≡ []
    → AllOrNone (all_written changes files) before (apply_from applied changes d)
unfolding apply_from
apply_from-AllOrNone [] applied before files d base ready f u = inl (refl, f)
apply_from-AllOrNone (c ∷ changes) applied before files d base (prepared, apart, ready) f u =
    by_answer (write_change c d) (write_change-Made c files d prepared f u) (λ e back fe ue.
      apply_from-AllOrNone changes (c ∷ applied) before (written c files) e
        (ap (undo_all applied) back ∙ base) (AreReady-written c files changes apart ready) fe ue)
  where
    Goal : Answer → Type 0
    Goal r = AllOrNone (all_written changes (written c files)) before r

    by_answer :
        (r : Answer)
        → Made c files r
        → ((e : Disk)
            → undo c (written c files) ≡ files
            → e.files ≡ written c files
            → e.undo_fails ≡ []
            → Goal (apply_from (c ∷ applied) changes e))
        → Goal (next_change applied (apply_from (c ∷ applied) changes) r)
    by_answer (none, e) (ue, inl (o, fe, back)) rest = rest e back fe ue
    by_answer (none, e) (ue, inr (x, o, fe)) rest = cc
    by_answer (some x, e) (ue, inl (o, fe, back)) rest = cc
    by_answer (some x, e) (ue, inr (y, o, fe)) rest =
        failed-AllOrNone applied _ before files x e base fe ue

-- Changes to different files, each prepared from the file as it is, are made all or none, whichever
-- of the writes fails: without an error every file has its new content and permissions, and with
-- one every file is as it was. The operations that take a write back must not fail themselves.
pub apply_changes-AllOrNone :
    (changes : List Change) (d : Disk)
    → AreReady d.files changes
    → d.undo_fails ≡ []
    → AllOrNone (all_written changes d.files) d.files (apply_changes changes d)
unfolding apply_changes
apply_changes-AllOrNone changes d ready u =
    apply_from-AllOrNone changes [] d.files d.files d refl ready refl u
