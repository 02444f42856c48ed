-- ===== src/Forge/Laws/Writes.antt =====
-- What one write of a change does to the files, by what its operations do.
use go_api_scaffolding.Common.{
  ◌≡◌, refl, ap, sym, ◌∙◌, subst, ◌⊎◌, inl, inr, Bool, true, false, not, ◌&&◌, Bytes, [], Option,
  none, some, same, same_sound, same_refl, if◌then◌else◌, arith,
}
use go_api_scaffolding.Errors.{Error}
use go_api_scaffolding.Forge.Changes.{
  File, Files, Change, Disk, put, works, later, try, Answer, io_error, end_new, open_new, write_new,
  rename, replace, write_change, undo,
}

ext : {f g : Files} → ((p : Bytes) → f p ≡ g p) → f ≡ g
ext h = λ i p. h p i

pub put-at :
    (path p : Bytes) (v : Option File) (files : Files) (b : Bool)
    → same path p ≡ b
    → put path v files p ≡ (if b then v else files p)
put-at path p v files b e = ap (λ z. if z then v else files p) e

put-put :
    (path : Bytes) (u v : Option File) (files : Files)
    → files path ≡ v
    → put path v (put path u files) ≡ files
put-put path u v files h = ext (λ p. by_test p (same path p) refl)
  where
    by_test : (p : Bytes) (b : Bool) → same path p ≡ b → put path v (put path u files) p ≡ files p
    by_test p true hit =
        put-at path p v (put path u files) true hit ∙ (sym h ∙ ap files (same_sound path p hit))
    by_test p false miss =
        put-at path p v (put path u files) false miss ∙ put-at path p u files false miss

-- What a change was prepared from: an old file is as it was read.
abbrev pub Prepared : Files → Change → Type 0
Prepared files c = (c.exists ≡ false) ⊎ (files c.path ≡ some (c.previous, c.mode))

abbrev pub written : Change → Files → Files
written c files = put c.path (some (c.content, c.mode)) files

-- A change was made, and undoing it gives the files back; or it failed and changed nothing.
abbrev pub Made : Change → Files → Answer → Type 0
Made c files r =
    (r.1.undo_fails ≡ [])
    × (((r.0 ≡ none) × (r.1.files ≡ written c files) × (undo c (written c files) ≡ files))
        ⊎ ((e : Error) × (r.0 ≡ some e) × (r.1.files ≡ files)))

try-any :
    {A : Type 0} (P : A → Type 0) (d : Disk) (k : Bool → Disk → A)
    → ((b : Bool) (e : Disk) → e.files ≡ d.files → e.undo_fails ≡ d.undo_fails → P (k b e))
    → P (try d k)
try-any P d k h = h (works d.fails) (record d { fails = later d.fails }) refl refl

failed-Made :
    (c : Change) (files : Files) (d : Disk)
    → d.files ≡ files
    → d.undo_fails ≡ []
    → Made c files (some io_error, d)
failed-Made c files d f u = (u, inr (io_error, refl, f))

undo-new :
    (c : Change) (files : Files)
    → c.exists ≡ false
    → files c.path ≡ none
    → undo c (written c files) ≡ files
undo-new c files new absent = rw new (put-put c.path _ none files absent)

undo-old :
    (c : Change) (files : Files)
    → c.exists ≡ true
    → files c.path ≡ some (c.previous, c.mode)
    → undo c (written c files) ≡ files
undo-old c files old present =
    rw (old, same_refl c.path) (put-put c.path _ (some (c.previous, c.mode)) files present)

end_new-Made :
    (c : Change) (files : Files) (b : Bool) (d : Disk)
    → c.exists ≡ false
    → files c.path ≡ none
    → d.files ≡ written c files
    → d.undo_fails ≡ []
    → Made c files (end_new c b d)
end_new-Made c files true d new absent f u = (u, inl (refl, f, undo-new c files new absent))
end_new-Made c files false d new absent f u =
    rw u (refl, inr (io_error, refl, ap (put c.path none) f ∙ put-put c.path _ none files absent))

open_new-Made :
    (c : Change) (files : Files) (o : Option File) (b : Bool) (d : Disk)
    → c.exists ≡ false
    → files c.path ≡ o
    → d.files ≡ files
    → d.undo_fails ≡ []
    → Made c files (open_new c o b d)
open_new-Made c files none true d new absent f u =
    let made = record d { files = written c d.files } in
    try-any (Made c files) made (λ wrote e. try e (λ closed g. end_new c (wrote && closed) g))
      λ wrote e fe ue.
        try-any (Made c files) e (λ closed g. end_new c (wrote && closed) g)
          λ closed g fg ug.
            end_new-Made c files (wrote && closed) g new absent (fg ∙ (fe ∙ ap (written c) f))
              (ug ∙ (ue ∙ u))
open_new-Made c files none false d new absent f u = failed-Made c files d f u
open_new-Made c files (some file) b d new taken f u = failed-Made c files d f u

rename-Made :
    (c : Change) (files : Files) (b : Bool) (d : Disk)
    → c.exists ≡ true
    → files c.path ≡ some (c.previous, c.mode)
    → d.files ≡ files
    → d.undo_fails ≡ []
    → Made c files (rename c b d)
rename-Made c files true d old present f u =
    (u, inl (refl, ap (written c) f, undo-old c files old present))
rename-Made c files false d old present f u = failed-Made c files d f u

replace-Made :
    (c : Change) (files : Files) (d : Disk)
    → c.exists ≡ true
    → files c.path ≡ some (c.previous, c.mode)
    → d.files ≡ files
    → d.undo_fails ≡ []
    → Made c files (replace c d)
replace-Made c files d old present f u =
    try-any (Made c files) d (λ created e. guarded created e (changing e))
      λ b e fe ue.
        guarded-Made b e (changing e) (fe ∙ f) (ue ∙ u) (changing-Made e (fe ∙ f) (ue ∙ u))
  where
    guarded : Bool → Disk → Answer → Answer
    guarded b e r = if not b then (some io_error, e) else r

    closing : Bool → Bool → Disk → Answer
    closing b closed h = if b && closed then try h (rename c) else (some io_error, h)

    writing : Disk → Answer
    writing e = try e (λ b g. try g (closing b))

    changing : Disk → Answer
    changing e = try e (λ changed g. guarded changed g (writing g))

    guarded-Made :
        (b : Bool) (e : Disk) (r : Answer)
        → e.files ≡ files
        → e.undo_fails ≡ []
        → Made c files r
        → Made c files (guarded b e r)
    guarded-Made true e r fe ue h = h
    guarded-Made false e r fe ue h = failed-Made c files e fe ue

    renamed :
        (b : Bool) (e : Disk)
        → e.files ≡ files
        → e.undo_fails ≡ []
        → Made c files (if b then try e (rename c) else (some io_error, e))
    renamed true e fe ue =
        try-any (Made c files) e (rename c)
          λ b g fg ug. rename-Made c files b g old present (fg ∙ fe) (ug ∙ ue)
    renamed false e fe ue = failed-Made c files e fe ue

    writing-Made : (e : Disk) → e.files ≡ files → e.undo_fails ≡ [] → Made c files (writing e)
    writing-Made e fe ue =
        try-any (Made c files) e (λ b g. try g (closing b))
          λ b g fg ug.
            try-any (Made c files) g (closing b)
              λ closed h fh uh. renamed (b && closed) h (fh ∙ (fg ∙ fe)) (uh ∙ (ug ∙ ue))

    changing-Made : (e : Disk) → e.files ≡ files → e.undo_fails ≡ [] → Made c files (changing e)
    changing-Made e fe ue =
        try-any (Made c files) e (λ changed g. guarded changed g (writing g))
          λ b g fg ug.
            guarded-Made b g (writing g) (fg ∙ fe) (ug ∙ ue) (writing-Made g (fg ∙ fe) (ug ∙ ue))

pub write_change-Made :
    (c : Change) (files : Files) (d : Disk)
    → Prepared files c
    → d.files ≡ files
    → d.undo_fails ≡ []
    → Made c files (write_change c d)
unfolding write_change
write_change-Made c files d prepared f u =
    try-any (Made c files) d
      (λ made e.
        if made then (if c.exists then replace c e else write_new c e) else (some io_error, e))
      λ made e fe ue. by_kind made e (fe ∙ f) (ue ∙ u) c.exists refl
  where
    old_file : Prepared files c → c.exists ≡ true → files c.path ≡ some (c.previous, c.mode)
    old_file (inl new) old = ground arith
    old_file (inr there) old = there

    new_Made :
        (e : Disk)
        → c.exists ≡ false
        → e.files ≡ files
        → e.undo_fails ≡ []
        → Made c files (write_new c e)
    new_Made e new fe ue =
        try-any (Made c files) e (λ opened g. open_new c (g.files c.path) opened g)
          λ b g fg ug.
            open_new-Made c files (g.files c.path) b g new
              (sym (ap (λ (fs : Files). fs c.path) (fg ∙ fe))) (fg ∙ fe) (ug ∙ ue)

    by_kind :
        (made : Bool) (e : Disk)
        → e.files ≡ files
        → e.undo_fails ≡ []
        → (k : Bool) → c.exists ≡ k
        → Made c files
            (if made then (if c.exists then replace c e else write_new c e) else (some io_error, e))
    by_kind false e fe ue k kind = failed-Made c files e fe ue
    by_kind true e fe ue true old =
        subst (λ b. Made c files (if b then replace c e else write_new c e)) (sym old)
          (replace-Made c files e old (old_file prepared old) fe ue)
    by_kind true e fe ue false new =
        subst (λ b. Made c files (if b then replace c e else write_new c e)) (sym new)
          (new_Made e new fe ue)
