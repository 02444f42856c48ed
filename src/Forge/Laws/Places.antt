-- ===== src/Forge/Laws/Places.antt =====
-- The paths of a resource are pairwise different, so addResource makes all of its changes or none.
use go_api_scaffolding.Common.{
  ℕ, ◌-◌, ◌≡◌, ◌≢◌, refl, sym, ap, ◌∙◌, Bool, true, false, ◌||◌, Bytes, codes, List, [], ◌∷◌, ◌++◌,
  map, same, same_sound, same_refl, String, has_prefix, has_suffix, contains, length, take,
  length-append, if◌then◌else◌, arith,
}
use go_api_scaffolding.Forge.Names.{Resource}
use go_api_scaffolding.Forge.Checks.{domain_name, resource_domain_file}
use go_api_scaffolding.Forge.Laws.Adding.{AreApart, HasApartPaths, Settled, add_resource-Settled}
use go_api_scaffolding.Forge.Adding.{Checkout, Workspace, module_dir, add_resource}

same-append : (p s t : Bytes) → same (p ++ s) (p ++ t) ≡ same s t
unfolding same
same-append [] s t = refl
same-append (c ∷ p) s t = ground (arith, same-append p s t)

-- Different texts.
differ : (s t : Bytes) → s ≢ t → same s t ≡ false
differ s t h = by_test (same s t) refl
  where
    by_test : (b : Bool) → same s t ≡ b → same s t ≡ false
    by_test true e = absurd (h (same_sound s t e))
    by_test false e = e

has_suffix-append : (s t : Bytes) → has_suffix (s ++ t) t ≡ true
unfolding has_suffix
has_suffix-append [] [] = refl
has_suffix-append [] (c ∷ t) = rw (same_refl (c ∷ t)) refl
has_suffix-append (c ∷ s) t = ground (arith, has_suffix-append s t)

-- A text without its end.
abbrev without : ℕ → Bytes → Bytes
without n s = take (length s - n) s

take-append : (s t : Bytes) → take (length s) (s ++ t) ≡ s
take-append [] t = refl
take-append (c ∷ s) t = ap (λ z. c ∷ z) (take-append s t)

without-append : (s t : Bytes) → without (length t) (s ++ t) ≡ s
without-append s t = ap (λ n. take n (s ++ t)) (shorter s t) ∙ take-append s t
  where
    shorter : (s t : Bytes) → length (s ++ t) - length t ≡ length s
    shorter s t = omega (arith, length-append s t)

append_assoc : (s t u : Bytes) → (s ++ t) ++ u ≡ s ++ (t ++ u)
append_assoc [] t u = refl
append_assoc (c ∷ s) t u = ap (λ z. c ∷ z) (append_assoc s t u)

-- A name that is kept apart from the fixed ones.
abbrev is_kept_apart : Bytes → Bool
is_kept_apart snake =
    contains snake (codes "_")
    || same snake (codes "store")
    || same snake (codes "service")
    || same snake (codes "idempotent")

true_or_false : {A : Type 0} → true ≡ false → A
true_or_false e = cc

domain-apart :
    (snake file : Bytes)
    → has_suffix file (codes "_model.go") ≡ false
    → (is_kept_apart snake ≡ false → snake ++ codes ".go" ≢ file)
    → same (domain_name snake ++ codes ".go") file ≡ false
domain-apart snake file h k = by_kind (is_kept_apart snake) refl
  where
    by_kind :
        (b : Bool)
        → is_kept_apart snake ≡ b
        → same ((if b then snake ++ codes "_model" else snake) ++ codes ".go") file ≡ false
    by_kind true e = differ ((snake ++ codes "_model") ++ codes ".go") file (λ q. true_or_false (
        sym (has_suffix-append snake (codes "_model.go"))
        ∙ ap (λ z. has_suffix z (codes "_model.go"))
            (sym (append_assoc snake (codes "_model") (codes ".go")) ∙ q)
        ∙ h))
    by_kind false e = differ (snake ++ codes ".go") file (k e)

-- The stem of a fixed file is kept apart, or is no name of a resource.
stem : (snake file : Bytes) → snake ++ codes ".go" ≡ file → snake ≡ without 3 file
stem snake file q = sym (without-append snake (codes ".go")) ∙ ap (without 3) q

kept_stem :
    (snake file : Bytes)
    → is_kept_apart (without 3 file) ≡ true
    → is_kept_apart snake ≡ false
    → snake ++ codes ".go" ≢ file
kept_stem snake file h e q =
    true_or_false (sym h ∙ (ap is_kept_apart (sym (stem snake file q)) ∙ e))

-- The paths, with the files of the slice or without.
abbrev places : Resource → Bytes → Bool → List Bytes
places res version idempotent =
    map (λ (t : String × Bytes). t.1)
      (("domain.go.tmpl", module_dir res ++ resource_domain_file res)
        ∷ ("store.go.tmpl", module_dir res ++ codes "store.go")
        ∷ ("service.go.tmpl", module_dir res ++ codes "service.go")
        ∷ ("handler.go.tmpl", module_dir res ++ codes "handler.go")
        ∷ ("service_test.go.tmpl", module_dir res ++ codes "service_test.go")
        ∷ ("queries.sql.tmpl", module_dir res ++ codes "queries.sql")
        ∷ (
          "migration.sql.tmpl",
          codes "migrations/" ++ version ++ codes "_create_" ++ res.table ++ codes ".sql",
        )
        ∷ (if idempotent
            then ("idempotent.go.tmpl", module_dir res ++ codes "idempotent.go")
              ∷ ("idempotent_test.go.tmpl", module_dir res ++ codes "idempotent_test.go")
              ∷ []
            else []))
    ++ codes "sqlc.yaml" ∷ codes "api/openapi.yaml" ∷ codes "cmd/api/resources.go" ∷ []

module _ (res : Resource) (named : same res.snake (codes "handler") ≡ false) where
  fixed :
      (s t : String)
      → same (codes s) (codes t) ≡ false
      → same (module_dir res ++ codes s) (module_dir res ++ codes t) ≡ false
  fixed s t h = same-append (module_dir res) (codes s) (codes t) ∙ h

  domain :
      (file : String)
      → has_suffix (codes file) (codes "_model.go") ≡ false
      → (is_kept_apart res.snake ≡ false → res.snake ++ codes ".go" ≢ codes file)
      → same (module_dir res ++ resource_domain_file res) (module_dir res ++ codes file) ≡ false
  unfolding resource_domain_file
  domain file h k =
      same-append (module_dir res) (resource_domain_file res) (codes file)
      ∙ domain-apart res.snake (codes file) h k

  kept :
      (file : String)
      → has_suffix (codes file) (codes "_model.go") ≡ false
      → is_kept_apart (without 3 (codes file)) ≡ true
      → same (module_dir res ++ resource_domain_file res) (module_dir res ++ codes file) ≡ false
  kept file h k = domain file h (kept_stem res.snake (codes file) k)

  not_handler :
      same (module_dir res ++ resource_domain_file res) (module_dir res ++ codes "handler.go")
      ≡ false
  unfolding has_suffix
  not_handler = domain "handler.go" refl (λ e q. true_or_false (
      sym (same_refl (codes "handler"))
      ∙ ap (λ z. same z (codes "handler")) (sym (stem res.snake (codes "handler.go") q))
      ∙ named))

  not_queries :
      same (module_dir res ++ resource_domain_file res) (module_dir res ++ codes "queries.sql")
      ≡ false
  unfolding has_suffix
  not_queries = domain "queries.sql" refl (λ e q.
      true_or_false
        (sym (has_suffix-append res.snake (codes ".go")) ∙ ap (λ z. has_suffix z (codes ".go")) q))

  places-AreApart : (version : Bytes) (b : Bool) → AreApart (places res version b)
  unfolding same has_suffix contains has_prefix resource_domain_file
  places-AreApart version true = (
    (
      kept "store.go" refl refl,
      (
        kept "service.go" refl refl,
        (
          not_handler,
          (
            kept "service_test.go" refl refl,
            (
              not_queries,
              (
                refl,
                (
                  kept "idempotent.go" refl refl,
                  (kept "idempotent_test.go" refl refl, (refl, (refl, (refl, tt)))),
                ),
              ),
            ),
          ),
        ),
      ),
    ),
    (
      (
        fixed "store.go" "service.go" refl,
        (
          fixed "store.go" "handler.go" refl,
          (
            fixed "store.go" "service_test.go" refl,
            (
              fixed "store.go" "queries.sql" refl,
              (
                refl,
                (
                  fixed "store.go" "idempotent.go" refl,
                  (fixed "store.go" "idempotent_test.go" refl, (refl, (refl, (refl, tt)))),
                ),
              ),
            ),
          ),
        ),
      ),
      (
        (
          fixed "service.go" "handler.go" refl,
          (
            fixed "service.go" "service_test.go" refl,
            (
              fixed "service.go" "queries.sql" refl,
              (
                refl,
                (
                  fixed "service.go" "idempotent.go" refl,
                  (fixed "service.go" "idempotent_test.go" refl, (refl, (refl, (refl, tt)))),
                ),
              ),
            ),
          ),
        ),
        (
          (
            fixed "handler.go" "service_test.go" refl,
            (
              fixed "handler.go" "queries.sql" refl,
              (
                refl,
                (
                  fixed "handler.go" "idempotent.go" refl,
                  (fixed "handler.go" "idempotent_test.go" refl, (refl, (refl, (refl, tt)))),
                ),
              ),
            ),
          ),
          (
            (
              fixed "service_test.go" "queries.sql" refl,
              (
                refl,
                (
                  fixed "service_test.go" "idempotent.go" refl,
                  (fixed "service_test.go" "idempotent_test.go" refl, (refl, (refl, (refl, tt)))),
                ),
              ),
            ),
            (
              (
                refl,
                (
                  fixed "queries.sql" "idempotent.go" refl,
                  (fixed "queries.sql" "idempotent_test.go" refl, (refl, (refl, (refl, tt)))),
                ),
              ),
              (
                (refl, (refl, (refl, (refl, (refl, tt))))),
                (
                  (fixed "idempotent.go" "idempotent_test.go" refl, (refl, (refl, (refl, tt)))),
                  ((refl, (refl, (refl, tt))), ((refl, (refl, tt)), ((refl, tt), (tt, tt)))),
                ),
              ),
            ),
          ),
        ),
      ),
    ),
  )
  places-AreApart version false = (
    (
      kept "store.go" refl refl,
      (
        kept "service.go" refl refl,
        (
          not_handler,
          (kept "service_test.go" refl refl, (not_queries, (refl, (refl, (refl, (refl, tt)))))),
        ),
      ),
    ),
    (
      (
        fixed "store.go" "service.go" refl,
        (
          fixed "store.go" "handler.go" refl,
          (
            fixed "store.go" "service_test.go" refl,
            (fixed "store.go" "queries.sql" refl, (refl, (refl, (refl, (refl, tt))))),
          ),
        ),
      ),
      (
        (
          fixed "service.go" "handler.go" refl,
          (
            fixed "service.go" "service_test.go" refl,
            (fixed "service.go" "queries.sql" refl, (refl, (refl, (refl, (refl, tt))))),
          ),
        ),
        (
          (
            fixed "handler.go" "service_test.go" refl,
            (fixed "handler.go" "queries.sql" refl, (refl, (refl, (refl, (refl, tt))))),
          ),
          (
            (fixed "service_test.go" "queries.sql" refl, (refl, (refl, (refl, (refl, tt))))),
            (
              (refl, (refl, (refl, (refl, tt)))),
              ((refl, (refl, (refl, tt))), ((refl, (refl, tt)), ((refl, tt), (tt, tt)))),
            ),
          ),
        ),
      ),
    ),
  )

  pub paths-AreApart : (c : Checkout) → HasApartPaths c res
  paths-AreApart c version = places-AreApart version res.idempotency

-- For a resource that is not called handler (the name of a fixed file, which the names of the generated
-- API refuse), when the operations that take a write back do not fail: add_resource answers no error,
-- its checks and its plan have worked, no other generator held the lock, each file that it makes was
-- not there, and all the changes of the plan are written, or none of them in a dry run; or it answers
-- an error, and every file is as it was.
pub add_resource_lem :
    (c : Checkout) (res : Resource) (dry_run : Bool) (w : Workspace)
    → same res.snake (codes "handler") ≡ false
    → w.disk.undo_fails ≡ []
    → Settled c res dry_run w (add_resource c res dry_run w)
add_resource_lem c res dry_run w named u =
    add_resource-Settled c res dry_run w u (paths-AreApart res named c)
