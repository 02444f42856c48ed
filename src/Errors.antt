-- ===== src/Errors.antt =====
-- Go errors as values: the sentinel and driver errors of the repository, wrapping by
-- `fmt.Errorf("...: %w", err)`, `errors.Join`, `errors.Is`, and the result of a call.
use go_api_scaffolding.Common.{
  ◌≡◌, refl, ◌⊎◌, inl, inr, Bool, true, false, ◌||◌, String, Bytes, List, [], ◌∷◌, Option, none,
  some,
}

-- What an error is at its root. `failed` is any failure of a driver, a file or a codec that the
-- code does not tell apart.
pub data Cause : Type 0 where
  no_rows not_found forbidden reserved conflict canceled max_bytes eof failed : Cause

pub data Error : Type 0 where
  cause : Cause → Error
  rejected : Bytes → Error
  wrap : String → Error → Error
  join : Error → Error → Error

abbrev same_cause : Cause → Cause → Bool
same_cause no_rows no_rows = true
same_cause not_found not_found = true
same_cause forbidden forbidden = true
same_cause reserved reserved = true
same_cause conflict conflict = true
same_cause canceled canceled = true
same_cause max_bytes max_bytes = true
same_cause eof eof = true
same_cause failed failed = true
same_cause _ _ = false

-- errors.Is (and errors.As, for the one error type that the code looks for)
abbrev pub is : Error → Cause → Bool
is (cause c) t = same_cause c t
is (rejected msg) t = false
is (wrap msg e) t = is e t
is (join e f) t = is e t || is f t

-- errors.Join: nil when there is no error.
abbrev pub join_all : List Error → Option Error
join_all [] = none
join_all (e ∷ es) = some (elim (join_all es) [ none ↦ e | some f ↦ join e f ])

-- `panic` stands for a call that panicked.
pub data Result {ℓ} (A : Type ℓ) : Type ℓ where
  ok : A → Result A
  err : Error → Result A
  panic : Result A

pub Result-cases {ℓ} :
    {A : Type ℓ} (r : Result A)
    → ((a : A) × (r ≡ ok a)) ⊎ (((e : Error) × (r ≡ err e)) ⊎ (r ≡ panic))
Result-cases (ok a) = inl (a, refl)
Result-cases (err e) = inr (inl (e, refl))
Result-cases panic = inr (inr refl)

pub ok_injective {ℓ} : {A : Type ℓ} {a b : A} → ok a ≡ ok b → a ≡ b
ok_injective e = cc
