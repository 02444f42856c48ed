-- ===== src/Widgets/Laws/RowKey.antt =====
-- The stored key of an Idempotency-Key belongs to one subject and one key.
use go_api_scaffolding.Common.{ℕ, ◌≡◌, ◌≢◌, refl, Bytes, [], ◌∷◌, ◌++◌, All, All-append, arith}
use go_api_scaffolding.Widgets.Idempotent.{escape, escape_byte, idempotency_row_key}

escape_byte-no_colon : (c : ℕ) → All (λ b. b ≢ 58) (escape_byte c)
escape_byte-no_colon c = ground arith

escape-no_colon : (s : Bytes) → All (λ b. b ≢ 58) (escape s)
unfolding escape
escape-no_colon [] = tt
escape-no_colon (c ∷ s) =
    All-append _ (escape_byte c) (escape s) (escape_byte-no_colon c) (escape-no_colon s)

-- The first colon ends what stands before it.
split_at_colon :
    (xs ys : Bytes) (us vs : Bytes)
    → All (λ b. b ≢ 58) xs
    → All (λ b. b ≢ 58) ys
    → xs ++ 58 ∷ us ≡ ys ++ 58 ∷ vs
    → (xs ≡ ys) × (us ≡ vs)
split_at_colon [] [] us vs hx hy e = (refl, ground arith)
split_at_colon [] (y ∷ ys) us vs hx hy e = ground arith
split_at_colon (x ∷ xs) [] us vs hx hy e = ground arith
split_at_colon (x ∷ xs) (y ∷ ys) us vs (hx, hxs) (hy, hys) e =
    ground (arith, split_at_colon xs ys us vs hxs hys)

escape-injective : (s t : Bytes) → escape s ≡ escape t → s ≡ t
unfolding escape
escape-injective [] [] e = refl
escape-injective [] (d ∷ t) e = ground arith
escape-injective (c ∷ s) [] e = ground arith
escape-injective (c ∷ s) (d ∷ t) e = ground (arith, escape-injective s t)

-- Two callers never share a stored key: a stored key determines the subject and the key that the
-- client sent.
pub idempotency_row_key-injective :
    (subject subject' key key' : Bytes)
    → idempotency_row_key subject key ≡ idempotency_row_key subject' key'
    → (subject ≡ subject') × (key ≡ key')
unfolding idempotency_row_key
idempotency_row_key-injective subject subject' key key' e =
    let (escaped, rest) =
      split_at_colon (escape subject) (escape subject') key key' (escape-no_colon subject)
        (escape-no_colon subject') e in
    (escape-injective subject subject' escaped, rest)
