-- ===== src/Idempotency/Laws.antt =====
-- Hash frames its parts so that no two lists of parts are written alike.
use go_api_scaffolding.Common.{
  ℕ, zero, suc, ◌*◌, ◌/◌, ◌%◌, ◌^◌, ◌≡◌, refl, ap, ap₂, sym, ◌≤◌, ◌∙◌, ◌<◌, Bytes, List, [], ◌∷◌,
  ◌++◌, length, length-append, All, append-cancel_length, arith,
}
use native.Mathlib.Nat.{pow-suc}
use go_api_scaffolding.Idempotency.{big_endian, frame}

length-big_endian : (width n : ℕ) → length (big_endian width n) ≡ width
unfolding big_endian
length-big_endian zero n = refl
length-big_endian (suc width) n = omega (
  arith,
  length-append (big_endian width (n / 256)) (n % 256 ∷ []),
  length-big_endian width (n / 256),
)

big_endian-injective :
    (width m n : ℕ)
    → m < 256 ^ width
    → n < 256 ^ width
    → big_endian width m ≡ big_endian width n
    → m ≡ n
unfolding big_endian
big_endian-injective zero m n hm hn e = omega arith
big_endian-injective (suc width) m n hm hn e =
    let same_length = length-big_endian width (m / 256) ∙ sym (length-big_endian width (n / 256)) in
    let (high, low) =
      append-cancel_length (big_endian width (m / 256)) (big_endian width (n / 256)) same_length
        e in
    let low_eq : m % 256 ≡ n % 256 = ground arith in
    let power : 256 ^ suc width ≡ 256 ^ width * 256 = pow-suc 256 width in
    let ih = big_endian-injective width (m / 256) (n / 256) (omega arith) (omega arith) high in
    omega arith

-- A part is shorter than 2 ^ 64 bytes, as every slice is.
abbrev pub IsShort : Bytes → Type 0
IsShort p = length p < 256 ^ 8

frame-long : (p : Bytes) (ps : List Bytes) → 8 ≤ length (frame (p ∷ ps))
unfolding frame
frame-long p ps =
    omega (
      arith,
      length-append (big_endian 8 (length p)) (p ++ frame ps),
      length-big_endian 8 (length p),
    )

-- What is hashed for two lists of parts is the same only if the parts are, one by one and in
-- number: part boundaries cannot alias.
pub frame-injective :
    (ps qs : List Bytes) → All IsShort ps → All IsShort qs → frame ps ≡ frame qs → ps ≡ qs
unfolding frame
frame-injective [] [] hp hq e = refl
frame-injective [] (q ∷ qs) hp hq e = absurd (omega (arith, frame-long q qs, ap length e))
frame-injective (p ∷ ps) [] hp hq e = absurd (omega (arith, frame-long p ps, ap length e))
frame-injective (p ∷ ps) (q ∷ qs) (hp, hps) (hq, hqs) e =
    let widths = length-big_endian 8 (length p) ∙ sym (length-big_endian 8 (length q)) in
    let (lengths, rest) =
      append-cancel_length (big_endian 8 (length p)) (big_endian 8 (length q)) widths e in
    let same_length = big_endian-injective 8 (length p) (length q) hp hq lengths in
    let (part, parts) = append-cancel_length p q same_length rest in
    ap₂ (λ (x : Bytes) (xs : List Bytes). x ∷ xs) part (frame-injective ps qs hps hqs parts)
