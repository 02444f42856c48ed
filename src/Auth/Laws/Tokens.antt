-- ===== src/Auth/Laws/Tokens.antt =====
-- BearerToken and the scopes of a token.
use go_api_scaffolding.Common.{
  ◌≡◌, ◌≢◌, sym, false, Bool-cases, inl, inr, Bytes, List, [], ◌∷◌, ◌++◌, length, take, drop,
  take-append-drop, to_lower, trim_space, same, same_sound, is_space, ltb, All, All-append, arith,
  ◌&&◌,
}
use go_api_scaffolding.Auth.Bearer.{bearer_token, prefix}
use go_api_scaffolding.Auth.Verifier.{fields, fields_from, flush}

-- A token is taken only from a header that spells the scheme `Bearer`, in any case, and a space:
-- the token is the rest of the header without white space at its ends.
pub bearer_token_lem :
    (h : Bytes)
    → bearer_token h ≢ []
    → (scheme : Bytes) × (rest : Bytes) × (h ≡ scheme ++ rest)
      × (to_lower scheme ≡ to_lower prefix)
      × (bearer_token h ≡ trim_space rest)
unfolding bearer_token
bearer_token_lem h e =
    elim (Bool-cases (ltb 7 (length h) && same (to_lower (take 7 h)) (to_lower prefix))) [
      | inl yes_h ↦
          (take 7 h, drop 7 h, sym (take-append-drop 7 h), same_sound _ _ (ground arith), rw yes_h)
      | inr no_h ↦ absurd (e (rw no_h))
    ]

-- Every word that strings.Fields finds is not empty and holds no white space.
abbrev pub IsWord : Bytes → Type 0
IsWord s = (s ≢ []) × All (λ c. is_space c ≡ false) s

flush-IsWord :
    (cur : Bytes) (fs : List Bytes)
    → All (λ c. is_space c ≡ false) cur
    → All IsWord fs
    → All IsWord (flush cur fs)
flush-IsWord [] fs h k = k
flush-IsWord (c ∷ cur) fs h k = ((λ e. cc, h), k)

fields_from-IsWord :
    (cur s : Bytes) → All (λ c. is_space c ≡ false) cur → All IsWord (fields_from cur s)
unfolding fields_from
fields_from-IsWord cur [] h = flush-IsWord cur [] h tt
fields_from-IsWord cur (c ∷ s) h = elim (Bool-cases (is_space c)) [
  | inl space ↦ rw space (flush-IsWord cur (fields_from [] s) h (fields_from-IsWord [] s tt))
  | inr letter ↦
      rw letter (fields_from-IsWord (cur ++ c ∷ []) s (All-append _ cur (c ∷ []) h (letter, tt)))
]

-- Every word that strings.Fields finds is not empty and holds no white space.
pub fields-IsWord : (s : Bytes) → All IsWord (fields s)
unfolding fields
fields-IsWord s = fields_from-IsWord [] s tt
