-- ===== src/Server/Laws/Limiters.antt =====
-- The rate limiter's map: one limiter for a client, never shared, kept while the client is active.
use go_api_scaffolding.Common.{
  ℕ, suc, ◌-◌, ◌≡◌, ◌≢◌, ◌≤◌, ◌<◌, refl, inl, inr, Bool, true, false, not, Bool-cases, Bytes, List,
  [], ◌∷◌, Option, none, some, keep, find, same, same_iff, ltb, All, arith, if◌then◌else◌,
}
use go_api_scaffolding.Server.RateLimit.{
  ClientLimiter, IpLimiters, sweep, get, take_limiter, touch, has_client, is_idle, idle_after,
  minute,
}

-- The limiter that the map has for a key.
abbrev pub entry : Bytes → IpLimiters → Option ClientLimiter
entry key l = find (has_client key) l.clients

-- The limiters of a map are numbered below those to come, and no two keys or entries share one.
abbrev pub Distinct : List ClientLimiter → Type 0
Distinct [] = Unit
Distinct (c ∷ cs) = All (λ d. (d.limiter ≢ c.limiter) × (same d.key c.key ≡ false)) cs × Distinct cs

pub record IsValid (l : IpLimiters) : Type 0 where
  pub below : All (λ c. c.limiter < l.made) l.clients
  pub distinct : Distinct l.clients

All-keep : {A : Type 0} (P : A → Type 0) (p : A → Bool) (xs : List A) → All P xs → All P (keep p xs)
All-keep P p [] h = tt
All-keep P p (x ∷ xs) (q, h) = elim (Bool-cases (p x)) [
  | inl hit ↦ rw hit (q, All-keep P p xs h)
  | inr miss ↦ rw miss (All-keep P p xs h)
]

Distinct-keep :
    (p : ClientLimiter → Bool) (cs : List ClientLimiter) → Distinct cs → Distinct (keep p cs)
Distinct-keep p [] h = tt
Distinct-keep p (c ∷ cs) (q, h) = elim (Bool-cases (p c)) [
  | inl hit ↦ rw hit (All-keep _ p cs q, Distinct-keep p cs h)
  | inr miss ↦ rw miss (Distinct-keep p cs h)
]

All-touch :
    (P : ClientLimiter → Type 0) (key : Bytes) (now : ℕ) (cs : List ClientLimiter)
    → ((c : ClientLimiter) → P c → P (record c { seen = now }))
    → All P cs
    → All P (touch key now cs)
All-touch P key now [] seen h = tt
All-touch P key now (c ∷ cs) seen (q, h) = elim (Bool-cases (has_client key c)) [
  | inl hit ↦ rw hit (seen c q, All-touch P key now cs seen h)
  | inr miss ↦ rw miss (q, All-touch P key now cs seen h)
]

Distinct-touch :
    (key : Bytes) (now : ℕ) (cs : List ClientLimiter) → Distinct cs → Distinct (touch key now cs)
Distinct-touch key now [] h = tt
Distinct-touch key now (c ∷ cs) (q, h) = elim (Bool-cases (has_client key c)) [
  | inl hit ↦ rw hit (All-touch _ key now cs (λ d p. p) q, Distinct-touch key now cs h)
  | inr miss ↦ rw miss (All-touch _ key now cs (λ d p. p) q, Distinct-touch key now cs h)
]

sweep-IsValid : (now : ℕ) (l : IpLimiters) → IsValid l → IsValid (sweep now l)
unfolding sweep
sweep-IsValid now l v = elim (Bool-cases (ltb minute (now - l.last_sweep))) [
  | inl due ↦ rw due (record {
    below = All-keep _ (λ c. not (is_idle now c)) l.clients v.below;
    distinct = Distinct-keep (λ c. not (is_idle now c)) l.clients v.distinct;
  })
  | inr early ↦ rw early v
]

-- No entry of the map has a key that is not found.
absent_keys :
    (key : Bytes) (n : ℕ) (cs : List ClientLimiter)
    → find (has_client key) cs ≡ none
    → All (λ c. c.limiter < n) cs
    → All (λ d. (d.limiter ≢ n) × (same d.key key ≡ false)) cs
absent_keys key n [] h b = tt
absent_keys key n (c ∷ cs) h (lt, b) = elim (Bool-cases (has_client key c)) [
  | inl hit ↦ cc (rw hit at h)
  | inr miss ↦ ((omega arith, miss), absent_keys key n cs (rw miss at h) b)
]

All-raise :
    (n : ℕ) (cs : List ClientLimiter)
    → All (λ c. c.limiter < n) cs
    → All (λ c. c.limiter < suc n) cs
All-raise n [] h = tt
All-raise n (c ∷ cs) (lt, h) = (omega arith, All-raise n cs h)

take_limiter-IsValid :
    (key : Bytes) (now : ℕ) (l : IpLimiters) (o : Option ClientLimiter)
    → find (has_client key) l.clients ≡ o
    → IsValid l
    → IsValid (take_limiter key now l o).1
take_limiter-IsValid key now l none absent v = record {
  below = (omega arith, All-raise l.made l.clients v.below);
  distinct = (absent_keys key l.made l.clients absent v.below, v.distinct);
}
take_limiter-IsValid key now l (some c) present v = record {
  below = All-touch _ key now l.clients (λ d p. p) v.below;
  distinct = Distinct-touch key now l.clients v.distinct;
}

-- The map stays well formed: every entry has a limiter of its own, and no key has two entries.
pub get-IsValid : (key : Bytes) (now : ℕ) (l : IpLimiters) → IsValid l → IsValid (get key now l).1
unfolding get
get-IsValid key now l v = take_limiter-IsValid key now (sweep now l) _ refl (sweep-IsValid now l v)

find-keep :
    (p q : ClientLimiter → Bool) (cs : List ClientLimiter) (c : ClientLimiter)
    → find p cs ≡ some c
    → q c ≡ true
    → find p (keep q cs) ≡ some c
find-keep p q [] c h k = cc
find-keep p q (x ∷ cs) c h k = elim (Bool-cases (p x)) [
  | inl hit ↦ ground arith
  | inr miss ↦ let ih = find-keep p q cs c (rw miss at h) k in ground arith
]

-- The entry of a key after some key was touched: the same limiter.
find-touch :
    (key other : Bytes) (now : ℕ) (cs : List ClientLimiter) (c : ClientLimiter)
    → find (has_client other) cs ≡ some c
    → (d : ClientLimiter) × (find (has_client other) (touch key now cs) ≡ some d)
      × (d.limiter ≡ c.limiter)
find-touch key other now [] c h = cc
find-touch key other now (x ∷ cs) c h = elim (Bool-cases (has_client other x)) [
  | inl hit ↦
      ((if has_client key x then record x { seen = now } else x), ground arith, ground arith)
  | inr miss ↦ let (d, e, k) = find-touch key other now cs c (rw miss at h) in (d, ground arith, k)
]

sweep-keeps :
    (other : Bytes) (now : ℕ) (l : IpLimiters) (c : ClientLimiter)
    → entry other l ≡ some c
    → now - c.seen ≤ idle_after
    → entry other (sweep now l) ≡ some c
unfolding sweep
sweep-keeps other now l c h active = elim (Bool-cases (ltb minute (now - l.last_sweep))) [
  | inl due ↦
      rw due (find-keep (has_client other) (λ d. not (is_idle now d)) l.clients c h (ground arith))
  | inr early ↦ rw early h
]

take_limiter-keeps :
    (key other : Bytes) (now : ℕ) (l : IpLimiters) (o : Option ClientLimiter) (c : ClientLimiter)
    → find (has_client key) l.clients ≡ o
    → entry other l ≡ some c
    → (d : ClientLimiter) × (entry other (take_limiter key now l o).1 ≡ some d)
      × (d.limiter ≡ c.limiter)
take_limiter-keeps key other now l none c absent h = (c, ground (arith, same_iff key other), refl)
take_limiter-keeps key other now l (some x) c present h = find-touch key other now l.clients c h

-- An active client keeps its limiter, whoever else is served: an entry that was seen within three
-- minutes is not evicted, so its bucket is not refilled by a sweep.
pub get-keeps_active :
    (key other : Bytes) (now : ℕ) (l : IpLimiters) (c : ClientLimiter)
    → entry other l ≡ some c
    → now - c.seen ≤ idle_after
    → (d : ClientLimiter) × (entry other (get key now l).1 ≡ some d) × (d.limiter ≡ c.limiter)
unfolding get
get-keeps_active key other now l c h active =
    take_limiter-keeps key other now (sweep now l) _ c refl (sweep-keeps other now l c h active)
