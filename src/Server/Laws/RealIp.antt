-- ===== src/Server/Laws/RealIp.antt =====
-- A client cannot choose the address that it is known by.
use go_api_scaffolding.Common.{
  ◌≡◌, refl, ap, ◌≡⟨◌⟩◌, ◌∎, true, false, Bytes, List, [], ◌∷◌, ◌++◌, Option, none, some, All,
}
use mathlib.Core.List.{reverse, reverse_aux, reverse-append, reverse-cons, append_assoc}
use go_api_scaffolding.Http.{Request, Writer, Handler}
use go_api_scaffolding.Server.Addr.{Addr, Prefix, Net}
use go_api_scaffolding.Server.RealIp.{
  is_trusted, parse_addr, walk, forwarded_client, forwarded_for, resolved, real_ip,
}

All-reverse_aux :
    (P : Bytes → Type 0) (xs ys : List Bytes) → All P xs → All P ys → All P (reverse_aux xs ys)
All-reverse_aux P [] ys h k = k
All-reverse_aux P (x ∷ xs) ys (p, h) k = All-reverse_aux P xs (x ∷ ys) h (p, k)

All-reverse : (P : Bytes → Type 0) (xs : List Bytes) → All P xs → All P (reverse xs)
All-reverse P xs h = All-reverse_aux P xs [] h tt

reversed :
    (left proxies : List Bytes) (hop : Bytes)
    → reverse (left ++ hop ∷ proxies) ≡ reverse proxies ++ hop ∷ reverse left
reversed left proxies hop = simp (reverse-append, reverse-cons, append_assoc)

resolved-untrusted :
    (net : Net) (trusted : List Prefix) (r : Request) (o : Option Addr)
    → ((peer : Addr) → o ≡ some peer → is_trusted peer trusted ≡ false)
    → resolved net trusted r o ≡ r
resolved-untrusted net trusted r none strange = refl
resolved-untrusted net trusted r (some peer) strange = rw (strange peer refl)

module _ (net : Net) (peer : Addr) (trusted : List Prefix) where
  -- A hop that reads as the address of a trusted proxy.
  abbrev pub IsProxy : Bytes → Type 0
  IsProxy hop = (a : Addr) × (parse_addr net hop ≡ some a) × (is_trusted a trusted ≡ true)

  walk-proxies :
      (proxies rest : List Bytes)
      → All IsProxy proxies
      → walk net peer trusted (proxies ++ rest) ≡ walk net peer trusted rest
  unfolding walk
  walk-proxies [] rest h = refl
  walk-proxies (p ∷ ps) rest ((a, parsed, known), h) = rw (parsed, known) (walk-proxies ps rest h)

  walk-client :
      (rest : List Bytes) (hop : Bytes) (client : Addr)
      → parse_addr net hop ≡ some client
      → is_trusted client trusted ≡ false
      → walk net peer trusted (hop ∷ rest) ≡ client
  unfolding walk
  walk-client rest hop client parsed strange = rw (parsed, strange)

  -- Where the hops end in addresses of trusted proxies, and the hop before them reads as an address
  -- that is not trusted, that address is the client. What stands left of it, which a client may
  -- have sent, does not matter.
  pub forwarded_client_lem :
      (r : Request) (left proxies : List Bytes) (hop : Bytes) (client : Addr)
      → forwarded_for r ≡ left ++ hop ∷ proxies
      → All IsProxy proxies
      → parse_addr net hop ≡ some client
      → is_trusted client trusted ≡ false
      → forwarded_client net peer r trusted ≡ client
  unfolding forwarded_client
  forwarded_client_lem r left proxies hop client hops known parsed strange =
      walk net peer trusted (reverse (forwarded_for r))
      ≡⟨ ap (λ hs. walk net peer trusted (reverse hs)) hops ⟩
        walk net peer trusted (reverse (left ++ hop ∷ proxies))
      ≡⟨ ap (walk net peer trusted) (reversed left proxies hop) ⟩
        walk net peer trusted (reverse proxies ++ hop ∷ reverse left)
      ≡⟨ walk-proxies (reverse proxies) (hop ∷ reverse left) (All-reverse IsProxy proxies known) ⟩
        walk net peer trusted (hop ∷ reverse left)
      ≡⟨ walk-client (reverse left) hop client parsed strange ⟩ client ∎

-- A request whose connecting peer is not inside a trusted prefix goes on as it came, whatever
-- headers it carries.
pub real_ip-untrusted :
    (net : Net) (trusted : List Prefix) (next : Handler) (r : Request) (w : Writer)
    → ((peer : Addr) → parse_addr net r.remote_addr ≡ some peer → is_trusted peer trusted ≡ false)
    → real_ip net trusted next r w ≡ next r w
unfolding real_ip
real_ip-untrusted net [] next r w strange = refl
real_ip-untrusted net (p ∷ trusted) next r w strange =
    ap (λ q. next q w)
      (resolved-untrusted net (p ∷ trusted) r (parse_addr net r.remote_addr) strange)
