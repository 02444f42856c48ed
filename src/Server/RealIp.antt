-- ===== src/Server/RealIp.antt =====
-- internal/server/realip.go: the client address behind trusted proxies.
use go_api_scaffolding.Common.{
  Bool, Bytes, codes, List, [], ◌∷◌, ◌++◌, Option, none, some, any, trim_space, if◌then◌else◌, ◌==◌,
}
use mathlib.Core.List.{reverse}
use go_api_scaffolding.Http.{Request, Handler, values}
use go_api_scaffolding.Server.Addr.{Addr, Prefix, Net, unmap, contains}

-- strings.Split at a comma, with the piece that is being read
unfoldable pub split_comma : Bytes → Bytes → List Bytes
split_comma cur [] = cur ∷ []
split_comma cur (c ∷ s) =
    let rest = split_comma [] s in
    let longer = split_comma (cur ++ c ∷ []) s in if c == 44 then cur ∷ rest else longer

-- The hops of a value: the pieces without white space at their ends, if anything is left.
abbrev pub trimmed : List Bytes → List Bytes
trimmed [] = []
trimmed (hop ∷ hops) = elim (trim_space hop) [
  | [] ↦ trimmed hops
  | (c ∷ s) ↦ (c ∷ s) ∷ trimmed hops
]

abbrev pub flatten : List Bytes → List Bytes
flatten [] = []
flatten (v ∷ vs) = trimmed (split_comma [] v) ++ flatten vs

unfoldable pub forwarded_for : Request → List Bytes
unfolding split_comma
forwarded_for r = flatten (values "X-Forwarded-For" r.headers)

unfoldable pub is_trusted : Addr → List Prefix → Bool
is_trusted a trusted = any (λ p. contains p a) trusted

module _ (net : Net) where
  abbrev pub host_of : Bytes → Option Bytes → Bytes
  host_of s none = s
  host_of s (some host) = host

  abbrev pub unmapped : Option Addr → Option Addr
  unmapped none = none
  unmapped (some a) = some (unmap a)

  unfoldable pub parse_addr : Bytes → Option Addr
  parse_addr s = unmapped (net.parse (host_of s (net.split_host s)))

  -- One hop, where `rest` is what the hops left of it give.
  abbrev pub hop_or : Addr → List Prefix → Addr → Option Addr → Addr
  hop_or peer trusted rest none = peer
  hop_or peer trusted rest (some a) = if is_trusted a trusted then rest else a

  -- The hops from the right.
  unfoldable pub walk : Addr → List Prefix → List Bytes → Addr
  walk peer trusted [] = peer
  walk peer trusted (hop ∷ hops) = hop_or peer trusted (walk peer trusted hops) (parse_addr hop)

  unfoldable pub forwarded_client : Addr → Request → List Prefix → Addr
  forwarded_client peer r trusted = walk peer trusted (reverse (forwarded_for r))

  abbrev pub resolved : List Prefix → Request → Option Addr → Request
  resolved trusted r none = r
  resolved trusted r (some peer) =
      if is_trusted peer trusted
      then record r {
        remote_addr = net.join_host_port (net.print (forwarded_client peer r trusted)) (codes "0");
      }
      else r

  unfoldable pub real_ip : List Prefix → Handler → Handler
  real_ip [] next r w = next r w
  real_ip (p ∷ trusted) next r w = next (resolved (p ∷ trusted) r (parse_addr r.remote_addr)) w
