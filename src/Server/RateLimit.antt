-- ===== src/Server/RateLimit.antt =====
-- internal/server/middleware.go: clientIP, rateLimitKey, and the limiters of RateLimit. A
-- rate.Limiter is known by its number; its bucket is x/time/rate's.
use go_api_scaffolding.Common.{
  ℕ, suc, ◌-◌, ◌*◌, ◌/◌, ◌^◌, Bool, not, Bytes, List, [], ◌∷◌, Option, none, some, keep, find, same,
  ltb, if◌then◌else◌,
}
use go_api_scaffolding.Db.{M, pure}
use go_api_scaffolding.Http.{Request, Writer, Handler}
use go_api_scaffolding.Problems.{status_problem}
use go_api_scaffolding.Server.Addr.{Addr, v4, v6, Net, unmap}

module _ (net : Net) where
  abbrev pub or_whole : Bytes → Option Bytes → Bytes
  or_whole s none = s
  or_whole s (some host) = host

  unfoldable pub client_ip : Request → Bytes
  client_ip r = or_whole r.remote_addr (net.split_host r.remote_addr)

  -- Unmap, then WithZone(""), then the /64 prefix of an IPv6 address. Masking it cannot fail.
  abbrev pub key_of : Addr → Bytes
  key_of (v4 a) = net.print (v4 a)
  key_of (v6 a zone) = net.print_prefix (record { addr = v6 (a / 2 ^ 64 * 2 ^ 64) []; bits = 64 })

  abbrev pub key_or : Bytes → Option Addr → Bytes
  key_or ip none = ip
  key_or ip (some a) = key_of (unmap a)

  unfoldable pub rate_limit_key : Bytes → Bytes
  rate_limit_key ip = key_or ip (net.parse ip)

pub record ClientLimiter : Type 0 where
  pub key : Bytes
  pub limiter : ℕ
  pub seen : ℕ

-- ipLimiters: the map, the time of the last sweep, and the number of limiters made so far.
pub record IpLimiters : Type 0 where
  pub clients : List ClientLimiter
  pub last_sweep : ℕ
  pub made : ℕ

-- time.Minute and 3*time.Minute, in microseconds
abbrev pub minute : ℕ
minute = 60000000

abbrev pub idle_after : ℕ
idle_after = 180000000

abbrev pub is_idle : ℕ → ClientLimiter → Bool
is_idle now c = ltb idle_after (now - c.seen)

abbrev pub has_client : Bytes → ClientLimiter → Bool
has_client key c = same c.key key

unfoldable pub sweep : ℕ → IpLimiters → IpLimiters
sweep now l =
    if ltb minute (now - l.last_sweep)
    then record l { clients = keep (λ c. not (is_idle now c)) l.clients; last_sweep = now }
    else l

abbrev pub touch : Bytes → ℕ → List ClientLimiter → List ClientLimiter
touch key now [] = []
touch key now (c ∷ cs) =
    (if has_client key c then record c { seen = now } else c) ∷ touch key now cs

-- The limiter of a key, by the entry that the map has for it.
abbrev pub take_limiter : Bytes → ℕ → IpLimiters → Option ClientLimiter → ℕ × IpLimiters
take_limiter key now l none = (
  l.made,
  record l {
    clients = record { key = key; limiter = l.made; seen = now } ∷ l.clients;
    made = suc l.made;
  },
)
take_limiter key now l (some c) = (c.limiter, record l { clients = touch key now l.clients })

unfoldable pub get : Bytes → ℕ → IpLimiters → ℕ × IpLimiters
get key now l =
    let swept = sweep now l in take_limiter key now swept (find (has_client key) swept.clients)

-- RateLimit: the answer, and the map afterwards. `allow` is Allow of the limiter with that number.
unfoldable pub rate_limit :
    Net → (ℕ → Bool) → ℕ → Handler → Request → Writer → IpLimiters → M Writer × IpLimiters
rate_limit net allow now next r w l =
    let (limiter, l') = get (rate_limit_key net (client_ip net r)) now l in
    (if allow limiter then next r w else pure (status_problem 429 "rate limit exceeded" r w), l')
