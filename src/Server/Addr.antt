-- ===== src/Server/Addr.antt =====
-- The part of net and net/netip that internal/server uses: addresses as numbers. The reading and
-- the printing of addresses and of host:port pairs are parameters.
use go_api_scaffolding.Common.{
  ℕ, ◌-◌, ◌*◌, ◌/◌, ◌^◌, Bool, false, Bytes, [], Option, if◌then◌else◌, ◌==◌, ◌&&◌, same,
}

-- netip.Addr: an IPv4 address, or an IPv6 address with its zone.
pub data Addr : Type 0 where
  v4 : ℕ → Addr
  v6 : ℕ → Bytes → Addr

-- Addr.Unmap: ::ffff:a.b.c.d is a.b.c.d.
unfoldable pub unmap : Addr → Addr
unmap (v4 a) = v4 a
unmap (v6 a zone) = if a / 4294967296 == 65535 then v4 (a - 65535 * 4294967296) else v6 a zone

-- netip.Prefix: the masked bits are those below `width - bits`.
pub record Prefix : Type 0 where
  pub addr : Addr
  pub bits : ℕ

-- Prefix.Contains: the same family, no zone, and the same leading bits.
abbrev pub covers : Addr → ℕ → Addr → Bool
covers (v4 p) bits (v4 a) = p / 2 ^ (32 - bits) == a / 2 ^ (32 - bits)
covers (v6 p z) bits (v6 a zone) = same zone [] && p / 2 ^ (128 - bits) == a / 2 ^ (128 - bits)
covers _ bits _ = false

unfoldable pub contains : Prefix → Addr → Bool
contains p a = covers p.addr p.bits a

-- net.SplitHostPort, netip.ParseAddr, Addr.String, Prefix.String and net.JoinHostPort.
pub record Net : Type 0 where
  pub split_host : Bytes → Option Bytes
  pub parse : Bytes → Option Addr
  pub print : Addr → Bytes
  pub print_prefix : Prefix → Bytes
  pub join_host_port : Bytes → Bytes → Bytes
