-- ===== src/Http.antt =====
-- The part of net/http that the handlers use: a request with its context, and a response writer.
pub mod Laws
use Prim.Native.String.{String}
use text.Mathlib.Text.{◌==◌}
use go_api_scaffolding.Common.{
  ℕ, zero, suc, not, Bytes, List, [], ◌∷◌, ◌++◌, Option, if◌then◌else◌, keep,
}
use go_api_scaffolding.Json.{Json}
use go_api_scaffolding.Db.{M}
use go_api_scaffolding.Auth.Principal.{Principal}

-- What reading a request's body gives: nothing, its bytes, the size limit's error, another error.
pub data Stream : Type 0 where
  no_body : Stream
  content : Bytes → Stream
  over_limit unreadable : Stream

-- The headers in their order of arrival, one entry for each value. `holder` is what the context
-- carries under auth's key: nothing, an empty holder, or a principal. `trace` is the trace ID of
-- a valid span. `content_length` is none where the request declares no length.
pub record Request : Type 0 where
  pub method : String
  pub path : Bytes  -- URL.Path
  pub escaped_path : Bytes  -- URL.EscapedPath()
  pub headers : List (String × Bytes)
  pub remote_addr : Bytes
  pub content_length : Option ℕ
  pub body : Stream
  pub trace : Bytes
  pub holder : Option (Option Principal)

-- Header.Values and Header.Get
abbrev pub values : String → List (String × Bytes) → List Bytes
values k [] = []
values k ((j, v) ∷ hs) = if j == k then v ∷ values k hs else values k hs

abbrev first : List Bytes → Bytes
first [] = []
first (v ∷ vs) = v

abbrev pub header : String → Request → Bytes
header k r = first (values k r.headers)

-- An RFC 9457 problem details object (internal/platform/problem).
pub record Problem : Type 0 where
  pub kind : String
  pub title : String
  pub status : ℕ
  pub detail : String
  pub instance_path : Bytes
  pub trace_id : Bytes

pub data Body : Type 0 where
  empty : Body
  problem : Problem → Body
  json : Json → Body
  plain : String → Body

-- A response writer: `status` is 0 until the response has started.
pub record Writer : Type 0 where
  pub headers : List (String × Bytes)
  pub status : ℕ
  pub body : Body

abbrev pub fresh : Writer
fresh = record { headers = []; status = 0; body = empty }

-- Header.Set and Header.Add
abbrev pub set_header : String → Bytes → Writer → Writer
set_header k v w = record w {
  headers = keep (λ (h : String × Bytes). not (h.0 == k)) w.headers ++ (k, v) ∷ [];
}

abbrev pub add_header : String → Bytes → Writer → Writer
add_header k v w = record w { headers = w.headers ++ (k, v) ∷ [] }

-- Only the first WriteHeader counts.
abbrev pub write_header : ℕ → Writer → Writer
write_header code w = record w { status = elim (w.status) [ zero ↦ code | suc n ↦ suc n ] }

abbrev pub write_body : Body → Writer → Writer
write_body b w = record w { body = b }

abbrev pub Handler : Type 0
Handler = Request → Writer → M Writer
