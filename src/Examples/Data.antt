-- ===== src/Examples/Data.antt =====
-- Test data: sessions, requests and callers.
use go_api_scaffolding.Common.{ℕ, codes, List, [], ◌∷◌, Option, none, some, false}
use go_api_scaffolding.Json.{str}
use go_api_scaffolding.Db.{Widget, IdempotencyKey, Db, Fault, clean, lost, Session}
use go_api_scaffolding.Http.{Request, Stream}
use go_api_scaffolding.Auth.Principal.{Principal}
use go_api_scaffolding.Widgets.Input.{Input}
use go_api_scaffolding.Widgets.Store.{IdempotencyClaim}
use go_api_scaffolding.Widgets.Handlers.{Handler}
use go_api_scaffolding.Auth.Verifier.{Claims, Verify}
use go_api_scaffolding.Errors.{ok}
use go_api_scaffolding.Common.{take, Bytes}

abbrev pub session : Db → ℕ → List Fault → Session
session db now faults = record {
  db = db;
  now = now;
  faults = faults;
  uuids = λ n. 100 ∷ n ∷ [];
  drawn = 0;
  locked = λ id. false;
  sent = [];
}

abbrev pub no_rows_db : Db
no_rows_db = record { widgets = []; outbox = []; keys = []; sequence = 1 }

abbrev pub start : Session
start = session no_rows_db 1000 []

-- The commit's answer gets lost.
abbrev pub faulty : Session
faulty = session no_rows_db 1000 (clean ∷ clean ∷ clean ∷ lost ∷ [])

abbrev pub gear : Input
gear = record { name = codes "gear"; description = []; status = codes "active" }

abbrev pub old_widget : Widget
old_widget = record {
  id = 100 ∷ 7 ∷ [];
  name = codes "cog";
  description = [];
  status = codes "active";
  created_at = 10;
  updated_at = 10;
}

abbrev pub with_widget : Session
with_widget = session (record no_rows_db { widgets = old_widget ∷ [] }) 1000 []

abbrev pub editor : Principal
editor = record { subject = codes "alice"; roles = codes "editor" ∷ []; scopes = [] }

abbrev pub reader : Principal
reader = record { subject = codes "bob"; roles = codes "viewer" ∷ []; scopes = [] }

abbrev pub request : Option Principal → Stream → Request
request actor body = record {
  method = "POST";
  path = codes "/v1/widgets";
  escaped_path = codes "/v1/widgets";
  headers = ("Authorization", codes "bearer t0") ∷ ("Content-Type", codes "application/json") ∷ [];
  remote_addr = 49 ∷ [];
  content_length = none;
  body = body;
  trace = [];
  holder = some actor;
}

abbrev pub claim : IdempotencyClaim
claim = record { key = codes "alice:k"; hash = 5 ∷ []; ttl = 500 }

abbrev pub live_key : IdempotencyKey
live_key = record {
  key = codes "alice:k";
  request_hash = codes "alice";
  response_status = 201;
  response_body = str [];
  created_at = 900;
  expires_at = 1400;
}

abbrev pub with_key : Session
with_key = session (record no_rows_db { keys = live_key ∷ [] }) 1000 []

abbrev pub digest : Bytes → Bytes
digest s = take 20 s

abbrev pub handler : Handler
handler = record {
  decode = λ s. some (record { description = none; name = s; status = none });
  decode_next = λ b. ok (record { description = none; name = 1 ∷ []; status = none });
  idempotency = some (digest, 500);
}

abbrev pub claims : Claims
claims = record {
  subject = codes "alice";
  issuer = [];
  audience = [];
  issued_at = 0;
  expires_at = 9;
  roles = codes "editor" ∷ [];
  scope = [];
}

abbrev pub verify_all : Verify
verify_all token = ok claims
