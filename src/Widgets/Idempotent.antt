-- ===== src/Widgets/Idempotent.antt =====
-- internal/modules/widget/idempotent.go: creates that carry an Idempotency-Key.
use go_api_scaffolding.Common.{
  ℕ, not, Bytes, codes, [], ◌∷◌, ◌++◌, Option, none, some, length, ltb, ◌==◌, same, if◌then◌else◌,
}
use go_api_scaffolding.Errors.{cause, is, conflict, forbidden, reserved, Result, ok, err, panic}
use go_api_scaffolding.Json.{string_member}
use go_api_scaffolding.Db.{Widget, Session, M, pure, attempt, crash, ◌>>=◌}
use go_api_scaffolding.Http.{Request, Writer, json, set_header, write_header, write_body}
use go_api_scaffolding.Problems.{status_problem}
use go_api_scaffolding.Auth.Principal.{Principal, has_permission, permission_write}
use go_api_scaffolding.Idempotency.{Record, Digest, hash, lookup}
use go_api_scaffolding.Widgets.Input.{Input}
use go_api_scaffolding.Widgets.Store.{IdempotencyClaim}
use go_api_scaffolding.Widgets.Service
use go_api_scaffolding.Widgets.Responses.{write_error, write_created, location}

abbrev pub max_idempotency_key_len : ℕ
max_idempotency_key_len = 255

-- subjectEscaper, byte by byte
abbrev pub escape_byte : ℕ → Bytes
escape_byte c = if c == 37 then 37 ∷ 50 ∷ 53 ∷ [] else if c == 58 then 37 ∷ 51 ∷ 65 ∷ [] else c ∷ []

unfoldable pub escape : Bytes → Bytes
escape [] = []
escape (c ∷ s) = escape_byte c ++ escape s

unfoldable pub idempotency_row_key : Bytes → Bytes → Bytes
unfolding escape
idempotency_row_key subject key = escape subject ++ 58 ∷ key

-- The Location of a replay, where the stored body names a widget.
abbrev pub set_location : Bytes → Writer → Writer
set_location [] w = w
set_location (c ∷ id) w = set_header "Location" (location (c ∷ id)) w

-- The stored response, served again.
unfoldable pub replay : Record → Writer → Writer
replay record_ w =
    let w1 = set_header "Content-Type" (codes "application/json") w in
    let w2 = set_header "Idempotency-Replayed" (codes "true") w1 in
    let w3 = set_location (string_member "id" record_.body) w2 in
    write_body (json record_.body) (write_header record_.status w3)

-- maybeReplay, by what Lookup answered: the response that it has written, if it has.
abbrev pub replayed : Request → Writer → Result (Option Record) → Option Writer
replayed r w (ok none) = none
replayed r w (ok (some stored)) = some (replay stored w)
replayed r w (err e) = some (
    if is e conflict
    then status_problem 409 "idempotency key already used for a different request" r w
    else write_error e r w)
replayed r w panic = none

abbrev pub respond :
    Request → Writer → Result (Option Record) → Session → Result (Option Writer) × Session
respond r w panic t = (panic, t)
respond r w found t = (ok (replayed r w found), t)

unfoldable pub maybe_replay : Request → Writer → IdempotencyClaim → M (Option Writer)
maybe_replay r w claim s = let (found, s') = lookup claim.key claim.hash s in respond r w found s'

-- What a create answers, by its result, when the first lookup found nothing to replay. A claim
-- that lost against a concurrent request is replayed.
abbrev pub created_or : Request → Writer → IdempotencyClaim → Result Widget → M Writer
created_or r w claim (ok created) = pure (write_created created w)
created_or r w claim (err e) =
    if is e reserved
    then maybe_replay r w claim
      >>= (λ o. elim o [ none ↦ pure (write_error e r w) | some w' ↦ pure w' ])
    else pure (write_error e r w)
created_or r w claim panic = crash

abbrev pub or_create :
    Request → Writer → Principal → Input → IdempotencyClaim → Option Writer → M Writer
or_create r w actor i claim (some w') = pure w'
or_create r w actor i claim none =
    attempt (Service.create_idempotent actor i claim) >>= created_or r w claim

-- The claim of a request: its row key, its fingerprint, and the store's time to live.
abbrev pub claim_of : Digest → ℕ → Request → Principal → Bytes → Bytes → IdempotencyClaim
claim_of digest ttl r actor body key = record {
  key = idempotency_row_key actor.subject key;
  hash = hash digest (actor.subject ∷ r.path ∷ body ∷ []);
  ttl = ttl;
}

-- Handler.createIdempotent
unfoldable pub create_idempotent :
    Digest → ℕ → Request → Writer → Principal → Input → Bytes → Bytes → M Writer
create_idempotent digest ttl r w actor i body key =
    let claim = claim_of digest ttl r actor body key in
    if not (has_permission actor permission_write)
    then pure (write_error (cause forbidden) r w)
    else if ltb max_idempotency_key_len (length key)
    then pure (status_problem 400 "Idempotency-Key exceeds 255 characters" r w)
    else if same actor.subject []
    then pure (status_problem 400 "Idempotency-Key requires a token with a subject (sub) claim" r w)
    else (maybe_replay r w claim >>= or_create r w actor i claim)
