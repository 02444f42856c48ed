-- ===== src/Server/Limits.antt =====
-- internal/server/middleware.go: MaxBytes and SingleJSONDocument.
use go_api_scaffolding.Common.{
  ℕ, Bool, true, false, ◌&&◌, ◌||◌, Bytes, codes, [], ◌∷◌, Option, none, some, length, has_prefix,
  contains, to_lower, trim_space, same, ltb, ◌==◌, if◌then◌else◌,
}
use go_api_scaffolding.Db.{pure}
use go_api_scaffolding.Http.{
  Request, Handler, Stream, no_body, content, over_limit, unreadable, header,
}
use go_api_scaffolding.Problems.{status_problem}

-- http.MaxBytesReader
abbrev pub cap : ℕ → Stream → Stream
cap limit (content body) = if ltb limit (length body) then over_limit else content body
cap limit other = other

abbrev pub declares_more : ℕ → Option ℕ → Bool
declares_more limit none = false
declares_more limit (some n) = ltb limit n

unfoldable pub max_bytes : ℕ → Handler → Handler
max_bytes limit next r w =
    if declares_more limit r.content_length
    then pure (status_problem 413 "request body exceeds the size limit" r w)
    else next (record r { body = cap limit r.body }) w

unfoldable pub is_json : Request → Bool
is_json r =
    let ct = to_lower (header "Content-Type" r) in
    has_prefix ct (codes "application/json") || contains ct (codes "+json")

-- The white space that a JSON decoder passes over.
abbrev pub json_blank : Bytes → Bool
json_blank [] = true
json_blank (c ∷ s) = (c == 32 || c == 9 || c == 10 || c == 13) && json_blank s

-- What follows the first JSON value of a text, if it begins with one: the decoder is a parameter.
abbrev pub Scanner : Type 0
Scanner = Bytes → Option Bytes

abbrev pub only_value : Option Bytes → Bool
only_value none = false
only_value (some rest) = json_blank rest

-- A body with nothing but white space is let through.
unfoldable pub is_single : Scanner → Bytes → Bool
is_single first_value body = same (trim_space body) [] || only_value (first_value body)

abbrev pub checked : Scanner → Handler → Stream → Handler
checked first_value next no_body r w = next r w
checked first_value next over_limit r w =
    pure (status_problem 413 "request body exceeds the size limit" r w)
checked first_value next unreadable r w = pure (status_problem 400 "cannot read request body" r w)
checked first_value next (content body) r w =
    if is_single first_value body
    then next (record r { body = content body }) w
    else pure (status_problem 400 "invalid JSON body" r w)

unfoldable pub single_json_document : Scanner → Handler → Handler
single_json_document first_value next r w =
    if is_json r then checked first_value next r.body r w else next r w
