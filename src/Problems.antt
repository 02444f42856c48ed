-- ===== src/Problems.antt =====
-- internal/platform/problem/problem.go: RFC 9457 problem responses.
pub mod Laws
use go_api_scaffolding.Common.{ℕ, String, Bytes, codes, [], ◌∷◌, if◌then◌else◌, ◌==◌}
use go_api_scaffolding.Http.{
  Problem, Request, Writer, problem, set_header, write_header, write_body,
}

abbrev pub content_type : Bytes
content_type = codes "application/problem+json"

-- http.StatusText, at the codes that the service answers.
unfoldable pub status_text : ℕ → String
status_text code =
    if code == 400
    then "Bad Request"
    else if code == 401
    then "Unauthorized"
    else if code == 403
    then "Forbidden"
    else if code == 404
    then "Not Found"
    else if code == 405
    then "Method Not Allowed"
    else if code == 409
    then "Conflict"
    else if code == 413
    then "Request Entity Too Large"
    else if code == 429
    then "Too Many Requests"
    else if code == 500
    then "Internal Server Error"
    else if code == 501
    then "Not Implemented"
    else if code == 503
    then "Service Unavailable"
    else ""

unfoldable pub new : ℕ → String → Problem
new status detail = record {
  kind = "about:blank";
  title = status_text status;
  status = status;
  detail = detail;
  instance_path = [];
  trace_id = [];
}

abbrev pub or_else : Bytes → Bytes → Bytes
or_else [] d = d
or_else (c ∷ s) d = c ∷ s

-- Write: the trace ID of a valid span, and the request's escaped path where the problem names no instance.
unfoldable pub write : Problem → Request → Writer → Writer
write p r w =
    let q = record p {
      trace_id = or_else r.trace p.trace_id;
      instance_path = or_else p.instance_path r.escaped_path;
    } in
    write_body (problem q) (write_header p.status (set_header "Content-Type" content_type w))

-- Status
unfoldable pub status_problem : ℕ → String → Request → Writer → Writer
unfolding new write
status_problem status detail r w = write (new status detail) r w
