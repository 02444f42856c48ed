-- ===== src/Widgets/Responses.antt =====
-- internal/modules/widget/handler.go: how results and errors become responses.
use go_api_scaffolding.Common.{ℕ, Bytes, String, codes, ◌++◌, if◌then◌else◌}
use go_api_scaffolding.Errors.{Error, is, not_found, forbidden, max_bytes}
use go_api_scaffolding.Json.{Json}
use go_api_scaffolding.Db.{Widget}
use go_api_scaffolding.Http.{Request, Writer, json, set_header, write_header, write_body}
use go_api_scaffolding.Problems.{status_problem}
use go_api_scaffolding.Widgets.Input.{to_api_widget}

-- writeError; the log line of an unexpected error is left out.
unfoldable pub write_error : Error → Request → Writer → Writer
write_error e r w =
    if is e not_found
    then status_problem 404 "widget not found" r w
    else if is e forbidden
    then status_problem 403 "you do not have permission to perform this action" r w
    else status_problem 500 "internal server error" r w

-- writeBodyError
unfoldable pub write_body_error : Error → String → Request → Writer → Writer
write_body_error e bad_request_msg r w =
    if is e max_bytes
    then status_problem 413 "request body exceeds the size limit" r w
    else status_problem 400 bad_request_msg r w

-- writeJSON; a tree can always be printed.
unfoldable pub write_json : ℕ → Json → Writer → Writer
write_json status v w =
    write_body (json v)
      (write_header status (set_header "Content-Type" (codes "application/json") w))

abbrev pub location : Bytes → Bytes
location id = codes "/v1/widgets/" ++ id

unfoldable pub write_created : Widget → Writer → Writer
write_created created w =
    write_json 201 (to_api_widget created) (set_header "Location" (location created.id) w)
