-- ===== src/Server/Laws/Gates.antt =====
-- The gates in front of the handlers: body limits, JSON bodies, panics, probes and admin tokens.
use go_api_scaffolding.Common.{
  ℕ, suc, ◌≡◌, ◌≢◌, ◌≤◌, refl, ◌⊎◌, inl, inr, ◌↔◌, Bool, true, false, Bool-cases, Bytes, String,
  zero, ap, sym, [], length, same_iff, arith,
}
use go_api_scaffolding.Db.{pure}
use go_api_scaffolding.Http.{
  Request, Writer, Handler, Stream, no_body, content, over_limit, unreadable, header,
}
use go_api_scaffolding.Problems.{status_problem}
use go_api_scaffolding.Problems.Laws.{status_problem_lem}
use go_api_scaffolding.Auth.Bearer.{bearer_token}
use go_api_scaffolding.Server.Limits.{
  max_bytes, cap, declares_more, single_json_document, Scanner, is_single, is_json, checked,
}
use go_api_scaffolding.Server.Recover.{
  Ending, returned, aborted, panicked, recoverer, recover, answer_panic,
}
use go_api_scaffolding.Server.Probes.{Health, livez, readyz, token_guard, http_error}

-- What a limited handler may be given as a body.
abbrev pub Fits : ℕ → Stream → Type 0
Fits limit (content body) = length body ≤ limit
Fits limit other = Unit

cap-Fits : (limit : ℕ) (s : Stream) → Fits limit (cap limit s)
cap-Fits limit no_body = tt
cap-Fits limit over_limit = tt
cap-Fits limit unreadable = tt
cap-Fits limit (content body) = ground arith

-- A request under a body limit is either answered with a 413 problem, which happens exactly where
-- the declared length is over the limit, or handed on with the same fields but the body, of which
-- no more than the limit can be read.
pub max_bytes-Fits :
    (limit : ℕ) (next : Handler) (r : Request) (w : Writer)
    → ((declares_more limit r.content_length ≡ true)
        × (max_bytes limit next r w
            ≡ pure (status_problem 413 "request body exceeds the size limit" r w)))
      ⊎ ((declares_more limit r.content_length ≡ false)
          × ((s : Stream) × Fits limit s
              × (max_bytes limit next r w ≡ next (record r { body = s }) w)))
unfolding max_bytes
max_bytes-Fits limit next r w = elim (Bool-cases (declares_more limit r.content_length)) [
  | inl more ↦ inl (more, rw more)
  | inr less ↦ inr (less, (cap limit r.body, cap-Fits limit r.body, rw less))
]

-- A body that the JSON gate lets through: none, white space, or one JSON value.
abbrev pub IsReady : Scanner → Stream → Type 0
IsReady first_value no_body = Unit
IsReady first_value (content body) = is_single first_value body ≡ true
IsReady first_value _ = ⊥

pub checked_lem :
    (first_value : Scanner) (next : Handler) (s : Stream) (r : Request) (w : Writer)
    → r.body ≡ s
    → (IsReady first_value s × (checked first_value next s r w ≡ next r w))
      ⊎ (((s ≡ over_limit)
            × (checked first_value next s r w
                ≡ pure (status_problem 413 "request body exceeds the size limit" r w)))
          ⊎ ((detail : String) × ¬ IsReady first_value s
              × (checked first_value next s r w ≡ pure (status_problem 400 detail r w))))
checked_lem first_value next no_body r w e = inl (tt, refl)
checked_lem first_value next over_limit r w e = inr (inl (refl, refl))
checked_lem first_value next unreadable r w e = inr (inr ("cannot read request body", λ h. h, refl))
checked_lem first_value next (content body) r w e = elim (Bool-cases (is_single first_value body)) [
  | inl one ↦ inl (one, rw one (ap (λ b. next (record r { body = b }) w) (sym e)))
  | inr more ↦ inr (inr ("invalid JSON body", λ h. cc, rw more))
]

-- Where the content type says JSON, the handler behind the gate runs, on the request as it came,
-- only if the body is absent, blank, or one JSON value with nothing but white space after it. A
-- body over the limit is a 413 problem and any other body a 400 problem.
pub single_json_document-IsReady :
    (first_value : Scanner) (next : Handler) (r : Request) (w : Writer)
    → is_json r ≡ true
    → (IsReady first_value r.body × (single_json_document first_value next r w ≡ next r w))
      ⊎ (((r.body ≡ over_limit)
            × (single_json_document first_value next r w
                ≡ pure (status_problem 413 "request body exceeds the size limit" r w)))
          ⊎ ((detail : String) × ¬ IsReady first_value r.body
              × (single_json_document first_value next r w ≡ pure (status_problem 400 detail r w))))
unfolding single_json_document
single_json_document-IsReady first_value next r w json =
    rw json (checked_lem first_value next r.body r w refl)

recover_lem :
    (r : Request) (e : Ending)
    → ((v : Writer) × (e ≡ returned v) × (recover r e ≡ returned v))
      ⊎ (((v : Writer) × (e ≡ aborted v) × (recover r e ≡ aborted v))
          ⊎ (((v : Writer) × (u : Writer) × (e ≡ panicked v)
                × (v.status ≡ 0)
                × (recover r e ≡ returned u)
                × (u.status ≡ 500))
              ⊎ ((v : Writer) × (e ≡ panicked v) × (v.status ≢ 0) × (recover r e ≡ aborted v))))
recover_lem r (returned v) = inl (v, refl, refl)
recover_lem r (aborted v) = inr (inl (v, refl, refl))
recover_lem r (panicked v) = by_status v.status refl
  where
    by_status :
        (n : ℕ)
        → v.status ≡ n
        → ((x : Writer) × (panicked v ≡ returned x) × (answer_panic v.status r v ≡ returned x))
          ⊎ (((x : Writer) × (panicked v ≡ aborted x) × (answer_panic v.status r v ≡ aborted x))
              ⊎ (((x : Writer) × (u : Writer) × (panicked v ≡ panicked x)
                    × (x.status ≡ 0)
                    × (answer_panic v.status r v ≡ returned u)
                    × (u.status ≡ 500))
                  ⊎ ((x : Writer) × (panicked v ≡ panicked x)
                      × (x.status ≢ 0)
                      × (answer_panic v.status r v ≡ aborted x))))
    by_status zero e = inr (
        inr (
          inl (
            v,
            status_problem 500 "internal server error" r v,
            refl,
            e,
            rw e,
            (status_problem_lem 500 "internal server error" r v e).0,
          )))
    by_status (suc n) e = inr (inr (inr (v, refl, omega arith, rw e)))

-- The recoverer turns no response that has started into a problem, and lets no panic through but
-- the one that aborts the connection: a handler that panics before it starts its response is a 500
-- problem, one that panics later is an aborted connection, and any other end is kept.
pub recoverer_lem :
    (next : Request → Writer → Ending) (r : Request) (w : Writer)
    → ((v : Writer) × (next r w ≡ returned v) × (recoverer next r w ≡ returned v))
      ⊎ (((v : Writer) × (next r w ≡ aborted v) × (recoverer next r w ≡ aborted v))
          ⊎ (((v : Writer) × (u : Writer) × (next r w ≡ panicked v)
                × (v.status ≡ 0)
                × (recoverer next r w ≡ returned u)
                × (u.status ≡ 500))
              ⊎ ((v : Writer) × (next r w ≡ panicked v)
                  × (v.status ≢ 0)
                  × (recoverer next r w ≡ aborted v))))
unfolding recoverer
recoverer_lem next r w = recover_lem r (next r w)

-- A guarded handler runs exactly where a token is configured and the request's bearer token is that
-- token; any other request is a 401.
pub token_guard_lem :
    (token : Bytes) (next : Handler) (r : Request) (w : Writer)
    → ((token ≢ [])
        × (bearer_token (header "Authorization" r) ≡ token)
        × (token_guard token next r w ≡ next r w))
      ⊎ (((token ≡ []) ⊎ (bearer_token (header "Authorization" r) ≢ token))
          × (token_guard token next r w ≡ pure (http_error "unauthorized" 401 w)))
unfolding token_guard
token_guard_lem token next r w =
    ground (arith, same_iff token [], same_iff (bearer_token (header "Authorization" r)) token)

-- The readiness probe answers 200 exactly where the flag is set and the database answers, and 503
-- otherwise. The liveness probe answers 200 whatever they are.
pub readyz_iff :
    (h : Health) (ping : Bool) (w : Writer)
    → w.status ≡ 0
    → (((readyz h ping w).status ≡ 200) ↔ ((h.ready ≡ true) × (ping ≡ true)))
      × (((readyz h ping w).status ≡ 200) ⊎ ((readyz h ping w).status ≡ 503))
      × ((livez h w).status ≡ 200)
unfolding readyz livez
readyz_iff h ping w fresh = ground arith
