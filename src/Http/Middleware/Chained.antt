-- ===== src/Http/Middleware/Chained.antt =====
-- What the chain of the server adds to its routes.
use event_observability_plat.Common.{
  ◌≡◌, ◌∙◌, arith, String, true, false, str_eq, none, some, List, [], ◌∷◌, ◌++◌, if◌then◌else◌,
  itoa,
}
use event_observability_plat.Runtime.{http_requests}
use event_observability_plat.Http.Middleware.{
  HttpRequest, Served, Handler, fields, with_request_id, chain, request_id, request_logger, recover,
  max_body_size, server_handler, written, add_count, traced, first_status, error_headers,
}
use event_observability_plat.Messaging.Carrier.{get, set, get-set_header}

-- The id under which a request runs, and the request and the response as the routes get them.
abbrev pub id_of : String → HttpRequest → String
id_of fresh r = if str_eq r.request_header "" then fresh else r.request_header

abbrev pub inner : String → HttpRequest → HttpRequest
inner fresh r = record r {
  context = with_request_id (traced r) (id_of fresh r);
  limit = some 1048576;
}

abbrev pub identified : String → HttpRequest → Served → Served
identified fresh r s = record s { headers = set s.headers "X-Request-ID" (id_of fresh r) }

error_type :
    (headers : List (String × String))
    → get (error_headers none headers) "Content-Type" ≡ "text/plain; charset=utf-8"
unfolding error_headers
error_type headers =
    let typed = set headers "Content-Type" "application/json" in
    get-set_header (set typed "Content-Type" "text/plain; charset=utf-8") "X-Content-Type-Options"
      "nosniff" "Content-Type"
    ∙ get-set_header typed "Content-Type" "text/plain; charset=utf-8" "Content-Type"

module _ (fresh : String) (routes : Handler) (r : HttpRequest) (s : Served) where
  -- The routes run with the request's id in their context, with the body held to 1 MiB, and the id in the
  -- header of the response. Where they do not panic, their status and headers are those of the response, one
  -- line is logged and one request counted under the status written, or 200; the line has the fields of the
  -- context outside `RequestID`, without the id that the routes ran under. Where they panic, the status is 500
  -- unless one was written, only the panic is logged, the state is what they left, and the panic goes no
  -- further; the type of the content is then plain text, unless a status was written before.
  pub server_handler_cases :
      let out = routes (inner fresh r) (identified fresh r s) in
      (out.panicked ≡ false
        → (server_handler fresh routes r s).lines
          ≡ out.lines ++ record { text = "request"; fields = fields (traced r) } ∷ [])
      × (out.panicked ≡ false
          → (server_handler fresh routes r s).world
            ≡ add_count (http_requests r.method r.path (itoa (written out.status))) out.world)
      × (out.panicked ≡ true
          → ((server_handler fresh routes r s).status ≡ first_status out.status 500)
            × ((server_handler fresh routes r s).world ≡ out.world)
            × ((server_handler fresh routes r s).lines
                ≡ out.lines ++ record { text = "panic recovered"; fields = fields r.context } ∷ []))
      × ((server_handler fresh routes r s).panicked ≡ false)
      × (out.panicked ≡ false
          → ((server_handler fresh routes r s).headers ≡ out.headers)
            × ((server_handler fresh routes r s).status ≡ out.status))
      × (out.panicked ≡ true
          → out.status ≡ none
          → get (server_handler fresh routes r s).headers "Content-Type"
            ≡ "text/plain; charset=utf-8")
  unfolding server_handler chain recover request_logger request_id max_body_size
  server_handler_cases = (
    λ h. ground (arith, h),
    λ h. ground (arith, h),
    λ h. (ground (arith, h), ground (arith, h), ground (arith, h)),
    ground arith,
    λ h. (ground (arith, h), ground (arith, h)),
    λ h e. ground (arith, h, e, error_type (routes (inner fresh r) (identified fresh r s)).headers),
  )
