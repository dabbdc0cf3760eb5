-- ===== src/Http/Server.antt =====
-- internal/app/http/http.go: the routes that `NewServer` registers, as http.ServeMux reads them, and the handlers
-- behind them. A path is clean, without empty or dotted parts, and CONNECT requests are left out.
pub mod Routing
use text.Mathlib.Text.{starts_with}
use event_observability_plat.Common.{
  ℕ, ◌^^◌, String, Bool, true, false, not, ◌&&◌, ◌||◌, str_eq, Option, none, some, List, [], ◌∷◌,
  ◌++◌, if◌then◌else◌,
}
use event_observability_plat.Errors.{Err}
use event_observability_plat.Runtime.{World, Machine, M, ◌>>=◌, ◌>>◌, pure, gets, call}
use event_observability_plat.Http.{Reply}
use event_observability_plat.Http.Health.{health, ready}
use event_observability_plat.Http.Webhook.{WebhookHandler, Incoming, handle_event}
use event_observability_plat.Http.Analytics.{DateRange, daily_events_reply}

pub data Route : Type 0 where
  health_page ready_page ingest_event daily_stats metrics_page swagger_page : Route
  pprof_page : String → Route
  -- the answers of the mux itself: to the path with a slash behind it, 405, and 404
  moved not_allowed not_found : Route

-- A pattern of the mux: with a method or for all, for one path or for a subtree.
pub record Pattern : Type 0 where
  pub method : Option String
  pub path : String
  pub subtree : Bool
  pub route : Route

abbrev pub get_at : String → Route → Pattern
get_at path route = record { method = some "GET"; path = path; subtree = false; route = route }

abbrev pub pprof_patterns : List Pattern
pprof_patterns =
    get_at "/debug/pprof/cmdline" (pprof_page "cmdline")
    ∷ get_at "/debug/pprof/profile" (pprof_page "profile")
    ∷ get_at "/debug/pprof/symbol" (pprof_page "symbol")
    ∷ get_at "/debug/pprof/trace" (pprof_page "trace")
    ∷ record {
      method = some "GET";
      path = "/debug/pprof/";
      subtree = true;
      route = pprof_page "index";
    }
    ∷ []

-- The patterns, the more specific ones first.
abbrev pub patterns : Bool → List Pattern
patterns pprof =
    get_at "/health" health_page
    ∷ get_at "/ready" ready_page
    ∷ record {
      method = some "POST";
      path = "/webhooks/events";
      subtree = false;
      route = ingest_event;
    }
    ∷ get_at "/analytics/daily-events" daily_stats
    ∷ get_at "/metrics" metrics_page
    ∷ record { method = none; path = "/swagger/"; subtree = true; route = swagger_page }
    ∷ (if pprof then pprof_patterns else [])

-- A pattern for GET matches HEAD too.
unfoldable pub takes_method : Option String → String → Bool
takes_method none method = true
takes_method (some wanted) method =
    str_eq method wanted || (str_eq wanted "GET" && str_eq method "HEAD")

unfoldable pub takes_path : Pattern → String → Bool
takes_path p path = if p.subtree then starts_with path p.path else str_eq path p.path

-- The path of a subtree, but for the slash at its end.
unfoldable pub lacks_slash : Pattern → String → Bool
lacks_slash p path = p.subtree && str_eq (path ^^ "/") p.path

-- The first of the patterns that matches; and else a redirection, a refusal of the method, or 404.
unfoldable pub first_match : String → String → List Pattern → Option Route
first_match method path [] = none
first_match method path (p ∷ rest) =
    let later = first_match method path rest in
    if takes_path p path && takes_method p.method method then some p.route else later

unfoldable pub any_lacks_slash : String → String → List Pattern → Bool
any_lacks_slash method path [] = false
any_lacks_slash method path (p ∷ rest) =
    (lacks_slash p path && takes_method p.method method) || any_lacks_slash method path rest

unfoldable pub any_takes_path : String → List Pattern → Bool
any_takes_path path [] = false
any_takes_path path (p ∷ rest) = takes_path p path || any_takes_path path rest

unfoldable pub route_of : Bool → String → String → Route
route_of pprof method path = elim (first_match method path (patterns pprof)) [
  | some route ↦ route
  | none ↦
      if any_lacks_slash method path (patterns pprof)
      then moved
      else if any_takes_path path (patterns pprof)
      then not_allowed
      else not_found
]

-- The server: the handlers with what they were built from, and the replies of the pages that libraries serve.
pub record Server : Type 0 where
  pub webhook : WebhookHandler
  pub pprof : Bool
  pub page : Route → World → Reply

-- A request, with what the handlers read of it.
pub record Request : Type 0 where
  pub method : String
  pub path : String
  pub incoming : Incoming
  pub range : DateRange

module _ (m : Machine) (s : Server) where
  unfoldable pub serve_route : Route → Request → M Reply
  serve_route health_page r = pure health
  serve_route ready_page r = do fault ← call m; pure (ready fault)
  serve_route ingest_event r = handle_event m s.webhook r.incoming
  serve_route daily_stats r = daily_events_reply m r.range
  serve_route metrics_page r = gets (s.page metrics_page)
  serve_route swagger_page r = gets (s.page swagger_page)
  serve_route (pprof_page name) r = gets (s.page (pprof_page name))
  serve_route moved r = gets (s.page moved)
  serve_route not_allowed r = gets (s.page not_allowed)
  serve_route not_found r = gets (s.page not_found)

  -- The routes of the server.
  unfoldable pub serve : Request → M Reply
  serve r = serve_route (route_of s.pprof r.method r.path) r
