-- ===== src/Http/Server/Routing.antt =====
-- Which requests reach which handler, and what they can change.
use event_observability_plat.Common.{
  ◌≡◌, ◌≢◌, ◌⊎◌, inl, inr, refl, arith, String, Bool, true, false, ◌&&◌, str_eq_iff, Bool-cases,
  Option-cases, some, List, [], ◌∷◌, ◌++◌, All, ℤ,
}
use event_observability_plat.Errors.{Result, ok, err}
use event_observability_plat.Domain.{DailyEventStat}
use event_observability_plat.Runtime.{World, Machine, call, tick}
use event_observability_plat.Storage.Querier.{daily_events, scan_stats, select_stats, stats_answer}
use event_observability_plat.Http.Analytics.{after_query, daily_events_reply}
use event_observability_plat.Http.Analytics.Ranges.{reply_cases, daily_events_reply_cases}
use event_observability_plat.Http.Webhook.{handle_event}
use event_observability_plat.Http.Server.{
  Route, health_page, ready_page, ingest_event, daily_stats, metrics_page, swagger_page, pprof_page,
  moved, not_allowed, not_found, Pattern, patterns, takes_method, takes_path, first_match, route_of,
  Server, Request, serve_route, serve,
}

-- A pattern whose route is the ingestion is the one that is registered for it.
IsIngestion : Pattern → Type 0
IsIngestion p =
    p.route ≡ ingest_event
    → (p.method ≡ some "POST") × (p.path ≡ "/webhooks/events") × (p.subtree ≡ false)

first_match-IsIngestion :
    (method path : String) (ps : List Pattern)
    → All IsIngestion ps
    → first_match method path ps ≡ some ingest_event
    → (method ≡ "POST") × (path ≡ "/webhooks/events")
unfolding first_match takes_path takes_method IsIngestion
first_match-IsIngestion method path [] all h = absurd (ground arith)
first_match-IsIngestion method path (p ∷ rest) all h =
    elim (Bool-cases (takes_path p path && takes_method p.method method)) [
      | inl e ↦
          let is = all.0 (ground (arith, e)) in
          ground (arith, e, is, str_eq_iff method "POST", str_eq_iff path "/webhooks/events")
      | inr e ↦ first_match-IsIngestion method path rest all.1 (ground (arith, e))
    ]

registered : (pprof : Bool) → All IsIngestion (patterns pprof)
unfolding IsIngestion
registered true = ground arith
registered false = ground arith

route-webhook :
    (pprof : Bool) (method path : String)
    → route_of pprof method path ≡ ingest_event
    → (method ≡ "POST") × (path ≡ "/webhooks/events")
unfolding route_of
route-webhook pprof method path h =
    first_match-IsIngestion method path (patterns pprof) (registered pprof) (ground arith)

webhook-route : (pprof : Bool) → route_of pprof "POST" "/webhooks/events" ≡ ingest_event
unfolding route_of first_match takes_path takes_method
webhook-route true = refl
webhook-route false = refl

-- Without `PprofEnabled` no request reaches a page of pprof.
hidden-pprof : (method path name : String) → route_of false method path ≢ pprof_page name
unfolding route_of first_match
hidden-pprof method path name h = ground arith

-- The tables, the queue and the counters are as they were.
pub record IsUntouched (w₀ w : World) : Type 0 where
  pub events : w.events ≡ w₀.events
  pub keys : w.keys ≡ w₀.keys
  pub log : w.log ≡ w₀.log
  pub sent : w.sent ≡ w₀.sent
  pub counts : w.counts ≡ w₀.counts

scan-IsUntouched :
    (m : Machine) (w₀ : World) (acc rows : List DailyEventStat) (w : World)
    → IsUntouched w₀ w
    → IsUntouched w₀ (scan_stats m acc rows w).1
unfolding scan_stats call
scan-IsUntouched m w₀ acc [] w u = record {
  events = u.events;
  keys = u.keys;
  log = u.log;
  sent = u.sent;
  counts = u.counts;
}
scan-IsUntouched m w₀ acc (g ∷ rows) w u =
    let u' : IsUntouched w₀ (tick w) = record {
      events = u.events;
      keys = u.keys;
      log = u.log;
      sent = u.sent;
      counts = u.counts;
    } in
    elim (Option-cases (m.fault w.tick)) [
      | inl e ↦ rw e (scan-IsUntouched m w₀ (acc ++ g ∷ []) rows (tick w) u')
      | inr (x, e) ↦ rw e u'
    ]

query-IsUntouched :
    (m : Machine) (from to : ℤ) (w : World) → IsUntouched w (daily_events m from to w).1
unfolding daily_events stats_answer call
query-IsUntouched m from to w =
    let u : IsUntouched w (tick w) = record {
      events = refl;
      keys = refl;
      log = refl;
      sent = refl;
      counts = refl;
    } in
    elim (Option-cases (m.fault w.tick)) [
      | inl e ↦ rw e (scan-IsUntouched m w [] (select_stats from to w.log) (tick w) u)
      | inr (x, e) ↦ rw e u
    ]

answer_world :
    (m : Machine) (rows : Result (List DailyEventStat)) (w : World) → (after_query m rows w).1 ≡ w
unfolding after_query
answer_world m (ok rows) w = refl
answer_world m (err e) w = refl

module _ (m : Machine) (s : Server) (r : Request) (w : World) where
  same : IsUntouched w w
  same = record { events = refl; keys = refl; log = refl; sent = refl; counts = refl }

  daily-IsUntouched : IsUntouched w (daily_events_reply m r.range w).1
  daily-IsUntouched = elim (reply_cases m r.range w) [
    | inl (from, to, range) ↦
        let rows = daily_events m from to w in
        rw ((daily_events_reply_cases m r.range w).0 from to range)
          (rw (answer_world m rows.0 rows.1) (query-IsUntouched m from to w))
    | inr (refused, kept) ↦ rw kept same
  ]

  route-IsUntouched :
      (route : Route) → route ≢ ingest_event → IsUntouched w (serve_route m s route r w).1
  unfolding serve_route call
  route-IsUntouched health_page ne = same
  route-IsUntouched ready_page ne = record {
    events = refl;
    keys = refl;
    log = refl;
    sent = refl;
    counts = refl;
  }
  route-IsUntouched ingest_event ne = absurd (ne refl)
  route-IsUntouched daily_stats ne = daily-IsUntouched
  route-IsUntouched metrics_page ne = same
  route-IsUntouched swagger_page ne = same
  route-IsUntouched (pprof_page name) ne = same
  route-IsUntouched moved ne = same
  route-IsUntouched not_allowed ne = same
  route-IsUntouched not_found ne = same

  -- A POST to /webhooks/events is what the webhook handler makes of it; every other request leaves the tables,
  -- the queue and the events' counters as they are; and where pprof is not enabled, no page of it is reached.
  pub serve_cases :
      (r.method ≡ "POST"
        → r.path ≡ "/webhooks/events"
        → serve m s r w ≡ handle_event m s.webhook r.incoming w)
      × ((r.method ≢ "POST") ⊎ (r.path ≢ "/webhooks/events") → IsUntouched w (serve m s r w).1)
      × (s.pprof ≡ false → (name : String) → route_of s.pprof r.method r.path ≢ pprof_page name)
  unfolding serve serve_route
  serve_cases = (
    λ a b. rw a (rw b (rw (webhook-route s.pprof) refl)),
    λ other.
        route-IsUntouched (route_of s.pprof r.method r.path)
          (λ e. ground (arith, other, route-webhook s.pprof r.method r.path e)),
    λ off name. rw off (hidden-pprof r.method r.path name),
  )
