-- ===== src/System/Delivered.antt =====
-- One event on its whole way: accepted, queued, fetched and processed.
use event_observability_plat.Common.{
  ◌≡◌, inl, refl, ◌∙◌, ap, arith, String, true, str_eq_iff, none, some, List, [], ◌∷◌, ◌++◌, ℤ, pos,
}
use event_observability_plat.Errors.{ok}
use event_observability_plat.Domain.{processed, EventMessage}
use event_observability_plat.Mapper.{encode, unmarshal_event_message}
use event_observability_plat.Mapper.RoundTrip.{unmarshal-marshal}
use event_observability_plat.Runtime.{World, Machine, Count}
use event_observability_plat.Storage.Events.{find_row, with_status}
use event_observability_plat.Storage.Events.Rows.{find_row-append_new}
use event_observability_plat.Storage.Analytics.{log_row}
use event_observability_plat.Storage.Idempotency.{find_key, unexpired}
use event_observability_plat.Ingest.Success.{message_of, first_attempt}
use event_observability_plat.Process.{ProcessEvent, Verdict, done, execute}
use event_observability_plat.Process.Success.{execute_processes}
use event_observability_plat.Worker.{Topics, count_done, route, process_decoded, process_message}
use event_observability_plat.Http.{webhook_response, write_json}
use event_observability_plat.Http.Webhook.{WebhookHandler, WebhookRequest, Incoming, handle_event}
use event_observability_plat.Http.Webhook.Replay.{
  Reaches, Reaches-handle, IsSound, new_id, added, accepted, accept_quiet,
}

-- A message that is done with leaves the tables as the use case leaves them.
done_tables :
    (m : Machine) (uc : ProcessEvent) (topics : Topics) (value : String) (msg : EventMessage)
    (w : World)
    → unmarshal_event_message m.json_error value ≡ ok msg
    → (execute m uc msg w).0.action ≡ done
    → let after = (process_message m uc topics value w).1 in
      (after.events ≡ (execute m uc msg w).1.events)
      × (after.log ≡ (execute m uc msg w).1.log)
      × (after.sent ≡ (execute m uc msg w).1.sent)
unfolding process_message process_decoded route count_done
done_tables m uc topics value msg w parsed over =
    (ground (arith, parsed, over), ground (arith, parsed, over), ground (arith, parsed, over))

-- Where no call fails, a request whose key has no live entry is accepted with 202 and puts one message into the
-- queue; and the worker that then handles that message makes the stored event processed, writes one row about
-- it to events_log, and queues nothing, whatever the counters are by then. The id is not in use, and there are
-- a publisher and an analytics writer.
pub accepted_is_processed :
    (m : Machine) (h : WebhookHandler) (q : WebhookRequest) (first : Incoming) (w : World)
    (s : IsSound m h w) (uc : ProcessEvent) (topics : Topics) (counts : List Count)
    → Reaches first q
    → unexpired (m.clock w.tick) (find_key q.idempotency_key w.keys) ≡ none
    → uc.analytics ≡ true
    → let id = new_id m h q first.trace_id w s in
      let e = added m h q first.trace_id w s in
      let value = encode (first_attempt id) in
      let one = handle_event m h first w in
      let two = process_message m uc topics value (record one.1 { counts = counts }) in
      (one.0 ≡ write_json 202 (webhook_response id first.trace_id))
      × (one.1.sent ≡ w.sent ++ message_of m h.ingest.topic id value ∷ [])
      × ((at : ℤ) × (find_row id two.1.events ≡ some (with_status processed (some at) e)))
      × ((at : ℤ) × (two.1.log ≡ w.log ++ log_row e at ∷ []))
      × (two.1.sent ≡ one.1.sent)
accepted_is_processed m h q first w s uc topics counts r dead writer =
    let trace = first.trace_id in
    let w' : World = record (accepted m h q trace w s) { counts = counts } in
    let e = added m h q trace w s in
    let msg : EventMessage = record { event_id = e.id; attempt = pos 1 } in
    let reply = Reaches-handle m h first q w r ∙ accept_quiet m h q trace w s dead in
    let stored : find_row e.id w'.events ≡ some e =
      ground (arith, find_row-append_new e e.id w.events s.fresh, str_eq_iff e.id e.id) in
    let run = execute_processes m s.quiet uc msg w' e stored (inl refl) writer in
    let tables =
      done_tables m uc topics (encode msg) msg w'
        (unmarshal-marshal m.json_error msg (omega arith)).1
        (ap (λ (v : Verdict). v.action) run.0) in
    rw reply (
      refl,
      refl,
      (run.1.0, ap (find_row e.id) tables.0 ∙ run.1.1),
      (run.3.0, tables.1 ∙ run.3.1),
      tables.2 ∙ run.4,
    )
