-- ===== src/Notifier.antt =====
-- internal/infra/outbound/notifier/notifier.go, with encoding/json of Json.
use event_observability_plat.Common.{
  ℕ, ◌≤◌, ◌<◌, ◌≡◌, refl, arith, String, some, List, [], leb, if◌then◌else◌, ◌^^◌, itoa, pos,
}
use event_observability_plat.Errors.{Err, message, wrapped, Result, ok, err}
use event_observability_plat.Json.{before}
use event_observability_plat.Json.Text.{quoted}
use event_observability_plat.Client.{
  Client, Environment, Response, Request, Outcome, response, failed, panic, perform, request_of,
  whole,
}
use event_observability_plat.Client.Attempts.{AtMost, attempts, perform-AtMost}
use event_observability_plat.Client.Results.{perform_final}

pub record EventNotification : Type 0 where
  pub event_id : String
  pub event_type : String
  pub source : String

-- What `Notify` returns: no error, or one; or the panic of the client.
pub data Notified : Type 0 where
  delivered : Notified
  refused : Err → Notified
  panicked : Notified

unfoldable pub notify_answer : Outcome → Notified
notify_answer (failed e) = refused (wrapped "notifier: send notification" e)
notify_answer (response r) =
    if leb 400 r.status_code
    then refused (message ("notifier: unexpected status " ^^ itoa r.status_code ^^ ": " ^^ r.body))
    else delivered
notify_answer panic = panicked

-- `json.Marshal` of a notification, which never fails.
unfoldable pub encode_notification : EventNotification → String
unfolding before quoted
encode_notification n = before "{\"event_id\":" (
    quoted n.event_id (
      before ",\"event_type\":"
        (quoted n.event_type (before ",\"source\":" (quoted n.source "}")))))

unfoldable pub marshal_notification : EventNotification → Result String
marshal_notification n = ok (encode_notification n)

module _ (env : Environment) where
  unfoldable pub notify_payload : Client → Result String → Client × List Request × Notified
  unfolding notify_answer
  notify_payload c (err e) = (c, [], refused (wrapped "notifier: marshal payload" e))
  notify_payload c (ok payload) =
      let (c', sent, outcome) = perform env c "POST" "/notify" (some payload) in
      (c', sent, notify_answer outcome)

  -- `Notify`
  unfoldable pub notify : Client → String → String → String → Client × List Request × Notified
  unfolding notify_payload marshal_notification
  notify c event_id event_type source = notify_payload c (
      marshal_notification
        (record { event_id = event_id; event_type = event_type; source = source }))

delivered_response :
    (o : Outcome)
    → notify_answer o ≡ delivered
    → (r : Response) × (o ≡ response r) × (r.status_code < 400)
unfolding notify_answer
delivered_response (response r) h = (r, refl, ground arith)
delivered_response (failed e) h = absurd (ground arith)
delivered_response panic h = absurd (ground arith)

module _ (env : Environment) (c : Client) (n : ℕ) (retries : c.max_retries ≡ pos n) where
  -- A notification that was delivered: what was sent, and the attempt whose answer says so.
  pub record IsDelivered (notification : EventNotification) (sent : List Request) : Type 0 where
    pub attempt : ℕ
    pub within : attempt ≤ n
    pub reply : Response
    pub answered : (env.exchange attempt).answer ≡ whole reply
    pub accepted : reply.status_code < 400
    pub posted :
        AtMost
          (request_of env c "POST" "/notify" (some (encode_notification notification)))
          (attempts c.max_retries)
          sent

  -- Where `Notify` returns no error, one of the attempts that `MaxRetries` allows was answered whole and with a status
  -- below 400, and all that was sent is the one POST to /notify with the notification as JSON, at most
  -- as often as there are attempts.
  pub notify-IsDelivered :
      (event_id event_type source : String)
      → (notify env c event_id event_type source).2 ≡ delivered
      → IsDelivered
          (record { event_id = event_id; event_type = event_type; source = source })
          (notify env c event_id event_type source).1
  unfolding notify notify_payload marshal_notification
  notify-IsDelivered event_id event_type source h =
      let notification : EventNotification = record {
        event_id = event_id;
        event_type = event_type;
        source = source;
      } in
      let payload = some (encode_notification notification) in
      let (r, is, below) = delivered_response (perform env c "POST" "/notify" payload).2 h in
      let (k, within, answered, last) =
        (perform_final env c "POST" "/notify" payload n retries).0 r is in
      record {
        attempt = k;
        within = within;
        reply = r;
        answered = answered;
        accepted = below;
        posted = perform-AtMost env c "POST" "/notify" payload;
      }
