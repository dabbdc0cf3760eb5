-- ===== src/Http/Analytics/Days.antt =====
-- Ranges by their number of days.
use event_observability_plat.Common.{
  ℕ, ◌*◌, ◌≤◌, ◌<◌, ◌≡◌, ◌≢◌, refl, ap, sym, ◌∙◌, arith, String, true, none, some, ℤ, pos, ◌+ℤ◌,
  ◌-ℤ◌, ◌≤ℤ◌,
}
use event_observability_plat.Runtime.{World, Machine}
use event_observability_plat.Storage.Querier.{daily_events}
use event_observability_plat.Http.Dates.{parse_date, midnight, day, is_date}
use event_observability_plat.Http.Dates.Days.{
  date_text, days_later, parse-date_text, days_later-midnight,
}
use event_observability_plat.Http.Analytics.{DateRange, after_query, daily_events_reply}
use event_observability_plat.Http.Analytics.Ranges.{daily_events_reply_cases}

-- The range from one date to another.
abbrev pub range_of : ℕ × ℕ × ℕ → ℕ × ℕ × ℕ → DateRange
range_of (y, month, d) (y', month', d') = record {
  from = date_text y month d;
  to = date_text y' month' d';
}

read_text : (s : String) (t : ℤ) → parse_date s ≡ some t → s ≢ ""
read_text s t read empty =
    let nothing : parse_date "" ≡ none = unfold parse_date in refl in
    let both : none ≡ some t = sym nothing ∙ (ap parse_date (sym empty) ∙ read) in
    ground (arith, both)

days_apart : (from : ℤ) (k : ℕ) → ((from +ℤ pos k) -ℤ from) ≡ pos k
unfolding ◌-ℤ◌ ◌+ℤ◌
days_apart from k = ground arith

from_before : (from : ℤ) (k : ℕ) → from ≤ℤ (from +ℤ pos k)
unfolding ◌+ℤ◌
from_before from k = ground arith

-- A request for the range from a date to the date n days after it in the calendar, both written as YYYY-MM-DD, is
-- answered with what the query from the one midnight to the other, n times 24 hours later, gives where n is at most
-- 366; where n is more, it is answered 400 and nothing is asked. The years are at most 9999.
pub days_are_answered :
    (m : Machine) (w : World) (y month d n : ℕ)
    → is_date y month d ≡ true
    → y < 10000
    → (days_later n (y, month, d)).0 < 10000
    → let reply = daily_events_reply m (range_of (y, month, d) (days_later n (y, month, d))) w in
      let from = midnight y month d in
      let asked = daily_events m from (from +ℤ pos (n * day)) w in
      (n ≤ 366 → reply ≡ after_query m asked.0 asked.1)
      × (366 < n → (reply.0.status ≡ 400) × (reply.1 ≡ w))
days_are_answered m w y month d n v small small' =
    let (y', month', d') = days_later n (y, month, d) in
    let later = days_later-midnight n (y, month, d) v in
    let from = midnight y month d in
    let to = from +ℤ pos (n * day) in
    let r = range_of (y, month, d) (y', month', d') in
    let read_from : parse_date r.from ≡ some from = parse-date_text y month d small v in
    let read_to : parse_date r.to ≡ some to =
      parse-date_text y' month' d' small' later.0 ∙ ap some later.1 in
    let cases = daily_events_reply_cases m r w in
    (
      λ few. cases.0 from to (record {
        given_from = read_text r.from from read_from;
        given_to = read_text r.to to read_to;
        read_from = read_from;
        read_to = read_to;
        ordered = from_before from (n * day);
        short = ground (arith, days_apart from (n * day), few);
      }),
      λ many. cases.1 (λ i. ground (
        arith,
        days_apart from (n * day),
        many,
        i.2.read_from,
        i.2.read_to,
        i.2.short,
        read_from,
        read_to,
      )),
    )
