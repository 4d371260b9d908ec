-- ===== src/Detect/Defs.antt =====
-- internal/detect/detector.go: the state of `Detector` and the handler of one event. `Run` calls
-- `handle` for one event after the other from one goroutine, so no two calls overlap. `now` is what
-- `time.Now()` returns in the call.
use honeypot_go.Base.{
  ℕ, ◌+◌, Bool, true, false, ◌||◌, not, Option, none, some, List, [], ◌∷◌, ◌++◌, length,
  if◌then◌else◌, ltb, ◌==◌, Bytes, codes, same, contains_str,
}
use honeypot_go.Base.Dict.{get, put, remove}
use honeypot_go.Event.Defs.{
  Event, Kind, connection_opened, connection_closed, auth_attempt, session_opened, session_closed,
  command_executed, download_attempt, connect_attempt, file_written, alert, Value, str, num, new,
  event_str, event_bool,
}
use honeypot_go.Detect.Rules.{Net, ConnState, Rule, rules, severity_for_score}

abbrev pub notify_queue_cap : ℕ
notify_queue_cap = 64

-- The alerts published on the bus, the queue of the webhook worker, and the pushes dropped.
pub record Output : Type 0 where
  pub published : List Event
  pub notify : List Event
  pub dropped_alerts : ℕ

pub record Detector : Type 0 where
  pub webhook_url : Bytes
  pub conns : List (Bytes × ConnState)
  pub sess_conn : List (Bytes × Bytes)
  pub out : Output

abbrev pub fresh : Bytes → Bytes → ConnState
fresh conn_id source_ip = record {
  conn_id = conn_id;
  source_ip = source_ip;
  score = 0;
  attempts = 0;
  fails = 0;
  logged_in = false;
  login_at = 0;
  fired = [];
}

-- A send that does not block: without room the push is dropped and counted.
unfoldable pub enqueue_notify : Event → Output → Output
enqueue_notify ev out =
    if ltb (length out.notify) notify_queue_cap
    then record out { notify = out.notify ++ ev ∷ [] }
    else record out { dropped_alerts = out.dropped_alerts + 1 }

abbrev pub post : Event → Output → Output
post ev out = record out { published = out.published ++ ev ∷ [] }

unfoldable pub alert_event : ℕ → Event → ConnState → Rule → Event
unfolding severity_for_score event_str
alert_event now ev st r = new now alert (
    (codes "connection_id", str st.conn_id)
    ∷ (codes "session_id", str (event_str ev (codes "session_id")))
    ∷ (codes "source_ip", str st.source_ip)
    ∷ (codes "rule_name", str r.name)
    ∷ (codes "severity", str (if ltb 0 r.points then severity_for_score st.score else r.severity))
    ∷ (codes "score", num st.score)
    ∷ (
      codes "evidence",
      str (
          event_str ev (codes "command")
          ++ (event_str ev (codes "url")
              ++ (event_str ev (codes "path") ++ event_str ev (codes "target")))),
    )
    ∷ [])

-- `alert`
unfoldable pub raise_alert : Bytes → ℕ → Event → ConnState → Rule → Output → Output
unfolding alert_event enqueue_notify same
raise_alert webhook_url now ev st r out =
    let a = alert_event now ev st r in
    let out' = post a out in if same webhook_url [] then out' else enqueue_notify a out'

-- The body of the loop of `check`.
unfoldable pub check_rule : Net → Bytes → ℕ → Event → Rule → ConnState × Output → ConnState × Output
unfolding contains_str raise_alert
check_rule net webhook_url now ev r (st, out) =
    if contains_str st.fired r.name
    then (st, out)
    else if not (r.matches net now ev st)
    then (st, out)
    else let st' = record st { fired = r.name ∷ st.fired; score = st.score + r.points } in
      (st', raise_alert webhook_url now ev st' r out)

unfoldable pub check_rules :
    Net → Bytes → ℕ → Event → List Rule → ConnState × Output → ConnState × Output
check_rules net webhook_url now ev [] s = s
check_rules net webhook_url now ev (r ∷ rs) s =
    check_rules net webhook_url now ev rs (check_rule net webhook_url now ev r s)

-- `check` works on the state that the map points to under `conn_id`.
unfoldable pub check : Net → ℕ → Event → Bytes → ConnState → Detector → Detector
unfolding check_rule check_rules put
check net now ev conn_id st d =
    let (st', out') = check_rules net d.webhook_url now ev rules (st, d.out) in
    record d { conns = put conn_id st' d.conns; out = out' }

abbrev pub summary_name : Bytes
summary_name = codes "final_report"

abbrev pub summary_values : ConnState → List (Bytes × Value)
summary_values st =
    (codes "connection_id", str st.conn_id)
    ∷ (codes "source_ip", str st.source_ip)
    ∷ (codes "rule_name", str (codes "session_risk_summary"))
    ∷ (codes "severity", str (severity_for_score st.score))
    ∷ (codes "score", num st.score)
    ∷ []

unfoldable pub final_report : Bytes → ℕ → ConnState → Output → Output
unfolding severity_for_score contains_str enqueue_notify same
final_report webhook_url now st out =
    if st.score == 0 || contains_str st.fired summary_name
    then out
    else let out' =
        post
          (new now alert
            (summary_values st ++ (codes "evidence", str (codes "total score for session")) ∷ []))
          out in
      if same webhook_url [] then out' else enqueue_notify (new now alert (summary_values st)) out'

abbrev pub or_fresh : Option ConnState → Bytes → Bytes → ConnState
or_fresh none conn_id source_ip = fresh conn_id source_ip
or_fresh (some st) conn_id source_ip = st

abbrev pub or_empty : Option Bytes → Bytes
or_empty none = []
or_empty (some c) = c

unfoldable pub conn_of : Event → Detector → Bytes
unfolding event_str get
conn_of ev d =
    let sid = event_str ev (codes "session_id") in
    if same sid [] then [] else or_empty (get sid d.sess_conn)

abbrev pub close_conn : ℕ → Option ConnState → Detector → Detector
close_conn now none d = d
close_conn now (some st) d = record d {
  conns = remove st.conn_id d.conns;
  out = final_report d.webhook_url now st d.out;
}

abbrev pub count_attempt : ℕ → Bool → ConnState → ConnState
count_attempt now true st = record st {
  attempts = st.attempts + 1;
  logged_in = true;
  login_at = now;
}
count_attempt now false st = record st { attempts = st.attempts + 1; fails = st.fails + 1 }

-- The case of `handle` for the events of a session.
abbrev pub session_event : Net → ℕ → Event → Detector → Detector
session_event net now ev d =
    let conn = conn_of ev d in
    if same conn [] then d else check net now ev conn (or_fresh (get conn d.conns) conn []) d

unfoldable pub dispatch : Net → ℕ → Event → Kind → Detector → Detector
unfolding event_str event_bool get put remove same check final_report conn_of
dispatch net now ev connection_opened d =
    let id = event_str ev (codes "connection_id") in
    record d { conns = put id (fresh id (event_str ev (codes "source_ip"))) d.conns }
dispatch net now ev connection_closed d =
    close_conn now (get (event_str ev (codes "connection_id")) d.conns) d
dispatch net now ev auth_attempt d =
    let id = event_str ev (codes "connection_id") in
    let st = or_fresh (get id d.conns) id (event_str ev (codes "source_ip")) in
    check net now ev id (count_attempt now (event_bool ev (codes "success")) st) d
dispatch net now ev session_opened d = record d {
  sess_conn =
      put (event_str ev (codes "session_id")) (event_str ev (codes "connection_id")) d.sess_conn;
}
dispatch net now ev session_closed d = record d {
  sess_conn = remove (event_str ev (codes "session_id")) d.sess_conn;
}
dispatch net now ev command_executed d = session_event net now ev d
dispatch net now ev download_attempt d = session_event net now ev d
dispatch net now ev connect_attempt d = session_event net now ev d
dispatch net now ev file_written d = session_event net now ev d
dispatch net now ev alert d = d

unfoldable pub handle : Net → ℕ → Event → Detector → Detector
unfolding dispatch
handle net now ev d = dispatch net now ev ev.kind d

-- The loop of `Run`: each event with the time at which it is handled.
unfoldable pub run : Net → List (ℕ × Event) → Detector → Detector
unfolding handle
run net [] d = d
run net ((now, ev) ∷ evs) d = run net evs (handle net now ev d)
