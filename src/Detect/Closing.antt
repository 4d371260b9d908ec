-- ===== src/Detect/Closing.antt =====
-- The end of a connection in `handle` of internal/detect/detector.go.
use honeypot_go.Base.{
  ℕ, ◌≡◌, refl, Option, none, some, if◌then◌else◌, Bytes, codes, same, same_iff, Bool-cases, inl,
  inr,
}
use honeypot_go.Base.Dict.{get, get-remove}
use honeypot_go.Event.Defs.{Event, event_str, connection_closed}
use honeypot_go.Detect.Rules.{Net, ConnState}
use honeypot_go.Detect.Defs.{Detector, close_conn, dispatch, handle}
use honeypot_go.Detect.Score.{IsTracked}

close_conn-get :
    (now : ℕ) (id : Bytes) (d : Detector)
    → IsTracked d
    → (o : Option ConnState) → get id d.conns ≡ o
    → (j : Bytes) → get j (close_conn now o d).conns ≡ (if same id j then none else get j d.conns)
close_conn-get now id d t none e j = elim (Bool-cases (same id j)) [
  | inl s ↦ rw (s, ← (same_iff id j).0 s) e
  | inr s ↦ rw s refl
]
close_conn-get now id d t (some st) e j = rw (get-remove, (t id st e).1) refl

abbrev pub conn_id_of : Event → Bytes
conn_id_of ev = event_str ev (codes "connection_id")

-- In a detector whose connections stand under their own identities, the event that a connection
-- has closed takes out the state of that connection and no other's, and the same event once more,
-- at whatever time, changes nothing: it sends no second final report.
pub handle-closed :
    (net : Net) (now later : ℕ) (ev again : Event) (d : Detector)
    → IsTracked d
    → ev.kind ≡ connection_closed
    → again.kind ≡ connection_closed
    → conn_id_of again ≡ conn_id_of ev
    → ((j : Bytes)
        → get j (handle net now ev d).conns
          ≡ (if same (conn_id_of ev) j then none else get j d.conns))
      × (handle net later again (handle net now ev d) ≡ handle net now ev d)
unfolding handle dispatch
handle-closed net now later ev again d t k l e =
    rw (k, l)
      (gone, rw (e, gone (conn_id_of ev), (same_iff (conn_id_of ev) (conn_id_of ev)).1 refl) refl)
  where
    gone :
        (j : Bytes)
        → get j (close_conn now (get (conn_id_of ev) d.conns) d).conns
          ≡ (if same (conn_id_of ev) j then none else get j d.conns)
    gone = close_conn-get now (conn_id_of ev) d t (get (conn_id_of ev) d.conns) refl
