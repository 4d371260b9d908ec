-- ===== src/Detect/Alerts.antt =====
-- The alerts of one event, the webhook queue, and the summary of a closed connection.
use honeypot_go.Base.{
  ℕ, suc, ◌+◌, ◌≤◌, ◌≡◌, refl, ap, true, List, [], ◌∷◌, length, length-append, arith, if◌then◌else◌,
  ltb, Bytes, codes, same, Bool-cases, inl, inr,
}
use honeypot_go.Base.Dict.{get}
use honeypot_go.Event.Defs.{Event, event_str}
use honeypot_go.Detect.Rules.{Net, ConnState, Rule, severity_for_score}
use honeypot_go.Detect.Defs.{
  Output, post, notify_queue_cap, enqueue_notify, alert_event, raise_alert, check_rule, check_rules,
}
use honeypot_go.Detect.Score.{check_rule-Step, fire}

-- The pushes asked for so far: those that wait and those that were dropped.
abbrev pub pushes : Output → ℕ
pushes out = length out.notify + out.dropped_alerts

pub pushes-enqueue_notify :
    (ev : Event) (out : Output)
    → (pushes (enqueue_notify ev out) ≡ pushes out + 1)
      × (length out.notify ≤ notify_queue_cap
          → length (enqueue_notify ev out).notify ≤ notify_queue_cap)
      × ((enqueue_notify ev out).published ≡ out.published)
unfolding enqueue_notify
pushes-enqueue_notify ev out = elim (Bool-cases (ltb (length out.notify) notify_queue_cap)) [
  | inl r ↦ rw r (
    omega (arith, length-append out.notify (ev ∷ [])),
    λ h. omega (arith, length-append out.notify (ev ∷ []), lt_of r),
    refl,
  )
  | inr r ↦ rw r (omega arith, λ h. h, refl)
]
  where
    lt_of :
        ltb (length out.notify) notify_queue_cap ≡ true → suc (length out.notify) ≤ notify_queue_cap
    lt_of h = ground arith

-- One alert on the bus, and with a webhook one push.
raise_alert-counts :
    (url : Bytes) (now : ℕ) (ev : Event) (st : ConnState) (r : Rule) (out : Output)
    → let out' = raise_alert url now ev st r out in
      (length out'.published ≡ length out.published + 1)
      × (pushes out' ≡ pushes out + (if same url [] then 0 else 1))
      × (length out.notify ≤ notify_queue_cap → length out'.notify ≤ notify_queue_cap)
unfolding raise_alert
raise_alert-counts url now ev st r out =
    let a = alert_event now ev st r in
    elim (Bool-cases (same url [])) [
      | inl e ↦ rw e (omega (arith, length-append out.published (a ∷ [])), omega arith, λ h. h)
      | inr e ↦ rw e (
        omega (
          arith,
          length-append out.published (a ∷ []),
          ap length (pushes-enqueue_notify a (post a out)).2,
        ),
        (pushes-enqueue_notify a (post a out)).0,
        (pushes-enqueue_notify a (post a out)).1,
      )
    ]

-- Between two moments of a check: one alert for each name that has been added to the fired ones, with
-- a webhook one push for each, and the webhook queue within its capacity.
pub record Counts (url : Bytes) (a b : ConnState × Output) : Type 0 where
  pub alerts : length b.1.published + length a.0.fired ≡ length a.1.published + length b.0.fired
  pub pushed :
      pushes b.1 + (if same url [] then 0 else length a.0.fired)
      ≡ pushes a.1 + (if same url [] then 0 else length b.0.fired)
  pub queued : length a.1.notify ≤ notify_queue_cap → length b.1.notify ≤ notify_queue_cap

Counts-refl : (url : Bytes) (a : ConnState × Output) → Counts url a a
Counts-refl url a = record { alerts = refl; pushed = refl; queued = λ h. h }

Counts-trans :
    (url : Bytes) (a b c : ConnState × Output) → Counts url a b → Counts url b c → Counts url a c
Counts-trans url a b c h k = record {
  alerts = omega (arith, h.alerts, k.alerts);
  pushed = ground (arith, h.pushed, k.pushed);
  queued = λ q. k.queued (h.queued q);
}

check_rule-Counts :
    (net : Net) (url : Bytes) (now : ℕ) (ev : Event) (r : Rule) (st : ConnState) (out : Output)
    → Counts url (st, out) (check_rule net url now ev r (st, out))
check_rule-Counts net url now ev r st out = elim (check_rule-Step net url now ev r st out) [
  | inl e ↦ rw e (Counts-refl url (st, out))
  | inr (t, e) ↦ rw e (
      let c = raise_alert-counts url now ev (fire net url now ev r st) r out in
      record { alerts = omega (arith, c.0); pushed = ground (arith, c.1); queued = c.2 })
]

-- The check of one event publishes exactly one alert for each rule that it fires anew, with a webhook
-- it asks for exactly one push for each (queued or dropped), and a webhook queue of at most 64 stays
-- so.
pub check_rules-Counts :
    (net : Net) (url : Bytes) (now : ℕ) (ev : Event) (rs : List Rule) (s : ConnState × Output)
    → Counts url s (check_rules net url now ev rs s)
unfolding check_rules
check_rules-Counts net url now ev [] s = Counts-refl url s
check_rules-Counts net url now ev (r ∷ rs) (st, out) =
    let mid = check_rule net url now ev r (st, out) in
    Counts-trans url (st, out) mid (check_rules net url now ev rs mid)
      (check_rule-Counts net url now ev r st out) (check_rules-Counts net url now ev rs mid)

-- The alerts carry the severity of the score that the connection has with the new points, for every
-- rule that gives points.
pub alert_event-severity :
    (now : ℕ) (ev : Event) (st : ConnState) (r : Rule)
    → 1 ≤ r.points
    → event_str
        (alert_event now ev (record st { score = st.score + r.points }) r)
        (codes "severity")
      ≡ severity_for_score (st.score + r.points)
unfolding alert_event event_str get same
alert_event-severity now ev st r h = rw (pos r.points h)
  where
    pos : (n : ℕ) → 1 ≤ n → ltb 0 n ≡ true
    pos n k = ground arith
