-- ===== src/Detect/Score.antt =====
-- The risk score of a connection against the points of the rules that it has fired.
use honeypot_go.Base.{
  ℕ, ◌+◌, ◌≤◌, ◌≡◌, refl, ap, ◌∙◌, Bool, true, false, Option, none, some, List, [], ◌∷◌, arith,
  if◌then◌else◌, Bytes, codes, same, same_iff, contains_str, Bool-cases, Option-cases, inl, inr,
  ◌⊎◌,
}
use honeypot_go.Base.Dict.{get, put, remove, get-put, get-remove}
use honeypot_go.Event.Defs.{
  Event, Kind, connection_opened, connection_closed, auth_attempt, session_opened, session_closed,
  command_executed, download_attempt, connect_attempt, file_written, alert, event_str, event_bool,
}
use honeypot_go.Detect.Rules.{Net, ConnState, Rule, rules}
use honeypot_go.Detect.Defs.{
  Detector, Output, fresh, raise_alert, check_rule, check_rules, check, or_fresh, count_attempt,
  conn_of, close_conn, final_report, session_event, dispatch, handle, run,
}

-- The points of the rules whose names have been fired.
abbrev pub points_of : List Rule → List Bytes → ℕ
points_of [] fired = 0
points_of (r ∷ rs) fired = (if contains_str fired r.name then r.points else 0) + points_of rs fired

abbrev pub total_points : List Rule → ℕ
total_points [] = 0
total_points (r ∷ rs) = r.points + total_points rs

abbrev NotNamed : Bytes → List Rule → Type 0
NotNamed n [] = Unit {0}
NotNamed n (r ∷ rs) = (same n r.name ≡ false) × NotNamed n rs

abbrev Distinct : List Rule → Type 0
Distinct [] = Unit {0}
Distinct (r ∷ rs) = NotNamed r.name rs × Distinct rs

rules-Distinct : Distinct rules
unfolding same
rules-Distinct = (
  (refl, (refl, (refl, (refl, (refl, (refl, (refl, tt))))))),
  (
    (refl, (refl, (refl, (refl, (refl, (refl, tt)))))),
    (
      (refl, (refl, (refl, (refl, (refl, tt))))),
      (
        (refl, (refl, (refl, (refl, tt)))),
        ((refl, (refl, (refl, tt))), ((refl, (refl, tt)), ((refl, tt), (tt, tt)))),
      ),
    ),
  ),
)

points_of-le : (rs : List Rule) (fired : List Bytes) → points_of rs fired ≤ total_points rs
points_of-le [] fired = omega arith
points_of-le (r ∷ rs) fired = elim (Bool-cases (contains_str fired r.name)) [
  | inl t ↦ rw t (omega (arith, points_of-le rs fired))
  | inr t ↦ rw t (omega (arith, points_of-le rs fired))
]

points_of-cons :
    (rs : List Rule) (n : Bytes) (fired : List Bytes)
    → NotNamed n rs
    → points_of rs (n ∷ fired) ≡ points_of rs fired
unfolding contains_str
points_of-cons [] n fired h = refl
points_of-cons (r ∷ rs) n fired h = rw h.0 (rw (points_of-cons rs n fired h.1))

module _ (net : Net) (url : Bytes) (now : ℕ) (ev : Event) where
  abbrev pub fire : Rule → ConnState → ConnState
  fire r st = record st { fired = r.name ∷ st.fired; score = st.score + r.points }

  abbrev Step : Rule → ConnState × Output → Type 0
  Step r (st, out) =
      (check_rule net url now ev r (st, out) ≡ (st, out))
      ⊎ ((contains_str st.fired r.name ≡ false)
          × (check_rule net url now ev r (st, out)
              ≡ (fire r st, raise_alert url now ev (fire r st) r out)))

  -- A rule is passed over, or it fires for the first time.
  pub check_rule-Step : (r : Rule) (st : ConnState) (out : Output) → Step r (st, out)
  unfolding check_rule
  check_rule-Step r st out = elim (Bool-cases (contains_str st.fired r.name)) [
    | inl t ↦ inl (rw t)
    | inr t ↦ elim (Bool-cases (r.matches net now ev st)) [
      | inr m ↦ inl (rw (t, m))
      | inl m ↦ inr (t, rw (t, m))
    ]
  ]

  abbrev after : List Rule → ConnState × Output → ConnState
  after rs s = (check_rules net url now ev rs s).0

  contains-cons :
      (a b : Bytes) (fired : List Bytes)
      → same a b ≡ false
      → contains_str (a ∷ fired) b ≡ contains_str fired b
  unfolding contains_str
  contains-cons a b fired h = rw h

  contains-check_rules :
      (rs : List Rule) (n : Bytes) (s : ConnState × Output)
      → NotNamed n rs
      → contains_str (after rs s).fired n ≡ contains_str s.0.fired n
  unfolding check_rules
  contains-check_rules [] n s h = refl
  contains-check_rules (r ∷ rs) n (st, out) h =
      contains-check_rules rs n (check_rule net url now ev r (st, out)) h.1
      ∙ elim (check_rule-Step r st out) [
        | inl e ↦ rw e
        | inr (t, e) ↦ rw e (contains-cons r.name n st.fired (flip n r.name h.0))
      ]
    where
      flip : (a b : Bytes) → same a b ≡ false → same b a ≡ false
      flip a b k = ground (arith, same_iff a b, same_iff b a)

  abbrev share : Rule → List Bytes → ℕ
  share r fired = if contains_str fired r.name then r.points else 0

  -- One rule moves its points from the score to come into the score.
  points-check_rule :
      (r : Rule) (rs : List Rule) (st : ConnState) (out : Output)
      → NotNamed r.name rs
      → let s = (check_rule net url now ev r (st, out)).0 in
        s.score + (share r st.fired + points_of rs st.fired)
        ≡ st.score + (share r s.fired + points_of rs s.fired)
  points-check_rule r rs st out h = elim (check_rule-Step r st out) [
    | inl e ↦ rw e
    | inr (t, e) ↦
        rw (e, t, self r.name st.fired) (omega (arith, points_of-cons rs r.name st.fired h))
  ]
    where
      self : (n : Bytes) (fired : List Bytes) → contains_str (n ∷ fired) n ≡ true
      self n fired = unfold contains_str in rw ((same_iff n n).1 refl)

  score-check_rules :
      (rs : List Rule) (s : ConnState × Output)
      → Distinct rs
      → (after rs s).score + points_of rs s.0.fired ≡ s.0.score + points_of rs (after rs s).fired
  unfolding check_rules
  score-check_rules [] s h = refl
  score-check_rules (r ∷ rs) (st, out) h =
      let s = check_rule net url now ev r (st, out) in
      omega (
        arith,
        score-check_rules rs s h.1,
        points-check_rule r rs st out h.0,
        ap (λ (b : Bool). if b then r.points else 0) (contains-check_rules rs r.name s h.0),
      )

  conn_id-check_rules :
      (rs : List Rule) (s : ConnState × Output) → (after rs s).conn_id ≡ s.0.conn_id
  unfolding check_rules
  conn_id-check_rules [] s = refl
  conn_id-check_rules (r ∷ rs) (st, out) =
      conn_id-check_rules rs (check_rule net url now ev r (st, out))
      ∙ elim (check_rule-Step r st out) [ inl e ↦ rw e | inr (t, e) ↦ rw e ]

-- No rule name stands twice.
abbrev pub NoRepeat : List Bytes → Type 0
NoRepeat [] = Unit {0}
NoRepeat (n ∷ ns) = (contains_str ns n ≡ false) × NoRepeat ns

-- The score is the sum of the points of the rules fired, each of which has fired once.
pub record IsScored (st : ConnState) : Type 0 where
  pub exact : st.score ≡ points_of rules st.fired
  pub once : NoRepeat st.fired

once-check_rules :
    (net : Net) (url : Bytes) (now : ℕ) (ev : Event) (rs : List Rule) (s : ConnState × Output)
    → NoRepeat s.0.fired
    → NoRepeat (check_rules net url now ev rs s).0.fired
unfolding check_rules
once-check_rules net url now ev [] s h = h
once-check_rules net url now ev (r ∷ rs) (st, out) h =
    once-check_rules net url now ev rs (check_rule net url now ev r (st, out))
      (elim (check_rule-Step net url now ev r st out) [ inl e ↦ rw e h | inr (t, e) ↦ rw e (t, h) ])

check_rules-IsScored :
    (net : Net) (url : Bytes) (now : ℕ) (ev : Event) (st : ConnState) (out : Output)
    → IsScored st
    → IsScored (check_rules net url now ev rules (st, out)).0
check_rules-IsScored net url now ev st out h = record {
  exact = exact_of rules rules-Distinct h.exact;
  once = once-check_rules net url now ev rules (st, out) h.once;
}
  where
    exact_of :
        (rs : List Rule)
        → Distinct rs
        → st.score ≡ points_of rs st.fired
        → (check_rules net url now ev rs (st, out)).0.score
          ≡ points_of rs (check_rules net url now ev rs (st, out)).0.fired
    exact_of rs d e = omega (arith, score-check_rules net url now ev rs (st, out) d, e)

-- Every tracked connection is scored, and stands under its own identity.
abbrev pub IsTracked : Detector → Type 0
IsTracked d =
    (id : Bytes) (st : ConnState) → get id d.conns ≡ some st → IsScored st × (st.conn_id ≡ id)

fresh-IsScored : (id ip : Bytes) → IsScored (fresh id ip)
unfolding contains_str
fresh-IsScored id ip = record { exact = refl; once = tt }

put-IsTracked :
    (d : Detector) (id : Bytes) (st : ConnState) (out : Output)
    → IsScored st
    → st.conn_id ≡ id
    → IsTracked d
    → IsTracked (record d { conns = put id st d.conns; out = out })
put-IsTracked d id st out h c t j s e = elim (Bool-cases (same id j)) [
  | inl q ↦
      let p : st ≡ s = some_inj (rw (get-put, q) at e) in rw (← p, ← (same_iff id j).0 q) (h, c)
  | inr q ↦ t j s (rw (get-put, q) at e)
]
  where
    some_inj : {a b : ConnState} → some a ≡ some b → a ≡ b
    some_inj k = cc

remove-IsTracked :
    (d : Detector) (id : Bytes) (out : Output)
    → IsTracked d
    → IsTracked (record d { conns = remove id d.conns; out = out })
remove-IsTracked d id out t j s e = elim (Bool-cases (same id j)) [
  | inl q ↦ absurd (none_some (rw (get-remove, q) at e))
  | inr q ↦ t j s (rw (get-remove, q) at e)
]
  where
    none_some : {a : ConnState} → none ≡ some a → ⊥
    none_some k = cc

check-IsTracked :
    (net : Net) (now : ℕ) (ev : Event) (id : Bytes) (st : ConnState) (d : Detector)
    → IsScored st
    → st.conn_id ≡ id
    → IsTracked d
    → IsTracked (check net now ev id st d)
unfolding check
check-IsTracked net now ev id st d h c t =
    put-IsTracked d id (check_rules net d.webhook_url now ev rules (st, d.out)).0
      (check_rules net d.webhook_url now ev rules (st, d.out)).1
      (check_rules-IsScored net d.webhook_url now ev st d.out h)
      (conn_id-check_rules net d.webhook_url now ev rules (st, d.out) ∙ c) t

or_fresh-IsScored :
    (d : Detector) (id ip : Bytes)
    → IsTracked d
    → IsScored (or_fresh (get id d.conns) id ip) × ((or_fresh (get id d.conns) id ip).conn_id ≡ id)
or_fresh-IsScored d id ip t = elim (Option-cases (get id d.conns)) [
  | inl e ↦ rw e (fresh-IsScored id ip, refl)
  | inr (st, e) ↦ rw e (t id st e)
]

count_attempt-IsScored :
    (now : ℕ) (b : Bool) (st : ConnState) (id : Bytes)
    → IsScored st × (st.conn_id ≡ id)
    → IsScored (count_attempt now b st) × ((count_attempt now b st).conn_id ≡ id)
count_attempt-IsScored now true st id h = (record { exact = h.0.exact; once = h.0.once }, h.1)
count_attempt-IsScored now false st id h = (record { exact = h.0.exact; once = h.0.once }, h.1)

session_event-IsTracked :
    (net : Net) (now : ℕ) (ev : Event) (d : Detector)
    → IsTracked d
    → IsTracked (session_event net now ev d)
session_event-IsTracked net now ev d t = elim (Bool-cases (same (conn_of ev d) [])) [
  | inl e ↦ rw e t
  | inr e ↦ rw e (
      let h = or_fresh-IsScored d (conn_of ev d) [] t in
      check-IsTracked net now ev (conn_of ev d) _ d h.0 h.1 t)
]

close_conn-IsTracked :
    (now : ℕ) (o : Option ConnState) (d : Detector) → IsTracked d → IsTracked (close_conn now o d)
close_conn-IsTracked now none d t = t
close_conn-IsTracked now (some st) d t =
    remove-IsTracked d st.conn_id (final_report d.webhook_url now st d.out) t

pub dispatch-IsTracked :
    (net : Net) (now : ℕ) (ev : Event) (k : Kind) (d : Detector)
    → IsTracked d
    → IsTracked (dispatch net now ev k d)
unfolding dispatch
dispatch-IsTracked net now ev connection_opened d t =
    put-IsTracked d (event_str ev (codes "connection_id")) _ d.out (fresh-IsScored _ _) refl t
dispatch-IsTracked net now ev connection_closed d t =
    close_conn-IsTracked now (get (event_str ev (codes "connection_id")) d.conns) d t
dispatch-IsTracked net now ev auth_attempt d t =
    let id = event_str ev (codes "connection_id") in
    let st = or_fresh (get id d.conns) id (event_str ev (codes "source_ip")) in
    let h =
      count_attempt-IsScored now (event_bool ev (codes "success")) st id
        (or_fresh-IsScored d id (event_str ev (codes "source_ip")) t) in
    check-IsTracked net now ev id _ d h.0 h.1 t
dispatch-IsTracked net now ev session_opened d t = t
dispatch-IsTracked net now ev session_closed d t = t
dispatch-IsTracked net now ev alert d t = t
dispatch-IsTracked net now ev command_executed d t = session_event-IsTracked net now ev d t
dispatch-IsTracked net now ev download_attempt d t = session_event-IsTracked net now ev d t
dispatch-IsTracked net now ev connect_attempt d t = session_event-IsTracked net now ev d t
dispatch-IsTracked net now ev file_written d t = session_event-IsTracked net now ev d t

-- Handling any events keeps: every connection stands under its own identity, its score is exactly
-- the sum of the points of the rules it has fired, and no rule has fired for it twice.
pub run-IsTracked :
    (net : Net) (evs : List (ℕ × Event)) (d : Detector) → IsTracked d → IsTracked (run net evs d)
unfolding run handle
run-IsTracked net [] d t = t
run-IsTracked net ((now, ev) ∷ evs) d t =
    run-IsTracked net evs (handle net now ev d) (dispatch-IsTracked net now ev ev.kind d t)

-- After any events from a detector whose scores are tracked, no connection's score is above 250, the
-- points of all rules together.
pub run_score_bound :
    (net : Net) (evs : List (ℕ × Event)) (d : Detector) (id : Bytes) (st : ConnState)
    → IsTracked d
    → get id (run net evs d).conns ≡ some st
    → st.score ≤ 250
run_score_bound net evs d id st t e =
    omega (arith, (run-IsTracked net evs d t id st e).0.exact, points_of-le rules st.fired)
