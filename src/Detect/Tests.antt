-- ===== src/Detect/Tests.antt =====
-- An attack as a list of events, and the theorems of the detector at inputs that they apply to.
use honeypot_go.Base.{
  ℕ, Bytes, if◌then◌else◌, ◌+◌, ◌≤◌, ◌≡◌, refl, true, Option, none, some, List, [], ◌∷◌, codes,
  arith, contains_str, same, contains, has_prefix,
}
use honeypot_go.Base.Dict.{get, put}
use honeypot_go.Event.Defs.{
  Event, event_str, connection_closed, connection_opened, auth_attempt, session_opened,
  command_executed, str, bool, new,
}
use honeypot_go.Detect.Rules.{
  Net, ConnState, rules, match_brute_force, match_weak_login, match_recon, match_download,
  match_reverse_shell, match_persistence, match_sensitive_read, match_lateral,
}
use honeypot_go.Detect.Defs.{Detector, fresh, run, check_rules, handle}
use honeypot_go.Detect.Score.{IsTracked, run-IsTracked, run_score_bound}
use honeypot_go.Detect.Monitor.{monitor, reported, reported-monitor}
use honeypot_go.Detect.Alerts.{Counts, check_rules-Counts}
use honeypot_go.Detect.Closing.{handle-closed}

-- No text is an address here, and nothing is in capitals.
abbrev offline : Net
offline = record {
  to_lower = λ s. s;
  parse_ip = λ s. none;
  split_host_port = λ s. none;
  url_host = λ s. none;
}

abbrev idle : Detector
idle = record {
  webhook_url = codes "http://hook";
  conns = [];
  sess_conn = [];
  out = record { published = []; notify = []; dropped_alerts = 0 };
}

abbrev login : Event
login =
    new 2 auth_attempt
      ((codes "connection_id", str (codes "c")) ∷ (codes "success", bool true) ∷ [])

abbrev attack : List (ℕ × Event)
attack =
    (1, new 1 connection_opened ((codes "connection_id", str (codes "c")) ∷ []))
    ∷ (2, login)
    ∷ (
      3,
      new 3 session_opened
          ((codes "connection_id", str (codes "c")) ∷ (codes "session_id", str (codes "s")) ∷ []),
    )
    ∷ (
      4,
      new 4 command_executed
          ((codes "session_id", str (codes "s")) ∷ (codes "command", str (codes "id")) ∷ []),
    )
    ∷ []

abbrev score_of : Option ConnState → ℕ
score_of none = 0
score_of (some st) = st.score

attack_scores : score_of (get (codes "c") (run offline attack idle).conns) ≡ 50
unfolding run check_rules match_brute_force match_weak_login match_recon match_download
    match_reverse_shell match_persistence match_sensitive_read match_lateral get put same
    contains_str has_prefix contains
attack_scores = refl

idle-IsTracked : IsTracked idle
unfolding get
idle-IsTracked = λ id st e. cc

run-IsTracked_example : IsTracked (run offline attack idle)
run-IsTracked_example = run-IsTracked offline attack idle idle-IsTracked

check_rules-Counts_example :
    Counts
      (codes "http://hook")
      (fresh (codes "c") [], idle.out)
      (check_rules offline (codes "http://hook") 2 login rules (fresh (codes "c") [], idle.out))
check_rules-Counts_example =
    check_rules-Counts offline (codes "http://hook") 2 login rules (fresh (codes "c") [], idle.out)

abbrev hangup : Event
hangup = new 5 connection_closed ((codes "connection_id", str (codes "c")) ∷ [])

handle-closed_example :
    ((j : Bytes)
      → get j (handle offline 5 hangup (run offline attack idle)).conns
        ≡ (if same (codes "c") j then none else get j (run offline attack idle).conns))
    × (handle offline 6 hangup (handle offline 5 hangup (run offline attack idle))
        ≡ handle offline 5 hangup (run offline attack idle))
unfolding event_str get same
handle-closed_example =
    handle-closed offline 5 6 hangup hangup (run offline attack idle)
      (run-IsTracked offline attack idle idle-IsTracked) refl refl refl

abbrev state_of : Option ConnState → ConnState
state_of none = fresh [] []
state_of (some st) = st

-- The state of the attacking connection after the attack.
abbrev attacker : ConnState
attacker = state_of (get (codes "c") (run offline attack idle).conns)

some_of : (o : Option ConnState) → score_of o ≡ 50 → o ≡ some (state_of o)
some_of none e = absurd (omega (arith, e))
some_of (some st) e = refl

run_score_bound_example : attacker.score ≤ 250
run_score_bound_example =
    run_score_bound offline attack idle (codes "c") attacker idle-IsTracked
      (some_of (get (codes "c") (run offline attack idle).conns) attack_scores)

abbrev ticks : List (ℕ × ℕ)
ticks = (30, 0) ∷ (60, 7) ∷ (90, 7) ∷ (120, 9) ∷ []

reported-monitor_example : reported (monitor ticks 0) + 0 ≡ 9
reported-monitor_example =
    reported-monitor ticks 0 (omega arith, (omega arith, (omega arith, (omega arith, tt))))
