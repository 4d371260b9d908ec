-- ===== src/Shell/HistoryLaws.antt =====
-- The limit of the histories of the sessions of internal/shell/executor.go.
use honeypot_go.Base.{
  suc, ◌-◌, ◌≤◌, ◌≡◌, refl, Option, none, some, List, [], ◌∷◌, ◌++◌, Bytes, same, leb, drop, length,
  Bool-cases, inl, inr, arith, either_branch,
}
use honeypot_go.Base.Dict.{get, put, get-put, get-remove}
use honeypot_go.Shell.Text.{trim_space}
use honeypot_go.Shell.History.{
  SessionState, Sessions, max_session_history, or_new, ends_with, remember, add_history, history_in,
  history_of, clear_in, clear_history, SessionOp, adding, clearing, removing, perform, run,
}

length-end : (hs : List Bytes) (h : Bytes) → length (hs ++ h ∷ []) ≡ suc (length hs)
length-end [] h = refl
length-end (k ∷ hs) h = omega (arith, length-end hs h)

length-rest : (hs : List Bytes) → length (drop 1 hs) ≡ length hs - 1
length-rest [] = refl
length-rest (h ∷ hs) = omega arith

remember-bound :
    (cmd : Bytes) (hs : List Bytes)
    → length hs ≤ max_session_history
    → length (remember cmd hs) ≤ max_session_history
unfolding remember
remember-bound cmd hs v = elim (Bool-cases (ends_with hs cmd)) [
  | inl t ↦ rw t v
  | inr t ↦ elim (Bool-cases (leb max_session_history (length hs))) [
    | inl u ↦ rw (t, u) (omega (arith, length-end (drop 1 hs) cmd, length-rest hs, v))
    | inr u ↦
        let k : suc (length hs) ≤ max_session_history = ground (arith, u) in
        rw (t, u) (omega (arith, length-end hs cmd, k))
  ]
]

-- The history of a session within the limit, in any case of what is stored for it.
abbrev IsShort : Option SessionState → Type 0
IsShort o = length (history_in o) ≤ max_session_history

AllShort : Sessions → Type 0
AllShort ss = (id : Bytes) → IsShort (get id ss)

put-AllShort :
    (id : Bytes) (st : SessionState) (ss : Sessions)
    → length st.history ≤ max_session_history
    → AllShort ss
    → AllShort (put id st ss)
unfolding AllShort
put-AllShort id st ss h v j =
    rw (get-put id j st ss) (either_branch IsShort (same id j) (some st) (get j ss) h (v j))

or_new-short :
    (o : Option SessionState) → IsShort o → length (or_new o).history ≤ max_session_history
or_new-short none v = omega arith
or_new-short (some st) v = v

perform-AllShort : (op : SessionOp) (ss : Sessions) → AllShort ss → AllShort (perform op ss)
unfolding perform add_history clear_history AllShort
perform-AllShort (adding id cmd) ss v = elim (Bool-cases (same (trim_space cmd) [])) [
  | inl t ↦ rw t v
  | inr t ↦ rw t (
      put-AllShort id _ ss
        (remember-bound cmd (or_new (get id ss)).history (or_new-short (get id ss) (v id))) v)
]
perform-AllShort (clearing id) ss v = cleared (get id ss)
  where
    cleared : (o : Option SessionState) → AllShort (clear_in id o ss)
    cleared none = v
    cleared (some st) = put-AllShort id _ ss (omega arith) v
perform-AllShort (removing id) ss v = λ j.
    rw (get-remove id j ss) (either_branch IsShort (same id j) none (get j ss) (omega arith) (v j))

run-AllShort : (ops : List SessionOp) (ss : Sessions) → AllShort ss → AllShort (run ops ss)
unfolding run
run-AllShort [] ss v = v
run-AllShort (op ∷ ops) ss v = run-AllShort ops (perform op ss) (perform-AllShort op ss v)

-- Whatever commands are added, and histories cleared and sessions removed, no session ever has more
-- than 200 commands in its history.
pub history_of-run :
    (ops : List SessionOp) (id : Bytes) → length (history_of id (run ops [])) ≤ max_session_history
unfolding history_of AllShort
history_of-run ops id = run-AllShort ops [] (λ j. none_short j) id
  where
    none_short : (j : Bytes) → IsShort (get j [])
    none_short j = omega arith
