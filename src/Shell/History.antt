-- ===== src/Shell/History.antt =====
-- The sessions of internal/shell/executor.go: sessionState, AddHistory, History, ClearHistory and
-- RemoveSession. The lock makes each of them one step.
use honeypot_go.Base.{
  ℕ, Bool, false, Option, none, some, List, [], ◌∷◌, ◌++◌, if◌then◌else◌, Bytes, same, leb, drop,
  length,
}
use honeypot_go.Base.Dict.{get, put, remove}
use honeypot_go.Identity.Defs.{Identity, pos}
use honeypot_go.Shell.Text.{trim_space}

pub record SessionState : Type 0 where
  pub last_code : ℕ
  pub history : List Bytes
  pub user : Identity

-- The zero value of `Identity`.
abbrev pub no_identity : Identity
no_identity = record { name = []; uid = pos 0; gid = pos 0; home = []; groups = [] }

abbrev pub Sessions : Type 0
Sessions = List (Bytes × SessionState)

abbrev pub max_session_history : ℕ
max_session_history = 200

abbrev pub new_session : SessionState
new_session = record { last_code = 0; history = []; user = no_identity }

abbrev pub or_new : Option SessionState → SessionState
or_new none = new_session
or_new (some st) = st

abbrev pub ends_with : List Bytes → Bytes → Bool
ends_with [] cmd = false
ends_with (h ∷ []) cmd = same h cmd
ends_with (h ∷ g ∷ hs) cmd = ends_with (g ∷ hs) cmd

-- The history with one command more: none twice in a row, and the oldest goes beyond the limit.
unfoldable pub remember : Bytes → List Bytes → List Bytes
unfolding same
remember cmd hs =
    let kept = if leb max_session_history (length hs) then drop 1 hs else hs in
    if ends_with hs cmd then hs else kept ++ cmd ∷ []

unfoldable pub add_history : Bytes → Bytes → Sessions → Sessions
unfolding trim_space same get put remember
add_history id cmd ss =
    let st = or_new (get id ss) in
    if same (trim_space cmd) []
    then ss
    else put id (record st { history = remember cmd st.history }) ss

abbrev pub history_in : Option SessionState → List Bytes
history_in none = []
history_in (some st) = st.history

unfoldable pub history_of : Bytes → Sessions → List Bytes
unfolding get
history_of id ss = history_in (get id ss)

abbrev pub clear_in : Bytes → Option SessionState → Sessions → Sessions
clear_in id none ss = ss
clear_in id (some st) ss = put id (record st { history = [] }) ss

unfoldable pub clear_history : Bytes → Sessions → Sessions
unfolding get put
clear_history id ss = clear_in id (get id ss) ss

abbrev pub remove_session : Bytes → Sessions → Sessions
remove_session id ss = remove id ss

pub data SessionOp : Type 0 where
  adding : Bytes → Bytes → SessionOp
  clearing : Bytes → SessionOp
  removing : Bytes → SessionOp

unfoldable pub perform : SessionOp → Sessions → Sessions
unfolding add_history clear_history remove
perform (adding id cmd) ss = add_history id cmd ss
perform (clearing id) ss = clear_history id ss
perform (removing id) ss = remove_session id ss

unfoldable pub run : List SessionOp → Sessions → Sessions
unfolding perform
run [] ss = ss
run (op ∷ ops) ss = run ops (perform op ss)
