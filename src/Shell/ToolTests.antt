-- ===== src/Shell/ToolTests.antt =====
-- Runs of the small commands and of the sessions, and the theorems at inputs that they apply to.
use honeypot_go.Base.{ℕ, ◌<◌, some, Bytes, ◌≤◌, ◌≡◌, refl, List, [], ◌∷◌, codes, length}
use honeypot_go.Shell.Tools.{strip_sudo, strip_leading_sudo, interpreter_code}
use honeypot_go.Shell.SudoLaws.{IsStripped, strip_sudo-strip_leading_sudo}
use honeypot_go.Shell.History.{SessionOp, adding, max_session_history, history_of, run}
use honeypot_go.Shell.HistoryLaws.{history_of-run}

abbrev session : List SessionOp
session =
    adding (codes "s1") (codes "id")
    ∷ adding (codes "s1") (codes "id")
    ∷ adding (codes "s1") (codes "ls")
    ∷ []

history_of-run_example : length (history_of (codes "s1") (run session [])) ≤ max_session_history
history_of-run_example = history_of-run session (codes "s1")

history_of-session : history_of (codes "s1") (run session []) ≡ codes "id" ∷ codes "ls" ∷ []
unfolding history_of run
history_of-session = refl

strip_sudo-strip_leading_sudo_example :
    (t : Bytes) × (strip_leading_sudo (codes "sudo sudo id") ≡ some t)
    × ((fuel : ℕ)
        → length (codes "sudo sudo id") < fuel
        → strip_sudo fuel (codes "sudo sudo id") ≡ some t)
    × IsStripped t
strip_sudo-strip_leading_sudo_example = strip_sudo-strip_leading_sudo (codes "sudo sudo id")

strip_leading_sudo-twice : strip_leading_sudo (codes "sudo sudo id") ≡ some (codes "id")
unfolding strip_leading_sudo
strip_leading_sudo-twice = refl

interpreter_code-joined : interpreter_code (codes "-x" ∷ codes "-cid" ∷ []) ≡ codes "id"
unfolding interpreter_code
interpreter_code-joined = refl
