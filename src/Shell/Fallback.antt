-- ===== src/Shell/Fallback.antt =====
-- The reading and the running of a line that the parser of the syntax tree refuses: splitTopLevel,
-- splitLogical, tokenize, runSequence, runAndOr and execPipeline of internal/shell/executor.go.
use honeypot_go.Base.{
  ℕ, Bool, true, false, ◌||◌, ◌&&◌, not, Option, none, some, List, [], ◌∷◌, ◌++◌, if◌then◌else◌,
  Bytes, ◌==◌, push_front, same,
}
use honeypot_go.Shell.Text.{trim_space, close_word}
use honeypot_go.Shell.Syntax.{Connective, and_then_run, or_else_run}
use honeypot_go.Shell.Eval.{Done, finish, cap_out}

-- The quote that is open; none is the source's 0.
abbrev pub Quote : Type 0
Quote = Option ℕ

abbrev pub is_quote : ℕ → Bool
is_quote c = c == b'\'' || c == b'"'

abbrev pub next_quote : Quote → ℕ → Quote
next_quote none c = if is_quote c then some c else none
next_quote (some q) c = if c == q then none else some q

abbrev pub is_open : Quote → Bool
is_open none = false
is_open (some q) = true

-- `splitTopLevel` from inside a text.
unfoldable pub split_top : ℕ → Quote → Bytes → List Bytes
split_top sep q [] = [] ∷ []
split_top sep q (c ∷ s) =
    let rest = split_top sep (next_quote q c) s in
    if not (is_open q) && (not (is_quote c) && c == sep) then [] ∷ rest else push_front c rest

unfoldable pub split_top_level : Bytes → ℕ → List Bytes
unfolding split_top
split_top_level s sep = split_top sep none s

-- `logicToken`: the operator in front of the command, none for the first one.
abbrev pub LogicToken : Type 0
LogicToken = Option Connective × Bytes

abbrev pub operator_at : ℕ → ℕ → Option Connective
operator_at c d =
    if c == b'&' && d == b'&'
    then some and_then_run
    else if c == b'|' && d == b'|'
    then some or_else_run
    else none

abbrev pub push_token : ℕ → List LogicToken → List LogicToken
push_token c [] = []
push_token c ((op, text) ∷ ts) = (op, c ∷ text) ∷ ts

abbrev pub closed_operator : Quote → ℕ → ℕ → Option Connective
closed_operator none c d = operator_at c d
closed_operator (some q) c d = none

abbrev pub logic_step :
    Option Connective
    → Option Connective
    → ℕ
    → (Option Connective → List LogicToken)
    → List LogicToken
    → List LogicToken
logic_step op none c ahead on = push_token c on
logic_step op (some next) c ahead on = (op, []) ∷ ahead (some next)

-- The last byte is never looked at.
unfoldable pub logic_from : Quote → Bytes → Option Connective → List LogicToken
logic_from q [] op = (op, []) ∷ []
logic_from q (c ∷ []) op = (op, c ∷ []) ∷ []
logic_from q (c ∷ d ∷ s) op =
    let ahead = logic_from none s in
    let on = logic_from (next_quote q c) (d ∷ s) op in
    logic_step op (closed_operator q c d) c ahead on

unfoldable pub split_logical : Bytes → List LogicToken
unfolding logic_from
split_logical s = logic_from none s none

-- `tokenize` from inside a word.
unfoldable pub words_from : Quote → Bytes → Bytes → List Bytes
words_from q cur [] = close_word cur []
words_from (some k) cur (c ∷ s) =
    let shut = words_from none cur s in
    let on = words_from (some k) (cur ++ c ∷ []) s in if c == k then shut else on
words_from none cur (c ∷ []) =
    if is_quote c
    then close_word cur []
    else if c == 32 || c == 9
    then close_word cur []
    else close_word (cur ++ c ∷ []) []
words_from none cur (c ∷ x ∷ s) =
    let quoted = words_from (some c) cur (x ∷ s) in
    let next = words_from none [] (x ∷ s) in
    let escaped = words_from none (cur ++ x ∷ []) s in
    let on = words_from none (cur ++ c ∷ []) (x ∷ s) in
    if is_quote c
    then quoted
    else if c == 32 || c == 9
    then close_word cur next
    else if c == b'\\'
    then escaped
    else on

unfoldable pub tokenize : Bytes → List Bytes
unfolding words_from
tokenize s = words_from none [] s

abbrev pub is_and : Option Connective → Bool
is_and (some and_then_run) = true
is_and _ = false

abbrev pub is_or : Option Connective → Bool
is_or (some or_else_run) = true
is_or _ = false

-- `exec_one` runs a command: the directory, the arguments, the output so far and the state.
module _ {World : Type 0} (exec_one : Bytes → List Bytes → Bytes → World → Done World) where
  abbrev pub run_words : Bytes → ℕ → List Bytes → Bytes → World → Done World
  run_words cwd code [] out w = finish cwd code out w
  run_words cwd code (a ∷ args) out w = exec_one cwd (a ∷ args) out w

  unfoldable pub run_parts : Bytes → ℕ → List Bytes → Bytes → World → Done World
  unfolding tokenize trim_space
  run_parts cwd code [] out w = finish cwd code out w
  run_parts cwd code (p ∷ ps) out w =
      let d = run_words cwd code (tokenize (trim_space p)) out w in
      run_parts d.cwd d.code ps d.out d.world

  -- A single command is the loop over one part.
  unfoldable pub exec_pipeline : Bytes → Bytes → Bytes → World → Done World
  unfolding run_parts split_top_level
  exec_pipeline cwd cmd out w = run_parts cwd 0 (split_top_level cmd b'|') out w

  unfoldable pub and_or_tokens : Bytes → ℕ → List LogicToken → Bytes → World → Done World
  unfolding exec_pipeline cap_out trim_space same
  and_or_tokens cwd code [] out w = finish cwd code out w
  and_or_tokens cwd code ((op, text) ∷ ts) out w =
      let cmd = trim_space text in
      let skipped = and_or_tokens cwd code ts out w in
      let d = exec_pipeline cwd cmd out w in
      let rest = and_or_tokens d.cwd d.code ts (cap_out d.out) d.world in
      if same cmd []
      then skipped
      else if is_and op && not (d.code == 0)
      then finish d.cwd d.code (cap_out d.out) d.world
      else if is_or op && d.code == 0
      then finish d.cwd 0 (cap_out d.out) d.world
      else rest

  unfoldable pub run_and_or : Bytes → Bytes → Bytes → World → Done World
  unfolding and_or_tokens split_logical
  run_and_or cwd seg out w = and_or_tokens cwd 0 (split_logical seg) out w

  unfoldable pub run_pieces : List Bytes → Done World → Done World
  unfolding run_and_or trim_space same cap_out
  run_pieces [] d = d
  run_pieces (p ∷ ps) d =
      let seg = trim_space p in
      let skipped = run_pieces ps d in
      let e = run_and_or d.cwd seg d.out d.world in
      let rest = run_pieces ps (record e { out = cap_out e.out }) in
      if same seg [] then skipped else rest

  unfoldable pub run_sequence : Bytes → Bytes → World → Done World
  unfolding run_pieces split_top_level
  run_sequence cwd raw w = run_pieces (split_top_level raw b';') (finish cwd 0 [] w)
