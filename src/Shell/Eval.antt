-- ===== src/Shell/Eval.antt =====
-- The evaluation of the syntax tree, `runAST` to `runCall` of internal/shell/parse.go, and `capOut` of
-- internal/shell/executor.go. What it calls is the interface `Host`; the state that the calls change,
-- the file system among it, is its type `World`.
use honeypot_go.Base.{
  ℕ, suc, Bool, true, false, ◌&&◌, not, Option, none, some, List, [], ◌∷◌, ◌++◌, if◌then◌else◌,
  Bytes, codes, length, take, drop, leb, ◌==◌, split,
}
use honeypot_go.Tty.Output.{max_output_size}
use honeypot_go.Shell.Dispatch.{Filter, filter_of, abs_path}
use honeypot_go.Shell.Paths.{last_segment}
use honeypot_go.Shell.Syntax.{
  Redirection, append_out, other_direction, Redirect, Connective, and_then_run, or_else_run, Stmt,
  Cmd, Stmts, stmt, call, logical, pipe, subshell, other_cmd, no_stmts, next_stmt, Segment,
  pipe_cmds,
}

-- The results of a command: the directory, the exit code and the output, and the state behind it.
pub record Done (World : Type 0) : Type 0 where
  pub cwd : Bytes
  pub code : ℕ
  pub out : Bytes
  pub world : World

-- `expand` is expandArgs and expandWord, with the nesting depth and the directory; none is an error.
-- `write_to` is AppendFile or WriteFile, and whether the error is ErrNotPermitted. `overwritten` is what
-- the slice of the output reads once the first text is appended in front of it, which depends on the
-- capacity of the slice.
pub record Host (World : Type 0) (Word : Type 0) : Type 0 where
  pub parse : Bytes → Option (Stmts Word)
  pub expand : ℕ → Bytes → List Word → World → Option (List Bytes) × World
  pub exec_one : ℕ → Bytes → List Bytes → Bytes → World → Done World
  pub run_filter : Bytes → Bytes → List Bytes → Bytes → World → Bytes × World
  pub write_to : Bool → Bytes → Bytes → World → Bool × World
  pub publish_written : Bytes → Bytes → World → World
  pub overwritten : Bytes → Bytes → Bytes

abbrev pub max_depth : ℕ
max_depth = 32

unfoldable pub cap_out : Bytes → Bytes
cap_out out = if leb (length out) max_output_size then out else take max_output_size out

abbrev pub flip_code : ℕ → ℕ
flip_code code = if code == 0 then 1 else 0

abbrev pub finish : {World : Type 0} → Bytes → ℕ → Bytes → World → Done World
finish cwd code out w = record { cwd = cwd; code = code; out = out; world = w }

-- The target of a redirection: empty where there is none.
abbrev pub first_field : Option (List Bytes) → Bytes
first_field (some (t ∷ ts)) = t
first_field _ = []

abbrev pub is_append : Redirection → Bool
is_append append_out = true
is_append other_direction = false

-- `stripPath`
unfoldable pub strip_path : Bytes → Bytes
unfolding split
strip_path bin = last_segment [] (split b'/' bin)

abbrev pub is_filter : Option Filter → Bool
is_filter none = false
is_filter (some f) = true

abbrev pub refusal_text : Bytes → Bytes
refusal_text target = codes "bash: " ++ (target ++ codes ": Operation not permitted\n")

module _ {World Word : Type 0} (host : Host World Word) where
  -- The body of the loop over the redirections, for a target that is not empty.
  unfoldable pub redirect_to : Bytes → ℕ → Bool → Bytes → Bytes → World → Bytes × World
  unfolding abs_path
  redirect_to cwd prefix appends [] out w = (out, w)
  redirect_to cwd prefix appends (c ∷ target) out w =
      let path = abs_path cwd (c ∷ target) in
      let added = drop prefix out in
      let (refused, w1) = host.write_to appends path added w in
      if refused
      then (
        take prefix out ++ refusal_text (c ∷ target),
        host.publish_written path (host.overwritten (refusal_text (c ∷ target)) added) w1,
      )
      else (take prefix out, host.publish_written path added w1)

  abbrev pub expand_target : ℕ → Bytes → Option Word → World → Bytes × World
  expand_target depth cwd none w = ([], w)
  expand_target depth cwd (some word) w =
      let (fields, w1) = host.expand depth cwd (word ∷ []) w in (first_field fields, w1)

  unfoldable pub redirect_all : ℕ → Bytes → ℕ → List (Redirect Word) → Bytes → World → Bytes × World
  unfolding redirect_to
  redirect_all depth cwd prefix [] out w = (out, w)
  redirect_all depth cwd prefix (r ∷ rs) out w =
      let (target, w1) = expand_target depth cwd r.target w in
      let (out1, w2) = redirect_to cwd prefix (is_append r.direction) target out w1 in
      redirect_all depth cwd prefix rs out1 w2

  abbrev pub call_with :
      ℕ → Bytes → Option (List Bytes) → List (Redirect Word) → Bytes → World → Done World
  call_with depth cwd (some (a ∷ args)) redirs out w =
      let d = host.exec_one depth cwd (a ∷ args) out w in
      let (out1, w1) = redirect_all depth d.cwd (length out) redirs d.out d.world in
      finish d.cwd d.code out1 w1
  call_with depth cwd _ redirs out w = finish cwd 0 out w

  unfoldable pub run_call :
      ℕ → Bytes → List Word → List (Redirect Word) → Bytes → World → Done World
  unfolding redirect_all
  run_call depth cwd args redirs out w =
      let (fields, w1) = host.expand depth cwd args w in call_with depth cwd fields redirs out w1

  -- A segment of a pipeline; the arguments are expanded here, and in `runCall` again.
  abbrev pub segment_with :
      ℕ
      → Bool
      → List Word
      → List (Redirect Word)
      → Option (List Bytes)
      → Bytes
      → ℕ
      → Bytes
      → World
      → Done World
  segment_with depth first words redirs (some (a ∷ args)) cwd code buf w =
      let bin = strip_path a in
      let (filtered, w1) = host.run_filter cwd bin args buf w in
      if not first && is_filter (filter_of bin)
      then finish cwd code filtered w1
      else run_call depth cwd words redirs buf w
  segment_with depth first words redirs _ cwd code buf w = finish cwd code buf w

  abbrev pub run_segment : ℕ → Bool → Segment Word → Bytes → ℕ → Bytes → World → Done World
  run_segment depth first none cwd code buf w = finish cwd code buf w
  run_segment depth first (some (words, redirs)) cwd code buf w =
      let (fields, w1) = host.expand depth cwd words w in
      segment_with depth first words redirs fields cwd code buf w1

  unfoldable pub run_segments :
      ℕ → Bool → List (Segment Word) → Bytes → ℕ → Bytes → World → Done World
  unfolding run_call strip_path filter_of
  run_segments depth first [] cwd code buf w = finish cwd code buf w
  run_segments depth first (s ∷ ss) cwd code buf w =
      let d = run_segment depth first s cwd code buf w in
      run_segments depth false ss d.cwd d.code d.out d.world

  unfoldable pub run_pipe_chain : ℕ → List (Segment Word) → Bytes → Bytes → World → Done World
  unfolding run_segments cap_out
  run_pipe_chain depth segments cwd out w =
      let d = run_segments depth true segments cwd 0 [] w in
      finish d.cwd d.code (cap_out (out ++ d.out)) d.world

  -- Does the second part of a list run behind this exit code?
  abbrev pub runs_second : Connective → ℕ → Bool
  runs_second and_then_run code = code == 0
  runs_second or_else_run code = not (code == 0)

  -- The early return for a nesting that is too deep comes before the negation.
  abbrev pub is_too_deep : ℕ → Cmd Word → Bool
  is_too_deep depth (subshell ss) = leb max_depth depth
  is_too_deep depth _ = false

  abbrev pub negate : Bool → Done World → Done World
  negate negated d = if negated then record d { code = flip_code d.code } else d

  unfoldable mutual
    unfolding run_pipe_chain

    -- A background statement is run like any other.
    pub run_stmt : ℕ → Stmt Word → Bytes → Bytes → World → Done World
    run_stmt depth (stmt background negated redirs cmd) cwd out w =
        negate (negated && not (is_too_deep depth cmd)) (run_cmd depth redirs cmd cwd out w)

    pub run_cmd : ℕ → List (Redirect Word) → Cmd Word → Bytes → Bytes → World → Done World
    run_cmd depth redirs (call args) cwd out w = run_call depth cwd args redirs out w
    run_cmd depth redirs (logical op x y) cwd out w =
        let d = run_stmt depth x cwd out w in
        let second = run_stmt depth y d.cwd d.out d.world in
        if runs_second op d.code then second else d
    run_cmd depth redirs (pipe x y) cwd out w =
        run_pipe_chain depth (pipe_cmds x ++ pipe_cmds y) cwd out w
    run_cmd depth redirs (subshell ss) cwd out w =
        let inner = run_stmts (suc depth) ss (finish cwd 0 out w) in
        if leb max_depth depth then finish cwd 1 out w else inner
    run_cmd depth redirs other_cmd cwd out w = finish cwd 0 out w

    pub run_stmts : ℕ → Stmts Word → Done World → Done World
    run_stmts depth no_stmts d = d
    run_stmts depth (next_stmt s ss) d = run_stmts depth ss (run_stmt depth s d.cwd d.out d.world)

  -- The loop of `runAST`.
  unfoldable pub run_line : ℕ → Stmts Word → Done World → Done World
  unfolding run_stmt cap_out
  run_line depth no_stmts d = d
  run_line depth (next_stmt s ss) d =
      let e = run_stmt depth s d.cwd d.out d.world in
      run_line depth ss (record e { out = cap_out e.out })

  abbrev pub run_parsed : ℕ → Option (Stmts Word) → Bytes → World → Option (Done World)
  run_parsed depth none cwd w = none
  run_parsed depth (some ss) cwd w = some (run_line depth ss (finish cwd 0 [] w))

  unfoldable pub run_ast : ℕ → Bytes → Bytes → World → Option (Done World)
  unfolding run_line
  run_ast depth cwd raw w = run_parsed depth (host.parse raw) cwd w
