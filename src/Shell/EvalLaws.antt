-- ===== src/Shell/EvalLaws.antt =====
-- What the evaluation of Shell/Eval keeps and how much it puts out.
use honeypot_go.Base.{
  either_branch, ℕ, zero, suc, drop, ◌≤◌, Bool, true, false, not, ◌&&◌, Option, none, some, List,
  [], ◌∷◌, ◌++◌, Bytes, length, take, leb, Bool-cases, arith, inl, inr,
}
use honeypot_go.Tty.Output.{max_output_size}
use honeypot_go.Shell.Dispatch.{filter_of, abs_path}
use honeypot_go.Shell.Syntax.{
  Redirect, Stmt, Cmd, Stmts, stmt, call, logical, pipe, subshell, other_cmd, no_stmts, next_stmt,
  Segment, pipe_cmds,
}
use honeypot_go.Shell.Eval.{
  Done, Host, max_depth, cap_out, finish, is_append, strip_path, is_filter, redirect_to,
  expand_target, redirect_all, call_with, run_call, segment_with, run_segment, run_segments,
  run_pipe_chain, runs_second, is_too_deep, negate, run_stmt, run_cmd, run_stmts, run_line,
}

-- Every call that the evaluation makes keeps the property of the state, if it is made at most 32
-- levels deep.
pub record Keeps {World Word : Type 0} (host : Host World Word) (P : World → Type 0) : Type 0 where
  pub expanding :
      (depth : ℕ) (cwd : Bytes) (words : List Word) (w : World)
      → depth ≤ max_depth
      → P w
      → P (host.expand depth cwd words w).1
  pub executing :
      (depth : ℕ) (cwd : Bytes) (args : List Bytes) (out : Bytes) (w : World)
      → depth ≤ max_depth
      → P w
      → P (host.exec_one depth cwd args out w).world
  pub filtering :
      (cwd bin : Bytes) (args : List Bytes) (input : Bytes) (w : World)
      → P w
      → P (host.run_filter cwd bin args input w).1
  pub writing :
      (appends : Bool) (path bytes : Bytes) (w : World)
      → P w
      → P (host.write_to appends path bytes w).1
  pub publishing : (path bytes : Bytes) (w : World) → P w → P (host.publish_written path bytes w)

module _ {World Word : Type 0} (host : Host World Word) (P : World → Type 0)
    (keeps : Keeps host P) where
  redirect_to-keeps :
      (cwd : Bytes) (prefix : ℕ) (appends : Bool) (target out : Bytes) (w : World)
      → P w
      → P (redirect_to host cwd prefix appends target out w).1
  unfolding redirect_to
  redirect_to-keeps cwd prefix appends [] out w v = v
  redirect_to-keeps cwd prefix appends (c ∷ t) out w v =
      let v1 = keeps.writing appends (abs_path cwd (c ∷ t)) (drop prefix out) w v in
      either_branch (λ (r : Bytes × World). P r.1)
        (host.write_to appends (abs_path cwd (c ∷ t)) (drop prefix out) w).0 _ _
        (keeps.publishing _ _ _ v1) (keeps.publishing _ _ _ v1)

  redirect_all-keeps :
      (depth : ℕ) (cwd : Bytes) (prefix : ℕ) (rs : List (Redirect Word)) (out : Bytes) (w : World)
      → depth ≤ max_depth
      → P w
      → P (redirect_all host depth cwd prefix rs out w).1
  unfolding redirect_all
  redirect_all-keeps depth cwd prefix [] out w h v = v
  redirect_all-keeps depth cwd prefix (r ∷ rs) out w h v =
      redirect_all-keeps depth cwd prefix rs _ _ h
        (redirect_to-keeps cwd prefix (is_append r.direction) _ out _ (target_keeps r.target))
    where
      target_keeps : (o : Option Word) → P (expand_target host depth cwd o w).1
      target_keeps none = v
      target_keeps (some word) = keeps.expanding depth cwd (word ∷ []) w h v

  call_with-keeps :
      (depth : ℕ) (cwd : Bytes) (fields : Option (List Bytes)) (rs : List (Redirect Word))
      (out : Bytes) (w : World)
      → depth ≤ max_depth
      → P w
      → P (call_with host depth cwd fields rs out w).world
  call_with-keeps depth cwd none rs out w h v = v
  call_with-keeps depth cwd (some []) rs out w h v = v
  call_with-keeps depth cwd (some (a ∷ args)) rs out w h v =
      redirect_all-keeps depth _ _ rs _ _ h (keeps.executing depth cwd (a ∷ args) out w h v)

  run_call-keeps :
      (depth : ℕ) (cwd : Bytes) (args : List Word) (rs : List (Redirect Word)) (out : Bytes)
      (w : World)
      → depth ≤ max_depth
      → P w
      → P (run_call host depth cwd args rs out w).world
  unfolding run_call
  run_call-keeps depth cwd args rs out w h v =
      call_with-keeps depth cwd _ rs out _ h (keeps.expanding depth cwd args w h v)

  segment_with-keeps :
      (depth : ℕ) (first : Bool) (words : List Word) (rs : List (Redirect Word))
      (fields : Option (List Bytes)) (cwd : Bytes) (code : ℕ) (buf : Bytes) (w : World)
      → depth ≤ max_depth
      → P w
      → P (segment_with host depth first words rs fields cwd code buf w).world
  segment_with-keeps depth first words rs none cwd code buf w h v = v
  segment_with-keeps depth first words rs (some []) cwd code buf w h v = v
  segment_with-keeps depth first words rs (some (a ∷ args)) cwd code buf w h v =
      either_branch (λ (d : Done World). P d.world)
        (not first && is_filter (filter_of (strip_path a))) _ _
        (keeps.filtering cwd (strip_path a) args buf w v)
        (run_call-keeps depth cwd words rs buf w h v)

  run_segment-keeps :
      (depth : ℕ) (first : Bool) (s : Segment Word) (cwd : Bytes) (code : ℕ) (buf : Bytes)
      (w : World)
      → depth ≤ max_depth
      → P w
      → P (run_segment host depth first s cwd code buf w).world
  run_segment-keeps depth first none cwd code buf w h v = v
  run_segment-keeps depth first (some (words, rs)) cwd code buf w h v =
      segment_with-keeps depth first words rs (host.expand depth cwd words w).0 cwd code buf
        (host.expand depth cwd words w).1 h (keeps.expanding depth cwd words w h v)

  run_segments-keeps :
      (depth : ℕ) (first : Bool) (ss : List (Segment Word)) (cwd : Bytes) (code : ℕ) (buf : Bytes)
      (w : World)
      → depth ≤ max_depth
      → P w
      → P (run_segments host depth first ss cwd code buf w).world
  unfolding run_segments
  run_segments-keeps depth first [] cwd code buf w h v = v
  run_segments-keeps depth first (s ∷ ss) cwd code buf w h v =
      let d = run_segment host depth first s cwd code buf w in
      run_segments-keeps depth false ss d.cwd d.code d.out d.world h
        (run_segment-keeps depth first s cwd code buf w h v)

  negate-keeps : (b : Bool) (d : Done World) → P d.world → P (negate host b d).world
  negate-keeps true d v = v
  negate-keeps false d v = v

  mutual
    unfolding run_stmt run_pipe_chain

    run_stmt-keeps :
        (depth : ℕ) (s : Stmt Word) (cwd out : Bytes) (w : World)
        → depth ≤ max_depth
        → P w
        → P (run_stmt host depth s cwd out w).world
    run_stmt-keeps depth (stmt b n rs cmd) cwd out w h v =
        negate-keeps (n && not (is_too_deep host depth cmd)) _
          (run_cmd-keeps depth rs cmd cwd out w h v)

    run_cmd-keeps :
        (depth : ℕ) (rs : List (Redirect Word)) (cmd : Cmd Word) (cwd out : Bytes) (w : World)
        → depth ≤ max_depth
        → P w
        → P (run_cmd host depth rs cmd cwd out w).world
    run_cmd-keeps depth rs (call args) cwd out w h v = run_call-keeps depth cwd args rs out w h v
    run_cmd-keeps depth rs (logical op x y) cwd out w h v =
        let d = run_stmt host depth x cwd out w in
        let v1 = run_stmt-keeps depth x cwd out w h v in
        either_branch (λ (d : Done World). P d.world) (runs_second host op d.code) _ _
          (run_stmt-keeps depth y d.cwd d.out d.world h v1) v1
    run_cmd-keeps depth rs (pipe x y) cwd out w h v =
        run_segments-keeps depth true (pipe_cmds x ++ pipe_cmds y) cwd 0 [] w h v
    run_cmd-keeps depth rs (subshell ss) cwd out w h v = elim (Bool-cases (leb max_depth depth)) [
      | inl t ↦ rw t v
      | inr t ↦ rw t (run_stmts-keeps (suc depth) ss (finish cwd 0 out w) (ground (arith, t)) v)
    ]
    run_cmd-keeps depth rs other_cmd cwd out w h v = v

    run_stmts-keeps :
        (depth : ℕ) (ss : Stmts Word) (d : Done World)
        → depth ≤ max_depth
        → P d.world
        → P (run_stmts host depth ss d).world
    run_stmts-keeps depth no_stmts d h v = v
    run_stmts-keeps depth (next_stmt s ss) d h v =
        run_stmts-keeps depth ss (run_stmt host depth s d.cwd d.out d.world) h
          (run_stmt-keeps depth s d.cwd d.out d.world h v)

  -- What every expansion, command, filter, write and event that a line calls keeps, if it is called
  -- at most 32 levels deep, the line keeps: nothing is called from deeper inside its parentheses.
  pub run_line-keeps :
      (depth : ℕ) (ss : Stmts Word) (d : Done World)
      → depth ≤ max_depth
      → P d.world
      → P (run_line host depth ss d).world
  unfolding run_line
  run_line-keeps depth no_stmts d h v = v
  run_line-keeps depth (next_stmt s ss) d h v =
      run_line-keeps depth ss _ h (run_stmt-keeps depth s d.cwd d.out d.world h v)

length-take_bound : (n : ℕ) (s : Bytes) → length (take n s) ≤ n
length-take_bound zero s = omega arith
length-take_bound (suc n) [] = omega arith
length-take_bound (suc n) (c ∷ s) = omega (arith, length-take_bound n s)

cap_out-bound : (out : Bytes) → length (cap_out out) ≤ max_output_size
unfolding cap_out
cap_out-bound out = elim (Bool-cases (leb (length out) max_output_size)) [
  | inl t ↦ rw t (ground (arith, t))
  | inr t ↦ rw t (length-take_bound max_output_size out)
]

-- The statements of a line put out at most 8 MiB together, whatever the commands do.
pub run_line-bound :
    {World Word : Type 0} (host : Host World Word) (depth : ℕ) (ss : Stmts Word) (d : Done World)
    → length d.out ≤ max_output_size
    → length (run_line host depth ss d).out ≤ max_output_size
unfolding run_line
run_line-bound host depth no_stmts d h = h
run_line-bound host depth (next_stmt s ss) d h =
    let e = run_stmt host depth s d.cwd d.out d.world in
    run_line-bound host depth ss (record e { out = cap_out e.out }) (cap_out-bound e.out)
