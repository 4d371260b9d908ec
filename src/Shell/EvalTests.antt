-- ===== src/Shell/EvalTests.antt =====
-- Runs of the evaluation on a host that notes the deepest level at which a command runs, and the
-- theorems at inputs that they apply to.
use honeypot_go.Base.{
  ℕ, ◌≤◌, ◌≡◌, refl, true, false, none, some, List, [], ◌∷◌, ◌++◌, Bytes, codes, length, ltb,
  if◌then◌else◌, map, arith, same, Bool-cases, inl, inr,
}
use honeypot_go.Tty.Output.{max_output_size}
use honeypot_go.Shell.Text.{join, trim_space}
use honeypot_go.Shell.Syntax.{
  or_else_run, Stmt, Stmts, stmt, call, logical, subshell, no_stmts, next_stmt, and_then_run,
}
use honeypot_go.Shell.Eval.{Done, Host, finish, max_depth, run_line}
use honeypot_go.Shell.EvalLaws.{Keeps, run_line-keeps, run_line-bound}
use honeypot_go.Shell.Fallback.{
  split_top_level, tokenize, split_logical, and_or_tokens, exec_pipeline, run_and_or,
}
use honeypot_go.Shell.Quoting.{single_quoted, tokenize-single_quoted}
use honeypot_go.Shell.AndOr.{tokens_text, tokens_text-split_logical}
use honeypot_go.Base.{zero, suc, ◌-◌, ◌*◌, ◌^◌, ◌≤◌, leb, Bool-cases, inl, inr, length, some}
use honeypot_go.Tty.Defs.{read_frames, new_recorder, err, frame_too_large}
use honeypot_go.Tty.RoundTrip.{record_call, contents}
use honeypot_go.Tty.Output.{bare_newlines, max_output_size}
use honeypot_go.Shell.BigOutput.{recorded, read_frames-recorded}
use honeypot_go.Shell.Eval.{cap_out}
use honeypot_go.Shell.SecondRuns.{second_on, run_and_or-second_on}

abbrev deeper : ℕ → ℕ → ℕ
deeper depth w = if ltb w depth then depth else w

-- The command false ends with 1, the others with 0; each prints its arguments.
abbrev echo : ℕ → Bytes → List Bytes → Bytes → ℕ → Done ℕ
echo depth cwd args out w =
    finish cwd (if same (join (32 ∷ []) args) (codes "false") then 1 else 0)
      (out ++ join (32 ∷ []) args) (deeper depth w)

abbrev noting : Host ℕ Bytes
noting = record {
  parse = λ raw. none;
  expand = λ depth cwd words w. (some words, w);
  exec_one = echo;
  run_filter = λ cwd bin args input w. (input, w);
  write_to = λ appends path bytes w. (false, w);
  publish_written = λ path bytes w. w;
  overwritten = λ message bytes. bytes;
}

noting-Keeps : Keeps noting (λ w. w ≤ max_depth)
noting-Keeps = record {
  expanding = λ depth cwd words w h v. v;
  executing = λ depth cwd args out w h v. elim (Bool-cases (ltb w depth)) [
    | inl t ↦ rw t h
    | inr t ↦ rw t v
  ];
  filtering = λ cwd bin args input w v. v;
  writing = λ appends path bytes w v. v;
  publishing = λ path bytes w v. v;
}

abbrev simple : Bytes → Stmt Bytes
simple word = stmt false false [] (call (word ∷ []))

-- (false && id; (who))
abbrev nested : Stmts Bytes
nested =
    next_stmt
      (stmt false false [] (
        subshell (
          next_stmt
            (stmt false true []
              (logical and_then_run (simple (codes "false")) (simple (codes "id"))))
            (next_stmt (stmt false false [] (subshell (next_stmt (simple (codes "who")) no_stmts)))
              no_stmts))))
      no_stmts

run_line-keeps_example : (run_line noting 0 nested (finish (codes "/") 0 [] 0)).world ≤ max_depth
run_line-keeps_example =
    run_line-keeps noting (λ w. w ≤ max_depth) noting-Keeps 0 nested (finish (codes "/") 0 [] 0)
      (omega arith) (omega arith)

run_line-nested : (run_line noting 0 nested (finish (codes "/") 0 [] 0)).out ≡ codes "falsewho"
unfolding run_line join
run_line-nested = refl

run_line-bound_example :
    length (run_line noting 0 nested (finish (codes "/") 0 [] 0)).out ≤ max_output_size
run_line-bound_example = run_line-bound noting 0 nested (finish (codes "/") 0 [] 0) (omega arith)

split_top_level_quoted :
    split_top_level (codes "echo ';' ; id") b';' ≡ codes "echo ';' " ∷ codes " id" ∷ []
unfolding split_top_level
split_top_level_quoted = refl

abbrev spaced : List Bytes
spaced = codes "echo" ∷ codes "a b" ∷ []

tokenize-single_quoted_example : tokenize (join (32 ∷ []) (map single_quoted spaced)) ≡ spaced
tokenize-single_quoted_example =
    tokenize-single_quoted spaced
      ((refl, (refl, (refl, (refl, tt)))), ((refl, (refl, (refl, tt))), tt))

tokens_text-split_logical_example :
    tokens_text (split_logical (codes "id || who&&w")) ≡ codes "id || who&&w"
tokens_text-split_logical_example = tokens_text-split_logical (codes "id || who&&w")

run_and_or-second_on_example :
    (run_and_or (echo 0) (codes "/") (codes "false&&id||w") [] 0).world
    ≡ second_on
        (echo 0)
        and_then_run
        (codes "id")
        ((or_else_run, codes "w") ∷ [])
        (exec_pipeline (echo 0) (codes "/") (trim_space (codes "false")) [] 0)
unfolding trim_space same
run_and_or-second_on_example =
    run_and_or-second_on (echo 0) and_then_run (codes "false") (codes "id")
      ((or_else_run, codes "w") ∷ []) (codes "/") [] 0
      (
        (refl, refl, refl),
        ((refl, refl, refl), ((refl, refl, refl), ((refl, refl, refl), ((refl, refl, refl), tt)))),
      )
      ((refl, refl, refl), ((refl, refl, refl), tt)) (((refl, refl, refl), tt), tt) refl refl

and_or_tokens_both :
    (and_or_tokens
      (echo 0)
      (codes "/")
      0
      ((none, codes "false") ∷ (some and_then_run, codes "id") ∷ [])
      []
      0).out
    ≡ codes "falseid"
unfolding and_or_tokens join
and_or_tokens_both = refl

newlines : ℕ → Bytes
newlines zero = []
newlines (suc n) = 10 ∷ newlines n

length-newlines : (n : ℕ) → length (newlines n) ≡ n
unfolding newlines
length-newlines zero = refl
length-newlines (suc n) = omega (arith, length-newlines n)

begins-cap_out : (n : ℕ) → 1 ≤ bare_newlines false (cap_out (newlines (suc n)))
unfolding newlines cap_out
begins-cap_out n = elim (Bool-cases (leb (length (newlines (suc n))) max_output_size)) [
  | inl t ↦ rw t (omega arith)
  | inr t ↦ rw t (omega arith)
]

read_frames-recorded_example :
    (read_frames
      (contents (record_call (recorded 1 0 (newlines (9 * 2 ^ 20))) (new_recorder (some []))).w)).0
    ≡ err frame_too_large
read_frames-recorded_example =
    read_frames-recorded 1 0 (newlines (9 * 2 ^ 20)) (omega (arith, length-newlines (9 * 2 ^ 20)))
      (begins-cap_out (9 * 2 ^ 20 - 1))
