-- ===== src/Shell/Syntax.antt =====
-- The syntax tree of package mvdan.cc/sh/v3/syntax, as far as internal/shell/parse.go reads it. What
-- stands in a word is known to the package only.
use honeypot_go.Base.{Bool, Option, none, some, List, [], ◌∷◌, ◌++◌}

-- `syntax.AppOut`, and the other operators of a redirection.
pub data Redirection : Type 0 where
  append_out other_direction : Redirection

pub record Redirect (Word : Type 0) : Type 0 where
  pub direction : Redirection
  pub target : Option Word

pub data Connective : Type 0 where
  and_then_run or_else_run : Connective

mutual
  -- Background, Negated, Redirs and Cmd of `syntax.Stmt`.
  pub data Stmt (Word : Type 0) : Type 0 where
    stmt : Bool → Bool → List (Redirect Word) → Cmd Word → Stmt Word

  pub data Cmd (Word : Type 0) : Type 0 where
    call : List Word → Cmd Word
    logical : Connective → Stmt Word → Stmt Word → Cmd Word
    pipe : Stmt Word → Stmt Word → Cmd Word
    subshell : Stmts Word → Cmd Word
    other_cmd : Cmd Word

  pub data Stmts (Word : Type 0) : Type 0 where
    no_stmts : Stmts Word
    next_stmt : Stmt Word → Stmts Word → Stmts Word

-- A segment of a pipeline: a call with its redirections, or none for another command.
abbrev pub Segment : Type 0 → Type 0
Segment Word = Option (List Word × List (Redirect Word))

-- `pipeCmds`, with the test of `runPipeChain` for a call.
unfoldable mutual
  pub pipe_cmds : {Word : Type 0} → Stmt Word → List (Segment Word)
  pipe_cmds (stmt background negated redirs cmd) = pipe_parts redirs cmd

  pub pipe_parts : {Word : Type 0} → List (Redirect Word) → Cmd Word → List (Segment Word)
  pipe_parts redirs (call args) = some (args, redirs) ∷ []
  pipe_parts redirs (logical op x y) = none ∷ []
  pipe_parts redirs (pipe x y) = pipe_cmds x ++ pipe_cmds y
  pipe_parts redirs (subshell ss) = none ∷ []
  pipe_parts redirs other_cmd = none ∷ []
