-- ===== src/Shell/ExecTests.antt =====
-- Runs of single commands by their names.
use honeypot_go.Base.{◌≡◌, refl, none, [], ◌∷◌, codes, same, contains_str}
use honeypot_go.Vfs.Tree.{lookup, find}
use honeypot_go.Vfs.Read.{is_dir}
use honeypot_go.Vfs.Tests.{small, small-IsAccounted}
use honeypot_go.Identity.Defs.{root_identity}
use honeypot_go.Shell.Dispatch.{abs_path}
use honeypot_go.Shell.Exec.{World, Env, Others, named_in, command_of, exec_one}
use honeypot_go.Shell.ExecBudget.{HasCounters, exec_one-HasCounters}
use honeypot_go.Shell.Eval.{strip_path}

abbrev root_env : Env
root_env = record {
  session_id = codes "s1";
  user = root_identity;
  quote = λ s. 34 ∷ s;
  clock = record { uptime_line = []; boot_seconds = [] };
  now = 5;
  codec = record {
    base64_encode = λ s. s;
    base64_decode = λ s. none;
    sha256 = λ s. s;
    md5 = λ s. s;
  };
}

abbrev nothing_else : Others
nothing_else = record { network = λ bin args cwd out w. none; command = λ bin args cwd out w. none }

abbrev start_world : World
start_world = record { fs = small; sessions = [] }

exec_one-HasCounters_example : HasCounters (
    exec_one root_env nothing_else
      (codes "/tmp")
      (codes "/bin/touch" ∷ codes "x" ∷ [])
      []
      start_world)
unfolding command_of named_in strip_path contains_str same
exec_one-HasCounters_example =
    exec_one-HasCounters root_env nothing_else (codes "/bin/touch") (codes "x" ∷ []) (codes "/tmp")
      [] start_world small-IsAccounted tt tt tt

exec_one-unknown :
    (exec_one root_env nothing_else (codes "/tmp") (codes "foo" ∷ []) [] start_world).out
    ≡ codes "bash: foo: command not found\n"
unfolding exec_one command_of named_in strip_path contains_str same
exec_one-unknown = refl

exec_one-cd :
    (exec_one root_env nothing_else (codes "/") (codes "cd" ∷ codes "tmp" ∷ []) [] start_world).cwd
    ≡ codes "/tmp"
unfolding exec_one command_of named_in strip_path contains_str same is_dir abs_path lookup find
exec_one-cd = refl
