-- ===== src/Shell/ExecBudget.antt =====
-- A command line word by word keeps the counters of the file system.
use honeypot_go.Base.{
  ℕ, ◌≡◌, refl, false, Option, none, some, List, [], ◌∷◌, if◌then◌else◌, Bytes, codes, same,
  has_prefix, contains_str, either_branch,
}
use honeypot_go.Identity.Defs.{Identity, is_root}
use honeypot_go.Vfs.State.{FileSystem, Outcome}
use honeypot_go.Vfs.Account.{IsAccounted}
use honeypot_go.Vfs.Write.{write_file}
use honeypot_go.Vfs.WriteBudget.{locked_write-IsAccounted}
use honeypot_go.Vfs.MkdirBudget.{mkdir-IsAccounted}
use honeypot_go.Vfs.Proc.{ProcClock}
use honeypot_go.Vfs.Read.{is_dir}
use honeypot_go.Shell.Filters.{Codec}
use honeypot_go.Shell.Text.{trim_suffix}
use honeypot_go.Shell.Paths.{base_of, join_two}
use honeypot_go.Shell.Dispatch.{
  Filter, abs_path, filter_of, tee_files, filter_files, run_known, run_filter, read_all, filter_cmd,
  tee_filter,
}
use honeypot_go.Shell.Files.{Said, targets_of}
use honeypot_go.Shell.FileCommands.{StaysOutside, run_file_command-IsAccounted}
use honeypot_go.Shell.AccountBudget.{accounts-IsAccounted}
use honeypot_go.Shell.Tools.{first_of, cloned, or_repo, git_clone, git, repo_commands}
use honeypot_go.Shell.Eval.{Done, strip_path}
use honeypot_go.Shell.Exec.{
  World, Env, Others, Command, cd_to, print_cwd, echo_words, print_user, read_files, clear_screen,
  show_history, succeed, fail_once, find_files, make_targets, git_repo, java_class, tell_types,
  change_attributes, edit_crontab, del_user, mod_user, set_password, add_user_by, filter_named,
  change_files, command_of, run_command, or_unknown, or_other, or_local, exec_one,
}

tee_files-IsAccounted :
    (now : ℕ) (cwd : Bytes) (args : List Bytes) (input : Bytes) (fs : FileSystem)
    → IsAccounted fs
    → IsAccounted (tee_files now cwd args input fs)
unfolding tee_files
tee_files-IsAccounted now cwd [] input fs v = v
tee_files-IsAccounted now cwd (a ∷ rest) input fs v = tee_files-IsAccounted now cwd rest input _ (
    either_branch IsAccounted (has_prefix a (codes "-")) fs
      (write_file now (abs_path cwd a) input fs).0 v
      (locked_write-IsAccounted now (abs_path cwd a) input false fs v))

filter_files-IsAccounted :
    (now : ℕ) (cwd : Bytes) (f : Filter) (args : List Bytes) (input : Bytes) (fs : FileSystem)
    → IsAccounted fs
    → IsAccounted (filter_files now cwd f args input fs)
filter_files-IsAccounted now cwd tee_filter args input fs v =
    tee_files-IsAccounted now cwd args input fs v
filter_files-IsAccounted now cwd _ args input fs v = v

run_known-IsAccounted :
    (codec : Codec) (now : ℕ) (cwd : Bytes) (f : Option Filter) (args : List Bytes) (input : Bytes)
    (fs : FileSystem)
    → IsAccounted fs
    → IsAccounted (run_known codec now cwd f args input fs).1
run_known-IsAccounted codec now cwd none args input fs v = v
run_known-IsAccounted codec now cwd (some f) args input fs v =
    filter_files-IsAccounted now cwd f args input fs v

filter_cmd-IsAccounted :
    (codec : Codec) (clock : ProcClock) (now : ℕ) (cwd bin : Bytes) (args : List Bytes)
    (fs : FileSystem)
    → IsAccounted fs
    → IsAccounted (filter_cmd codec clock now cwd bin args fs).1
unfolding filter_cmd run_filter
filter_cmd-IsAccounted codec clock now cwd bin args fs v =
    run_known-IsAccounted codec now cwd (filter_of bin) args (read_all clock cwd args [] fs) fs v

cloned-state : (name : Bytes) (o : Outcome) → (cloned name o).0 ≡ o.0
cloned-state name (fs, none) = refl
cloned-state name (fs, some e) = refl

abbrev IsKept : Said → Type 0
IsKept r = IsAccounted r.0

git_clone-IsAccounted :
    (now : ℕ) (user : Identity) (cwd url : Bytes) (fs : FileSystem)
    → IsAccounted fs
    → IsKept (git_clone now user cwd url fs)
unfolding git_clone
git_clone-IsAccounted now user cwd url fs v =
    let name = or_repo (trim_suffix (base_of url) (codes ".git")) in
    rw (cloned-state _ _) (
      mkdir-IsAccounted now (join_two cwd name) (codes "drwxr-xr-x") user.name
        (if is_root user then codes "root" else user.name) fs v)

git-IsAccounted :
    (now : ℕ) (user : Identity) (cwd : Bytes) (args : List Bytes) (fs : FileSystem)
    → IsAccounted fs
    → IsKept (git now user cwd args fs)
unfolding git
git-IsAccounted now user cwd [] fs v = v
git-IsAccounted now user cwd (sub ∷ rest) fs v =
    let url = first_of (targets_of rest) in
    either_branch IsKept (same sub (codes "--version")) _ _ v (
      either_branch IsKept (same sub (codes "clone")) _ _
        (either_branch IsKept (same url []) _ _ v (git_clone-IsAccounted now user cwd url fs v))
        (either_branch IsKept (contains_str repo_commands sub) _ _ v
          (either_branch IsKept (same sub (codes "init")) _ _ v v)))

abbrev pub HasCounters : Done World → Type 0
HasCounters d = IsAccounted d.world.fs

abbrev pub MovesOutside : Env → Option Command → List Bytes → Bytes → FileSystem → Type 0
MovesOutside e (some (change_files c)) args cwd fs = StaysOutside e.quote e.now cwd c args fs
MovesOutside e _ args cwd fs = Unit {0}

module _ (e : Env) (cwd out : Bytes) (w : World) (v : IsAccounted w.fs) where
  run_command-HasCounters :
      (c : Command) (args : List Bytes)
      → MovesOutside e (some c) args cwd w.fs
      → HasCounters (run_command e c args cwd out w)
  unfolding run_command
  run_command-HasCounters cd_to [] o = either_branch HasCounters (is_dir w.fs e.user.home) _ _ v v
  run_command-HasCounters cd_to (a ∷ rest) o =
      either_branch HasCounters (is_dir w.fs (abs_path cwd a)) _ _ v v
  run_command-HasCounters print_cwd args o = v
  run_command-HasCounters echo_words args o = v
  run_command-HasCounters print_user args o = v
  run_command-HasCounters read_files [] o = v
  run_command-HasCounters read_files (a ∷ rest) o = v
  run_command-HasCounters clear_screen args o = v
  run_command-HasCounters show_history args o =
      either_branch HasCounters (contains_str args (codes "-c")) _ _ v v
  run_command-HasCounters succeed args o = v
  run_command-HasCounters fail_once args o = v
  run_command-HasCounters find_files args o = v
  run_command-HasCounters make_targets args o = v
  run_command-HasCounters git_repo args o = git-IsAccounted e.now e.user cwd args w.fs v
  run_command-HasCounters java_class args o = v
  run_command-HasCounters tell_types args o = v
  run_command-HasCounters change_attributes args o =
      (accounts-IsAccounted e.clock e.now e.quote e.user [] [] cwd args w.fs v).3
  run_command-HasCounters edit_crontab args o =
      (accounts-IsAccounted e.clock e.now e.quote e.user [] e.user.name cwd args w.fs v).2
  run_command-HasCounters del_user args o =
      (accounts-IsAccounted e.clock e.now e.quote e.user [] [] cwd args w.fs v).1
  run_command-HasCounters mod_user args o = v
  run_command-HasCounters set_password args o = v
  run_command-HasCounters (add_user_by bin) args o =
      (accounts-IsAccounted e.clock e.now e.quote e.user bin [] cwd args w.fs v).0
  run_command-HasCounters (filter_named bin) args o =
      filter_cmd-IsAccounted e.codec e.clock e.now cwd bin args w.fs v
  run_command-HasCounters (change_files c) args o =
      run_file_command-IsAccounted e.quote e.now cwd e.clock c args w.fs o v

-- What a command that is not modelled leaves behind.
abbrev pub IsCounted : Option (Done World) → Type 0
IsCounted none = Unit {0}
IsCounted (some d) = HasCounters d

or_unknown-HasCounters :
    (a cwd out : Bytes) (w : World) (d : Option (Done World))
    → IsAccounted w.fs
    → IsCounted d
    → HasCounters (or_unknown a cwd out w d)
or_unknown-HasCounters a cwd out w none v h = v
or_unknown-HasCounters a cwd out w (some d) v h = h

or_other-HasCounters :
    (e : Env) (others : Others) (a : Bytes) (rest : List Bytes) (cwd out : Bytes) (w : World)
    (c : Option Command)
    → IsAccounted w.fs
    → MovesOutside e c rest cwd w.fs
    → IsCounted (others.command (strip_path a) rest cwd out w)
    → HasCounters (or_other e others a rest cwd out w c)
or_other-HasCounters e others a rest cwd out w (some c) v o h =
    run_command-HasCounters e cwd out w v c rest o
or_other-HasCounters e others a rest cwd out w none v o h = or_unknown-HasCounters a cwd out w _ v h

or_local-HasCounters :
    (e : Env) (others : Others) (a : Bytes) (rest : List Bytes) (cwd out : Bytes) (w : World)
    (d : Option (Done World))
    → IsAccounted w.fs
    → IsCounted d
    → MovesOutside e (command_of e.user (strip_path a)) rest cwd w.fs
    → IsCounted (others.command (strip_path a) rest cwd out w)
    → HasCounters (or_local e others a rest cwd out w d)
or_local-HasCounters e others a rest cwd out w (some d) v n o h = n
or_local-HasCounters e others a rest cwd out w none v n o h =
    or_other-HasCounters e others a rest cwd out w (command_of e.user (strip_path a)) v o h

-- From a file system whose counters are exact and within the limits, every command leads to such a file
-- system, if mv moves no directory below itself and the commands that are not modelled keep it so.
pub exec_one-HasCounters :
    (e : Env) (others : Others) (a : Bytes) (rest : List Bytes) (cwd out : Bytes) (w : World)
    → IsAccounted w.fs
    → IsCounted (others.network (strip_path a) rest cwd out w)
    → MovesOutside e (command_of e.user (strip_path a)) rest cwd w.fs
    → IsCounted (others.command (strip_path a) rest cwd out w)
    → HasCounters (exec_one e others cwd (a ∷ rest) out w)
unfolding exec_one
exec_one-HasCounters e others a rest cwd out w v n o h =
    or_local-HasCounters e others a rest cwd out w (others.network (strip_path a) rest cwd out w) v
      n o h
