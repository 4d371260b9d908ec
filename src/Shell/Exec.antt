-- ===== src/Shell/Exec.antt =====
-- `execOne` of internal/shell/executor.go: the commands by their names. What stands in no module here,
-- the network commands and those that print fixed texts, is the interface `Others`.
use honeypot_go.Base.{
  ℕ, suc, true, false, Option, none, some, List, [], ◌∷◌, ◌++◌, if◌then◌else◌, Bytes, codes, same,
  contains_str, decimal,
}
use honeypot_go.Identity.Defs.{Identity}
use honeypot_go.Vfs.State.{FileSystem}
use honeypot_go.Vfs.Proc.{ProcClock}
use honeypot_go.Vfs.Read.{Result, ok, err, read_file, is_dir}
use honeypot_go.Shell.Text.{join, pad_left}
use honeypot_go.Shell.Filters.{Codec}
use honeypot_go.Shell.Dispatch.{abs_path, filter_cmd}
use honeypot_go.Shell.Files.{Said}
use honeypot_go.Shell.FileCommands.{
  FileCommand, touch_files, rm_files, mv_files, cp_files, chmod_files, chown_files, mkdir_files,
  tar_files, gzip_files, run_file_command,
}
use honeypot_go.Shell.Accounts.{useradd, userdel, usermod, passwd_cmd}
use honeypot_go.Shell.Crontab.{crontab}
use honeypot_go.Shell.Chattr.{chattr}
use honeypot_go.Shell.Find.{find_cmd}
use honeypot_go.Shell.Tools.{git, java, make, file_cmd}
use honeypot_go.Shell.History.{Sessions, history_of, clear_history}
use honeypot_go.Shell.Eval.{Done, finish, strip_path}

pub record World : Type 0 where
  pub fs : FileSystem
  pub sessions : Sessions

-- The session and the user of `execCtx`, the clock, and the packages that the commands call.
pub record Env : Type 0 where
  pub session_id : Bytes
  pub user : Identity
  pub quote : Bytes → Bytes
  pub clock : ProcClock
  pub now : ℕ
  pub codec : Codec

-- `network` is Exec of package vnet, which comes first; `command` is a name of the switch that has no
-- constructor below. none is a name that is not known.
pub record Others : Type 0 where
  pub network : Bytes → List Bytes → Bytes → Bytes → World → Option (Done World)
  pub command : Bytes → List Bytes → Bytes → Bytes → World → Option (Done World)

pub data Command : Type 0 where
  cd_to print_cwd echo_words print_user read_files clear_screen show_history succeed fail_once :
      Command
  find_files make_targets git_repo java_class tell_types : Command
  change_attributes edit_crontab del_user mod_user set_password : Command
  add_user_by filter_named : Bytes → Command
  change_files : FileCommand → Command

abbrev pub silent_names : List Bytes
silent_names =
    codes "true"
    ∷ codes "exit"
    ∷ codes "logout"
    ∷ codes "export"
    ∷ codes "kill"
    ∷ codes "jobs"
    ∷ codes "ln"
    ∷ codes "pkill"
    ∷ codes "killall"
    ∷ codes "vi"
    ∷ codes "vim"
    ∷ codes "nano"
    ∷ codes "screen"
    ∷ codes "tmux"
    ∷ []

abbrev pub shell_filter_names : List Bytes
shell_filter_names =
    codes "grep"
    ∷ codes "egrep"
    ∷ codes "fgrep"
    ∷ codes "head"
    ∷ codes "tail"
    ∷ codes "wc"
    ∷ codes "sort"
    ∷ codes "uniq"
    ∷ codes "awk"
    ∷ codes "sed"
    ∷ codes "cut"
    ∷ codes "tr"
    ∷ codes "base64"
    ∷ codes "strings"
    ∷ codes "tee"
    ∷ codes "xargs"
    ∷ codes "sha256sum"
    ∷ codes "md5sum"
    ∷ []

abbrev pub command_names : Identity → List (Bytes × Command)
command_names user =
    (codes "cd", cd_to)
    ∷ (codes "pwd", print_cwd)
    ∷ (codes "echo", echo_words)
    ∷ (codes "whoami", print_user)
    ∷ (codes "cat", read_files)
    ∷ (codes "clear", clear_screen)
    ∷ (codes "history", show_history)
    ∷ (codes "false", fail_once)
    ∷ (codes "find", find_files)
    ∷ (codes "make", make_targets)
    ∷ (codes "git", git_repo)
    ∷ (codes "java", java_class)
    ∷ (codes "file", tell_types)
    ∷ (codes "chattr", change_attributes)
    ∷ (codes "crontab", edit_crontab)
    ∷ (codes "useradd", add_user_by (codes "useradd"))
    ∷ (codes "adduser", add_user_by (codes "adduser"))
    ∷ (codes "userdel", del_user)
    ∷ (codes "usermod", mod_user)
    ∷ (codes "passwd", set_password)
    ∷ (codes "touch", change_files touch_files)
    ∷ (codes "mkdir", change_files (mkdir_files user))
    ∷ (codes "rmdir", change_files (mkdir_files user))
    ∷ (codes "rm", change_files rm_files)
    ∷ (codes "mv", change_files mv_files)
    ∷ (codes "cp", change_files cp_files)
    ∷ (codes "chmod", change_files chmod_files)
    ∷ (codes "chown", change_files chown_files)
    ∷ (codes "tar", change_files tar_files)
    ∷ (codes "gzip", change_files (gzip_files false))
    ∷ (codes "gunzip", change_files (gzip_files true))
    ∷ []

unfoldable pub named_in : List (Bytes × Command) → Bytes → Option Command
unfolding same
named_in [] bin = none
named_in ((name, c) ∷ cs) bin = let rest = named_in cs bin in if same name bin then some c else rest

unfoldable pub command_of : Identity → Bytes → Option Command
unfolding named_in contains_str
command_of user bin =
    if contains_str silent_names bin
    then some succeed
    else if contains_str shell_filter_names bin
    then some (filter_named bin)
    else named_in (command_names user) bin

abbrev pub change_dir : Bytes → Bytes → Bytes → Bytes → World → Done World
change_dir target shown cwd out w =
    if is_dir w.fs target
    then finish target 0 out w
    else finish cwd 1
        (out ++ (codes "bash: cd: " ++ (shown ++ codes ": No such file or directory\n"))) w

abbrev pub cat_one : Bytes → Result Bytes → Bytes → Bytes
cat_one f (ok content) out = out ++ content
cat_one f (err e) out = out ++ (codes "cat: " ++ (f ++ codes ": No such file or directory\n"))

unfoldable pub cat_files : ProcClock → Bytes → List Bytes → FileSystem → Bytes → Bytes
unfolding read_file abs_path
cat_files clock cwd [] fs out = out
cat_files clock cwd (f ∷ rest) fs out =
    cat_files clock cwd rest fs (cat_one f (read_file clock fs (abs_path cwd f)) out)

abbrev pub echo_text : List Bytes → Bytes
echo_text [] = 10 ∷ []
echo_text (a ∷ rest) =
    if same a (codes "-n") then join (codes " ") rest else join (codes " ") (a ∷ rest) ++ 10 ∷ []

abbrev pub numbered : ℕ → List Bytes → Bytes
numbered n [] = []
numbered n (h ∷ hs) = pad_left 5 (decimal n) ++ (codes "  " ++ (h ++ 10 ∷ numbered (suc n) hs))

abbrev pub history_text : List Bytes → Bytes
history_text [] = codes "    1  ls -la\n    2  whoami\n    3  cat /etc/passwd\n"
history_text (h ∷ hs) = numbered 1 (h ∷ hs)

-- The result of a command that changes files and leaves the directory.
abbrev pub after : Bytes → ℕ → Bytes → World → Said → Done World
after cwd code out w (fs, text) = finish cwd code (out ++ text) (record w { fs = fs })

abbrev pub prints : Bytes → Bytes → World → Bytes → Done World
prints cwd out w text = finish cwd 0 (out ++ text) w

unfoldable pub run_command : Env → Command → List Bytes → Bytes → Bytes → World → Done World
unfolding is_dir abs_path join cat_files decimal history_of clear_history filter_cmd find_cmd make
    git file_cmd chattr crontab useradd userdel usermod passwd_cmd run_file_command contains_str
    same
run_command e cd_to [] cwd out w =
    if is_dir w.fs e.user.home then finish e.user.home 0 out w else finish cwd 0 out w
run_command e cd_to (a ∷ rest) cwd out w = change_dir (abs_path cwd a) a cwd out w
run_command e print_cwd args cwd out w = prints cwd out w (cwd ++ 10 ∷ [])
run_command e echo_words args cwd out w = prints cwd out w (echo_text args)
run_command e print_user args cwd out w = prints cwd out w (e.user.name ++ 10 ∷ [])
run_command e read_files [] cwd out w =
    finish cwd 1 (out ++ codes "Usage: cat [OPTION]... [FILE]...\n") w
run_command e read_files (a ∷ rest) cwd out w =
    finish cwd 0 (cat_files e.clock cwd (a ∷ rest) w.fs out) w
run_command e clear_screen args cwd out w = prints cwd out w (27 ∷ codes "[H" ++ (27 ∷ codes "[2J"))
run_command e show_history args cwd out w =
    if contains_str args (codes "-c")
    then finish cwd 0 out (record w { sessions = clear_history e.session_id w.sessions })
    else prints cwd out w (history_text (history_of e.session_id w.sessions))
run_command e succeed args cwd out w = finish cwd 0 out w
run_command e fail_once args cwd out w = finish cwd 1 out w
run_command e (filter_named bin) args cwd out w =
    let r = filter_cmd e.codec e.clock e.now cwd bin args w.fs in after cwd 0 out w (r.1, r.0)
run_command e find_files args cwd out w = prints cwd out w (find_cmd cwd args w.fs)
run_command e make_targets args cwd out w = prints cwd out w (make e.clock cwd w.fs)
run_command e git_repo args cwd out w = after cwd 0 out w (git e.now e.user cwd args w.fs)
run_command e java_class args cwd out w = prints cwd out w (java e.clock cwd args w.fs)
run_command e tell_types args cwd out w = prints cwd out w (file_cmd e.clock cwd args w.fs)
run_command e change_attributes args cwd out w =
    let s = chattr e.quote e.user cwd args w.fs in after cwd s.code out w (s.fs, s.text)
run_command e edit_crontab args cwd out w =
    after cwd 0 out w (crontab e.quote e.clock e.now e.user.name cwd args w.fs)
run_command e del_user args cwd out w = after cwd 0 out w (userdel e.clock e.now args w.fs)
run_command e mod_user args cwd out w = prints cwd out w (usermod e.clock e.now args w.fs)
run_command e set_password args cwd out w =
    prints cwd out w (passwd_cmd e.clock e.now e.user.name args w.fs)
run_command e (add_user_by bin) args cwd out w =
    after cwd 0 out w (useradd e.clock e.now bin args w.fs)
run_command e (change_files c) args cwd out w =
    after cwd 0 out w (run_file_command e.quote e.clock e.now cwd c args w.fs)

abbrev pub or_unknown : Bytes → Bytes → Bytes → World → Option (Done World) → Done World
or_unknown a cwd out w (some d) = d
or_unknown a cwd out w none =
    finish cwd 127 (out ++ (codes "bash: " ++ (a ++ codes ": command not found\n"))) w

abbrev pub or_other :
    Env → Others → Bytes → List Bytes → Bytes → Bytes → World → Option Command → Done World
or_other e others a rest cwd out w (some c) = run_command e c rest cwd out w
or_other e others a rest cwd out w none =
    or_unknown a cwd out w (others.command (strip_path a) rest cwd out w)

abbrev pub or_local :
    Env → Others → Bytes → List Bytes → Bytes → Bytes → World → Option (Done World) → Done World
or_local e others a rest cwd out w (some d) = d
or_local e others a rest cwd out w none =
    or_other e others a rest cwd out w (command_of e.user (strip_path a))

-- The callers give at least the name of the command.
unfoldable pub exec_one : Env → Others → Bytes → List Bytes → Bytes → World → Done World
unfolding run_command command_of strip_path
exec_one e others cwd [] out w = finish cwd 0 out w
exec_one e others cwd (a ∷ rest) out w =
    or_local e others a rest cwd out w (others.network (strip_path a) rest cwd out w)
