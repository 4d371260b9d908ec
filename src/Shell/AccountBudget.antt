-- ===== src/Shell/AccountBudget.antt =====
-- The commands on accounts and crontabs keep the counters of the file system.
use honeypot_go.Base.{
  either_branch, ℕ, Bool, false, not, ◌||◌, ◌&&◌, Option, none, some, List, [], ◌∷◌, ◌++◌, Bytes,
  codes, same, contains_str, split,
}
use honeypot_go.Identity.Defs.{Identity, ℤ}
use honeypot_go.Shell.Chattr.{no_options, chattr_options, chattr}
use honeypot_go.Shell.ChattrLaws.{chattr_with-IsAccounted}
use honeypot_go.Vfs.State.{FileSystem}
use honeypot_go.Vfs.Account.{IsAccounted}
use honeypot_go.Vfs.WriteBudget.{locked_write-IsAccounted}
use honeypot_go.Vfs.MkdirBudget.{mkdir-IsAccounted}
use honeypot_go.Vfs.RemoveBudget.{remove-IsAccounted, remove_all-IsAccounted}
use honeypot_go.Vfs.Write.{write_file, mkdir}
use honeypot_go.Vfs.Remove.{remove, remove_all}
use honeypot_go.Vfs.Messages.{error_text}
use honeypot_go.Vfs.Proc.{ProcClock}
use honeypot_go.Vfs.Read.{Result, ok, err, read_file}
use honeypot_go.Shell.Dispatch.{abs_path}
use honeypot_go.Shell.FileBudget.{report-state}
use honeypot_go.Shell.Files.{targets_of, Said, report}
use honeypot_go.Shell.Accounts.{
  NewUser, content_of, user_line, or_text, filter_lines, home_in, add_user, useradd, delete_user,
  userdel, user_options, next_uid, user_exists, last_name,
}
use honeypot_go.Shell.Crontab.{
  CronOptions, cron_options, no_crontab, unless_read, crontab_path, crontab_with, crontab,
}

module _ (clock : ProcClock) (now : ℕ) where
  add_user-IsAccounted :
      (u : NewUser) (passwd : Bytes) (uid : ℤ) (home shell : Bytes) (fs : FileSystem)
      → IsAccounted fs
      → IsAccounted (add_user clock now u passwd uid home shell fs)
  unfolding add_user
  add_user-IsAccounted u passwd uid home shell fs v =
      let line = user_line u.user uid home shell ++ 10 ∷ [] in
      let fs1 = (write_file now (codes "/etc/passwd") (passwd ++ line) fs).0 in
      let shadow =
        content_of (read_file clock fs1 (codes "/etc/shadow"))
        ++ (u.user ++ codes ":!:19800:0:99999:7:::\n") in
      let fs2 = (write_file now (codes "/etc/shadow") shadow fs1).0 in
      let v1 = locked_write-IsAccounted now (codes "/etc/passwd") (passwd ++ line) false fs v in
      let v2 = locked_write-IsAccounted now (codes "/etc/shadow") shadow false fs1 v1 in
      either_branch IsAccounted (u.make_home && not u.system)
        (mkdir now home (codes "drwxr-xr-x") u.user u.user fs2).0 fs2
        (mkdir-IsAccounted now home (codes "drwxr-xr-x") u.user u.user fs2 v2) v2

  delete_user-IsAccounted :
      (with_home : Bool) (name passwd : Bytes) (fs : FileSystem)
      → IsAccounted fs
      → IsAccounted (delete_user clock now with_home name passwd fs)
  unfolding delete_user
  delete_user-IsAccounted with_home name passwd fs v =
      let home = home_in name [] (split 10 passwd) in
      let fs1 = (write_file now (codes "/etc/passwd") (filter_lines passwd name) fs).0 in
      let shadow = filter_lines (content_of (read_file clock fs1 (codes "/etc/shadow"))) name in
      let fs2 = (write_file now (codes "/etc/shadow") shadow fs1).0 in
      let v1 =
        locked_write-IsAccounted now (codes "/etc/passwd") (filter_lines passwd name) false fs v in
      let v2 = locked_write-IsAccounted now (codes "/etc/shadow") shadow false fs1 v1 in
      either_branch IsAccounted (with_home && not (same home [])) (remove_all home fs2).0 fs2
        (remove_all-IsAccounted home fs2 v2) v2

  abbrev Kept : Said → Type 0
  Kept r = IsAccounted r.0

  useradd-IsAccounted :
      (bin : Bytes) (args : List Bytes) (fs : FileSystem)
      → IsAccounted fs
      → IsAccounted (useradd clock now bin args fs).0
  unfolding useradd
  useradd-IsAccounted bin args fs v =
      let start : NewUser = record {
        user = [];
        shell = [];
        home = [];
        system = false;
        make_home = same bin (codes "adduser");
      } in
      let u = user_options args start in
      let passwd = content_of (read_file clock fs (codes "/etc/passwd")) in
      let home = or_text u.home (codes "/home/" ++ u.user) in
      either_branch Kept (same u.user []) _ _ v (
        either_branch Kept (user_exists passwd u.user) _ _ v (
          add_user-IsAccounted u passwd (next_uid passwd) home (or_text u.shell (codes "/bin/bash"))
            fs v))

  userdel-IsAccounted :
      (args : List Bytes) (fs : FileSystem)
      → IsAccounted fs
      → IsAccounted (userdel clock now args fs).0
  unfolding userdel
  userdel-IsAccounted args fs v =
      let name = last_name (targets_of args) in
      let passwd = content_of (read_file clock fs (codes "/etc/passwd")) in
      either_branch Kept (same name []) _ _ v (
        either_branch Kept (not (user_exists passwd name)) _ _ v (
          either_branch Kept (same name (codes "root")) _ _ v (
            delete_user-IsAccounted
              (contains_str args (codes "-r") || contains_str args (codes "--remove")) name passwd
              fs v)))

  crontab_with-IsAccounted :
      (quote : Bytes → Bytes) (user cwd : Bytes) (o : Option CronOptions) (fs : FileSystem)
      → IsAccounted fs
      → IsAccounted (crontab_with quote clock now user cwd o fs).0
  crontab_with-IsAccounted quote user cwd none fs v = v
  crontab_with-IsAccounted quote user cwd (some o) fs v = either_branch Kept o.lists _ _ v (
      either_branch Kept o.removes _ _ (removed (read_file clock fs (crontab_path user))) (
        either_branch Kept (not (same o.file [])) _ _
          (written_to (read_file clock fs (abs_path cwd o.file))) v))
    where
      removed :
          (r : Result Bytes)
          → Kept (
              unless_read r
                (fs, no_crontab user)
                (λ content. ((remove (crontab_path user) fs).0, [])))
      removed (err e) = v
      removed (ok content) = remove-IsAccounted (crontab_path user) fs v

      written_to :
          (r : Result Bytes)
          → Kept (
              unless_read r
                (fs, codes "crontab: " ++ (o.file ++ codes ": No such file or directory\n"))
                (λ content.
                  report
                    (λ e. codes "crontab: " ++ (error_text quote e ++ 10 ∷ []))
                    (write_file now (crontab_path user) content fs)))
      written_to (err e) = v
      written_to (ok content) =
          rw (report-state _ _)
            (locked_write-IsAccounted now (crontab_path user) content false fs v)

  -- From a file system whose counters are exact and within the limits, useradd and adduser, userdel,
  -- crontab and chattr lead to such a file system, whatever their arguments.
  pub accounts-IsAccounted :
      (quote : Bytes → Bytes) (login : Identity) (bin user cwd : Bytes) (args : List Bytes)
      (fs : FileSystem)
      → IsAccounted fs
      → IsAccounted (useradd clock now bin args fs).0
        × IsAccounted (userdel clock now args fs).0
        × IsAccounted (crontab quote clock now user cwd args fs).0
        × IsAccounted (chattr quote login cwd args fs).fs
  unfolding crontab chattr
  accounts-IsAccounted quote login bin user cwd args fs v = (
    useradd-IsAccounted bin args fs v,
    userdel-IsAccounted args fs v,
    crontab_with-IsAccounted quote user cwd
        (cron_options args (record { lists = false; removes = false; file = [] })) fs v,
    chattr_with-IsAccounted quote login cwd (chattr_options args no_options) fs v,
  )
