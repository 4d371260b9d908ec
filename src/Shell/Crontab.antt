-- ===== src/Shell/Crontab.antt =====
-- `crontabCmd` of internal/shell/executor.go.
use honeypot_go.Base.{
  Bool, true, false, ◌||◌, Option, none, some, List, [], ◌∷◌, ◌++◌, if◌then◌else◌, Bytes, codes,
  same, has_prefix, ℕ, bind, not,
}
use honeypot_go.Vfs.State.{FileSystem}
use honeypot_go.Vfs.Messages.{error_text}
use honeypot_go.Vfs.Write.{write_file}
use honeypot_go.Vfs.Remove.{remove}
use honeypot_go.Vfs.Proc.{ProcClock}
use honeypot_go.Vfs.Read.{Result, ok, err, read_file}
use honeypot_go.Shell.Dispatch.{abs_path}
use honeypot_go.Shell.Files.{Said, report}

pub record CronOptions : Type 0 where
  pub lists : Bool
  pub removes : Bool
  pub file : Bytes

abbrev pub either_option : Bytes → Bytes → Bytes → Bool
either_option short long a = same a short || same a long

abbrev pub is_cron_user : Bytes → Bool
is_cron_user a = either_option (codes "-u") (codes "--user") a

abbrev pub with_argument : Bytes → CronOptions → Option CronOptions
with_argument a o =
    if either_option (codes "-l") (codes "--list") a
    then some (record o { lists = true })
    else if either_option (codes "-r") (codes "--remove") a
    then some (record o { removes = true })
    else if either_option (codes "-e") (codes "--edit") a
    then none
    else if is_cron_user a || has_prefix a (codes "-")
    then some o
    else some (record o { file = a })

-- none for -e, which returns at once; -u takes a value that is not used.
unfoldable pub cron_options : List Bytes → CronOptions → Option CronOptions
unfolding same has_prefix
cron_options [] o = some o
cron_options (a ∷ []) o = with_argument a o
cron_options (a ∷ value ∷ rest) o =
    let behind = cron_options rest o in
    let next = bind (with_argument a o) (cron_options (value ∷ rest)) in
    if is_cron_user a then behind else next

abbrev pub no_crontab : Bytes → Bytes
no_crontab user = codes "crontab: no crontab for " ++ (user ++ 10 ∷ [])

abbrev pub listed : Bytes → Result Bytes → Bytes
listed user (err e) = no_crontab user
listed user (ok content) = if same content [] then no_crontab user else content

-- The crontab of a user: `fs` is handed on where the read fails.
abbrev pub unless_read : Result Bytes → Said → (Bytes → Said) → Said
unless_read (err e) other k = other
unless_read (ok content) other k = k content

abbrev pub crontab_path : Bytes → Bytes
crontab_path user = codes "/var/spool/cron/crontabs/" ++ user

module _ (quote : Bytes → Bytes) (clock : ProcClock) (now : ℕ) where
  abbrev pub crontab_with : Bytes → Bytes → Option CronOptions → FileSystem → Said
  crontab_with user cwd none fs = (fs, [])
  crontab_with user cwd (some o) fs =
      let path = crontab_path user in
      if o.lists
      then (fs, listed user (read_file clock fs path))
      else if o.removes
      then unless_read (read_file clock fs path) (fs, no_crontab user)
          (λ content. ((remove path fs).0, []))
      else if not (same o.file [])
      then unless_read (read_file clock fs (abs_path cwd o.file))
          (fs, codes "crontab: " ++ (o.file ++ codes ": No such file or directory\n"))
          (λ content.
            report (λ e. codes "crontab: " ++ (error_text quote e ++ 10 ∷ []))
              (write_file now path content fs))
      else (fs, codes "crontab: usage error: no arguments permitted after this option\n")

  unfoldable pub crontab : Bytes → Bytes → List Bytes → FileSystem → Said
  unfolding cron_options read_file remove error_text abs_path same
  crontab user cwd args fs =
      crontab_with user cwd
        (cron_options args (record { lists = false; removes = false; file = [] })) fs
