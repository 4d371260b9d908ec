-- ===== src/Shell/Files.antt =====
-- The commands of internal/shell/executor.go that change files: touchCmd, mkdirCmd, rmCmd, mvCmd,
-- cpCmd, chmodCmd and chownCmd. A command gives the file system and the text that it prints.
use honeypot_go.Base.{
  ℕ, ◌==◌, Bool, true, false, ◌||◌, ◌&&◌, not, Option, none, some, List, [], ◌∷◌, ◌++◌,
  if◌then◌else◌, Bytes, codes, same, has_prefix, contains_str, any_of,
}
use honeypot_go.Identity.Defs.{Identity, is_root}
use honeypot_go.Vfs.State.{FileSystem, FsError, Outcome}
use honeypot_go.Vfs.Messages.{error_text, is_not_permitted}
use honeypot_go.Vfs.Write.{touch, mkdir, copy}
use honeypot_go.Vfs.Remove.{remove, remove_all, rename}
use honeypot_go.Vfs.Change.{chmod, chown}
use honeypot_go.Vfs.Read.{FileInfo, resolve, is_dir}
use honeypot_go.Shell.Dispatch.{abs_path}
use honeypot_go.Shell.Paths.{dir_of, base_of, join_two}
use honeypot_go.Shell.Modes.{chmod_perm}

abbrev pub Said : Type 0
Said = FileSystem × Bytes

-- The loop over the targets of a command; what they print is put behind one another.
unfoldable pub for_each : (Bytes → FileSystem → Said) → List Bytes → FileSystem → Said
for_each step [] fs = (fs, [])
for_each step (t ∷ ts) fs =
    let (fs1, text) = step t fs in let (fs2, more) = for_each step ts fs1 in (fs2, text ++ more)

-- The arguments that are no options.
unfoldable pub targets_of : List Bytes → List Bytes
unfolding has_prefix
targets_of [] = []
targets_of (a ∷ rest) =
    let targets = targets_of rest in if has_prefix a (codes "-") then targets else a ∷ targets

-- What a failed call prints: none for a call that succeeds.
abbrev pub report : (FsError → Bytes) → Outcome → Said
report text (fs, none) = (fs, [])
report text (fs, some e) = (fs, text e)

-- "command: what 't': error"
abbrev pub complaint : (Bytes → Bytes) → Bytes → Bytes → FsError → Bytes
complaint quote what t e = what ++ (t ++ (codes "': " ++ (error_text quote e ++ 10 ∷ [])))

abbrev pub has_node : Option FileInfo → Bool
has_node none = false
has_node (some fi) = true

abbrev pub is_dir_info : Option FileInfo → Bool
is_dir_info none = false
is_dir_info (some fi) = fi.is_dir

abbrev pub is_recursive : Bytes → Bool
is_recursive a =
    same a (codes "-r") || (same a (codes "-R") || (same a (codes "-rf") || same a (codes "-fr")))

-- The last of the arguments, and those before it.
abbrev pub last_arg : Bytes → List Bytes → Bytes
last_arg a [] = a
last_arg a (b ∷ rest) = last_arg b rest

abbrev pub before_last : Bytes → List Bytes → List Bytes
before_last a [] = []
before_last a (b ∷ rest) = a ∷ before_last b rest

-- A directory takes the file under the base of its name.
unfoldable pub target_in : Bytes → Bytes → FileSystem → Bytes
unfolding is_dir join_two base_of
target_in dst s fs = if is_dir fs dst then join_two dst (base_of s) else dst

abbrev pub is_copy_recursive : Bytes → Bool
is_copy_recursive a = same a (codes "-r") || (same a (codes "-R") || same a (codes "-rf"))

-- strings.SplitN(spec, ":", 2)
abbrev pub before_colon : Bytes → Bytes
before_colon [] = []
before_colon (c ∷ s) = let rest = before_colon s in if c == b':' then [] else c ∷ rest

abbrev pub behind_colon : Bytes → Bytes
behind_colon [] = []
behind_colon (c ∷ s) = let rest = behind_colon s in if c == b':' then s else rest

module _ (quote : Bytes → Bytes) (now : ℕ) (cwd : Bytes) where
  unfoldable pub touch_one : Bytes → FileSystem → Said
  unfolding touch abs_path error_text resolve
  touch_one t fs =
      let full = abs_path cwd t in
      let after = touch now full fs in
      report
        (λ e.
          if has_node (resolve after.0 full) && is_not_permitted e
          then complaint quote (codes "touch: setting times of '") t e
          else complaint quote (codes "touch: cannot touch '") t e)
        after

  unfoldable pub touch_cmd : List Bytes → FileSystem → Said
  unfolding for_each targets_of touch_one
  touch_cmd args fs = for_each touch_one (targets_of args) fs

  -- `mkdirCmd`, also for the name rmdir.
  unfoldable pub mkdir_one : Identity → Bool → Bytes → FileSystem → Said
  unfolding mkdir abs_path error_text resolve dir_of
  mkdir_one user parents t fs =
      let full = abs_path cwd t in
      let group = if is_root user then codes "root" else user.name in
      if parents || is_dir_info (resolve fs (dir_of full))
      then report (complaint quote (codes "mkdir: cannot create directory '") t)
          (mkdir now full (codes "drwxr-xr-x") user.name group fs)
      else (
        fs,
        codes "mkdir: cannot create directory '" ++ (t ++ codes "': No such file or directory\n"),
      )

  unfoldable pub mkdir_cmd : Identity → List Bytes → FileSystem → Said
  unfolding for_each targets_of mkdir_one contains_str
  mkdir_cmd user args fs =
      for_each (mkdir_one user (contains_str args (codes "-p"))) (targets_of args) fs

  abbrev pub rm_text : Bool → Bytes → FsError → Bytes
  rm_text force t e =
      if not force || is_not_permitted e
      then complaint quote (codes "rm: cannot remove '") t e
      else []

  unfoldable pub rm_one : Bool → Bool → Bytes → FileSystem → Said
  unfolding remove remove_all abs_path error_text
  rm_one recursive force t fs =
      let full = abs_path cwd t in
      report (rm_text force t) (if recursive then remove_all full fs else remove full fs)

  unfoldable pub rm_cmd : List Bytes → FileSystem → Said
  unfolding for_each targets_of rm_one contains_str same
  rm_cmd args fs =
      for_each (rm_one (any_of is_recursive args) (contains_str args (codes "-f")))
        (targets_of args) fs

  unfoldable pub mv_one : Bytes → Bytes → FileSystem → Said
  unfolding rename abs_path target_in error_text
  mv_one dst s fs =
      report
        (λ e.
          codes "mv: cannot move '"
          ++ (s ++ (codes "' to '" ++ (dst ++ (codes "': " ++ (error_text quote e ++ 10 ∷ []))))))
        (rename (abs_path cwd s) (target_in (abs_path cwd dst) s fs) fs)

  unfoldable pub mv_cmd : List Bytes → FileSystem → Said
  unfolding for_each targets_of mv_one
  mv_cmd (a ∷ b ∷ rest) fs =
      for_each (mv_one (last_arg b rest)) (targets_of (before_last a (b ∷ rest))) fs
  mv_cmd _ fs = (fs, codes "mv: missing destination file operand\n")

  unfoldable pub cp_one : Bool → Bytes → Bytes → FileSystem → Said
  unfolding copy abs_path target_in error_text resolve
  cp_one recursive dst s fs =
      let full = abs_path cwd s in
      if is_dir_info (resolve fs full) && not recursive
      then (fs, codes "cp: -r not specified; omitting directory '" ++ (s ++ codes "'\n"))
      else report
          (λ e.
            if is_not_permitted e
            then complaint quote (codes "cp: cannot create regular file '") dst e
            else complaint quote (codes "cp: cannot stat '") s e)
          (copy now full (target_in (abs_path cwd dst) s fs) fs)

  abbrev pub cp_targets : Bool → List Bytes → FileSystem → Said
  cp_targets recursive (a ∷ b ∷ rest) fs =
      for_each (cp_one recursive (last_arg b rest)) (before_last a (b ∷ rest)) fs
  cp_targets recursive _ fs = (fs, codes "cp: missing destination file operand\n")

  unfoldable pub cp_cmd : List Bytes → FileSystem → Said
  unfolding for_each targets_of cp_one same
  cp_cmd args fs = cp_targets (any_of is_copy_recursive args) (targets_of args) fs

  abbrev pub chmod_one : Bytes → Option Bytes → Bytes → FileSystem → Said
  chmod_one mode none t fs = (fs, codes "chmod: invalid mode: '" ++ (mode ++ codes "'\n"))
  chmod_one mode (some perm) t fs =
      report
        (λ e.
          if is_not_permitted e
          then complaint quote (codes "chmod: changing permissions of '") t e
          else complaint quote (codes "chmod: cannot access '") t e)
        (chmod (abs_path cwd t) perm fs)

  unfoldable pub chmod_cmd : List Bytes → FileSystem → Said
  unfolding for_each targets_of chmod abs_path error_text chmod_perm
  chmod_cmd (mode ∷ b ∷ rest) fs =
      for_each (chmod_one mode (chmod_perm mode)) (targets_of (b ∷ rest)) fs
  chmod_cmd _ fs = (fs, codes "chmod: missing operand\n")

  unfoldable pub chown_one : Bytes → Bytes → Bytes → FileSystem → Said
  unfolding chown abs_path error_text
  chown_one owner group t fs =
      report
        (λ e.
          if is_not_permitted e
          then complaint quote (codes "chown: changing ownership of '") t e
          else complaint quote (codes "chown: cannot access '") t e)
        (chown (abs_path cwd t) owner group fs)

  unfoldable pub chown_cmd : List Bytes → FileSystem → Said
  unfolding for_each targets_of chown_one
  chown_cmd (spec ∷ b ∷ rest) fs =
      for_each (chown_one (before_colon spec) (behind_colon spec)) (targets_of (b ∷ rest)) fs
  chown_cmd _ fs = (fs, codes "chown: missing operand\n")
