-- ===== src/Shell/FileBudget.antt =====
-- The commands that change files keep the counters of the file system, one target after the other.
use honeypot_go.Base.{
  ℕ, ◌≡◌, refl, Bool, true, false, not, ◌||◌, Option, none, some, List, [], ◌∷◌, if◌then◌else◌,
  Bytes, codes, Bool-cases, inl, inr, ◌&&◌,
}
use honeypot_go.Identity.Defs.{Identity, is_root}
use honeypot_go.Vfs.State.{FileSystem, FsError, Outcome}
use honeypot_go.Vfs.Account.{IsAccounted}
use honeypot_go.Vfs.WriteBudget.{touch-IsAccounted, copy-IsAccounted}
use honeypot_go.Vfs.MkdirBudget.{mkdir-IsAccounted}
use honeypot_go.Vfs.RemoveBudget.{remove-IsAccounted, remove_all-IsAccounted}
use honeypot_go.Vfs.RenameBudget.{IsMoveInside, rename-IsAccounted}
use honeypot_go.Vfs.ChangeBudget.{chmod-IsAccounted, chown-IsAccounted}
use honeypot_go.Vfs.Read.{resolve}
use honeypot_go.Shell.Dispatch.{abs_path}
use honeypot_go.Shell.Paths.{dir_of}
use honeypot_go.Shell.Files.{
  has_node, Said, for_each, report, is_dir_info, touch_one, mkdir_one, rm_one, last_arg,
  before_last, target_in, mv_one, cp_one, cp_targets, chmod_one, chown_one,
}
use honeypot_go.Base.{same}
use honeypot_go.Vfs.Write.{write_file}
use honeypot_go.Vfs.WriteBudget.{locked_write-IsAccounted}
use honeypot_go.Vfs.Proc.{ProcClock}
use honeypot_go.Vfs.Read.{Result, ok, err, read_file}
use honeypot_go.Shell.Paths.{base_of, join_two}
use honeypot_go.Shell.Archives.{
  TarMode, no_mode, extract, create, list_names, TarOptions, placeholder, behind, strip_archive_ext,
  tar_run, reads_archive, tar_with, gzip_name, gzip_written, gzip_content, gzip_one, gzip_targets,
}

pub report-state : (text : FsError → Bytes) (o : Outcome) → (report text o).0 ≡ o.0
report-state text (fs, none) = refl
report-state text (fs, some e) = refl

pub for_each-keeps :
    (P : FileSystem → Type 0) (step : Bytes → FileSystem → Said)
    → ((t : Bytes) (fs : FileSystem) → P fs → P (step t fs).0)
    → (ts : List Bytes) (fs : FileSystem) → P fs
    → P (for_each step ts fs).0
unfolding for_each
for_each-keeps P step keeps [] fs v = v
for_each-keeps P step keeps (t ∷ ts) fs v =
    for_each-keeps P step keeps ts (step t fs).0 (keeps t fs v)

-- No move of mv takes a directory below itself.
abbrev pub AllMovesOutside : (Bytes → Bytes) → ℕ → Bytes → Bytes → List Bytes → FileSystem → Type 0
AllMovesOutside quote now cwd dst [] fs = Unit {0}
AllMovesOutside quote now cwd dst (s ∷ ss) fs =
    ¬ IsMoveInside fs.root (abs_path cwd s) (target_in (abs_path cwd dst) s fs)
    × AllMovesOutside quote now cwd dst ss (mv_one quote now cwd dst s fs).0

module _ (quote : Bytes → Bytes) (now : ℕ) (cwd : Bytes) where
  pub touch_one-IsAccounted :
      (t : Bytes) (fs : FileSystem) → IsAccounted fs → IsAccounted (touch_one quote now cwd t fs).0
  unfolding touch_one
  touch_one-IsAccounted t fs v = rw (report-state _ _) (touch-IsAccounted now (abs_path cwd t) fs v)

  pub mkdir_one-IsAccounted :
      (user : Identity) (parents : Bool) (t : Bytes) (fs : FileSystem)
      → IsAccounted fs
      → IsAccounted (mkdir_one quote now cwd user parents t fs).0
  unfolding mkdir_one
  mkdir_one-IsAccounted user parents t fs v =
      elim (Bool-cases (parents || is_dir_info (resolve fs (dir_of (abs_path cwd t))))) [
        | inl h ↦
            rw (h, report-state _ _)
              (mkdir-IsAccounted now (abs_path cwd t) (codes "drwxr-xr-x") user.name
                (if is_root user then codes "root" else user.name) fs v)
        | inr h ↦ rw h v
      ]

  pub rm_one-IsAccounted :
      (recursive force : Bool) (t : Bytes) (fs : FileSystem)
      → IsAccounted fs
      → IsAccounted (rm_one quote now cwd recursive force t fs).0
  unfolding rm_one
  rm_one-IsAccounted true force t fs v =
      rw (report-state _ _) (remove_all-IsAccounted (abs_path cwd t) fs v)
  rm_one-IsAccounted false force t fs v =
      rw (report-state _ _) (remove-IsAccounted (abs_path cwd t) fs v)

  pub mv-IsAccounted :
      (dst : Bytes) (ss : List Bytes) (fs : FileSystem)
      → AllMovesOutside quote now cwd dst ss fs
      → IsAccounted fs
      → IsAccounted (for_each (mv_one quote now cwd dst) ss fs).0
  unfolding for_each mv_one
  mv-IsAccounted dst [] fs o v = v
  mv-IsAccounted dst (s ∷ ss) fs o v = mv-IsAccounted dst ss (mv_one quote now cwd dst s fs).0 o.1 (
      rw (report-state _ _)
        (rename-IsAccounted (abs_path cwd s) (target_in (abs_path cwd dst) s fs) fs o.0 v))

  pub cp_one-IsAccounted :
      (recursive : Bool) (dst s : Bytes) (fs : FileSystem)
      → IsAccounted fs
      → IsAccounted (cp_one quote now cwd recursive dst s fs).0
  unfolding cp_one
  cp_one-IsAccounted recursive dst s fs v =
      elim (Bool-cases (is_dir_info (resolve fs (abs_path cwd s)) && not recursive)) [
        | inl h ↦ rw h v
        | inr h ↦
            rw (h, report-state _ _)
              (copy-IsAccounted now (abs_path cwd s) (target_in (abs_path cwd dst) s fs) fs v)
      ]

  pub cp-IsAccounted :
      (recursive : Bool) (ts : List Bytes) (fs : FileSystem)
      → IsAccounted fs
      → IsAccounted (cp_targets quote now cwd recursive ts fs).0
  cp-IsAccounted recursive [] fs v = v
  cp-IsAccounted recursive (a ∷ []) fs v = v
  cp-IsAccounted recursive (a ∷ b ∷ rest) fs v =
      for_each-keeps IsAccounted (cp_one quote now cwd recursive (last_arg b rest))
        (cp_one-IsAccounted recursive (last_arg b rest)) (before_last a (b ∷ rest)) fs v

  pub chmod_one-IsAccounted :
      (mode : Bytes) (perm : Option Bytes) (t : Bytes) (fs : FileSystem)
      → IsAccounted fs
      → IsAccounted (chmod_one quote now cwd mode perm t fs).0
  chmod_one-IsAccounted mode none t fs v = v
  chmod_one-IsAccounted mode (some perm) t fs v =
      rw (report-state _ _) (chmod-IsAccounted (abs_path cwd t) perm fs v)

  pub chown_one-IsAccounted :
      (owner group t : Bytes) (fs : FileSystem)
      → IsAccounted fs
      → IsAccounted (chown_one quote now cwd owner group t fs).0
  unfolding chown_one
  chown_one-IsAccounted owner group t fs v =
      rw (report-state _ _) (chown-IsAccounted (abs_path cwd t) owner group fs v)

  pub behind-state : (text : Bytes) (r : Said) → (behind text r).0 ≡ r.0
  behind-state text (fs, more) = refl

  pub tar_run-IsAccounted :
      (clock : ProcClock) (mode : TarMode) (o : TarOptions) (fs : FileSystem)
      → IsAccounted fs
      → IsAccounted (tar_run quote clock now cwd mode o fs).0
  tar_run-IsAccounted clock no_mode o fs v = v
  tar_run-IsAccounted clock list_names o fs v = v
  tar_run-IsAccounted clock create o fs v =
      rw (behind-state _ _, report-state _ _)
        (locked_write-IsAccounted now (abs_path cwd o.file) placeholder false fs v)
  tar_run-IsAccounted clock extract o fs v =
      let entry = strip_archive_ext (base_of o.file) in
      let dir = if same o.change_dir [] then cwd else abs_path cwd o.change_dir in
      rw (behind-state _ _, report-state _ _)
        (locked_write-IsAccounted now (join_two dir entry) [] false fs v)

  pub tar_with-IsAccounted :
      (clock : ProcClock) (o : TarOptions) (fs : FileSystem)
      → IsAccounted fs
      → IsAccounted (tar_with quote clock now cwd o fs).0
  unfolding tar_with
  tar_with-IsAccounted clock o fs v = elim (Bool-cases (same o.file [])) [
    | inl t ↦ rw t v
    | inr t ↦
        elim (Bool-cases (
          reads_archive quote clock now cwd o.mode
          && not (has_node (resolve fs (abs_path cwd o.file))))) [
            | inl u ↦ rw (t, u) v
            | inr u ↦ rw (t, u) (tar_run-IsAccounted clock o.mode o fs v)
          ]
  ]

  pub gzip_written-IsAccounted :
      (clock : ProcClock) (keep : Bool) (src : Bytes) (o : Outcome)
      → IsAccounted o.0
      → IsAccounted (gzip_written quote clock now cwd keep src o).0
  gzip_written-IsAccounted clock keep src (fs, some e) v = v
  gzip_written-IsAccounted clock true src (fs, none) v = v
  gzip_written-IsAccounted clock false src (fs, none) v = remove-IsAccounted src fs v

  pub gzip_content-IsAccounted :
      (clock : ProcClock) (keep to_stdout decompress : Bool) (t : Bytes) (r : Result Bytes)
      (fs : FileSystem)
      → IsAccounted fs
      → IsAccounted (gzip_content quote clock now cwd keep to_stdout decompress t r fs).0
  gzip_content-IsAccounted clock keep to_stdout decompress t (err e) fs v = v
  gzip_content-IsAccounted clock keep to_stdout decompress t (ok content) fs v =
      elim (Bool-cases (decompress && same (gzip_name decompress t) t)) [
        | inl h ↦ rw h v
        | inr h ↦ rw h (written to_stdout)
      ]
    where
      written :
          (b : Bool)
          → IsAccounted
              (if b
                then (fs, content)
                else gzip_written quote clock now cwd keep
                    (abs_path cwd t)
                    (write_file now (abs_path cwd (gzip_name decompress t)) content fs)).0
      written true = v
      written false =
          gzip_written-IsAccounted clock keep (abs_path cwd t)
            (write_file now (abs_path cwd (gzip_name decompress t)) content fs)
            (locked_write-IsAccounted now (abs_path cwd (gzip_name decompress t)) content false fs
              v)

  pub gzip_one-IsAccounted :
      (clock : ProcClock) (keep to_stdout decompress : Bool) (t : Bytes) (fs : FileSystem)
      → IsAccounted fs
      → IsAccounted (gzip_one quote clock now cwd keep to_stdout decompress t fs).0
  unfolding gzip_one
  gzip_one-IsAccounted clock keep to_stdout decompress t fs v =
      gzip_content-IsAccounted clock keep to_stdout decompress t
        (read_file clock fs (abs_path cwd t)) fs v

  pub gzip_targets-IsAccounted :
      (clock : ProcClock) (keep to_stdout decompress : Bool) (ts : List Bytes) (fs : FileSystem)
      → IsAccounted fs
      → IsAccounted (gzip_targets quote clock now cwd keep to_stdout decompress ts fs).0
  gzip_targets-IsAccounted clock keep to_stdout decompress [] fs v = v
  gzip_targets-IsAccounted clock keep to_stdout decompress (t ∷ ts) fs v =
      for_each-keeps IsAccounted (gzip_one quote clock now cwd keep to_stdout decompress)
        (gzip_one-IsAccounted clock keep to_stdout decompress) (t ∷ ts) fs v
