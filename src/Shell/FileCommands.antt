-- ===== src/Shell/FileCommands.antt =====
-- The commands of Shell/Files as one type, what they keep, and what rm leaves.
use honeypot_go.Base.{ℕ, Bool, false, List, [], ◌∷◌, Bytes, any_of}
use honeypot_go.Identity.Defs.{Identity}
use honeypot_go.Vfs.State.{FileSystem}
use honeypot_go.Vfs.Account.{IsAccounted}
use honeypot_go.Shell.Modes.{chmod_perm}
use honeypot_go.Shell.Files.{
  Said, targets_of, touch_one, touch_cmd, mkdir_cmd, rm_cmd, last_arg, before_last, mv_cmd,
  is_copy_recursive, cp_cmd, chmod_cmd, before_colon, behind_colon, chown_one, chown_cmd,
}
use honeypot_go.Vfs.Proc.{ProcClock}
use honeypot_go.Shell.Archives.{no_mode, tar_options, first_operand, tar, gzip}
use honeypot_go.Shell.FileBudget.{
  for_each-keeps, touch_one-IsAccounted, mkdir_one-IsAccounted, rm_one-IsAccounted, mv-IsAccounted,
  cp-IsAccounted, chmod_one-IsAccounted, chown_one-IsAccounted, tar_with-IsAccounted,
  gzip_targets-IsAccounted, AllMovesOutside,
}

pub data FileCommand : Type 0 where
  touch_files rm_files mv_files cp_files chmod_files chown_files : FileCommand
  mkdir_files : Identity → FileCommand
  tar_files : FileCommand
  gzip_files : Bool → FileCommand

unfoldable pub run_file_command :
    (Bytes → Bytes) → ProcClock → ℕ → Bytes → FileCommand → List Bytes → FileSystem → Said
unfolding touch_cmd rm_cmd mv_cmd cp_cmd chmod_cmd chown_cmd mkdir_cmd tar gzip
run_file_command quote clock now cwd touch_files = touch_cmd quote now cwd
run_file_command quote clock now cwd rm_files = rm_cmd quote now cwd
run_file_command quote clock now cwd mv_files = mv_cmd quote now cwd
run_file_command quote clock now cwd cp_files = cp_cmd quote now cwd
run_file_command quote clock now cwd chmod_files = chmod_cmd quote now cwd
run_file_command quote clock now cwd chown_files = chown_cmd quote now cwd
run_file_command quote clock now cwd (mkdir_files user) = mkdir_cmd quote now cwd user
run_file_command quote clock now cwd tar_files = tar quote clock now cwd
run_file_command quote clock now cwd (gzip_files decompress) = gzip quote clock now cwd decompress

abbrev pub StaysOutside :
    (Bytes → Bytes) → ℕ → Bytes → FileCommand → List Bytes → FileSystem → Type 0
StaysOutside quote now cwd mv_files (a ∷ b ∷ rest) fs =
    AllMovesOutside quote now cwd (last_arg b rest) (targets_of (before_last a (b ∷ rest))) fs
StaysOutside quote now cwd command args fs = Unit {0}

module _ (quote : Bytes → Bytes) (now : ℕ) (cwd : Bytes) where
  -- From a file system whose counters are exact and within the limits, touch, mkdir, rm, mv, cp,
  -- chmod, chown, tar, gzip and gunzip lead to such a file system, whatever their arguments and the
  -- errors of the calls, if no move of mv takes a directory below itself.
  pub run_file_command-IsAccounted :
      (clock : ProcClock) (command : FileCommand) (args : List Bytes) (fs : FileSystem)
      → StaysOutside quote now cwd command args fs
      → IsAccounted fs
      → IsAccounted (run_file_command quote clock now cwd command args fs).0
  unfolding run_file_command tar gzip touch_cmd rm_cmd mv_cmd cp_cmd chmod_cmd chown_cmd mkdir_cmd
  run_file_command-IsAccounted clock touch_files args fs o v =
      for_each-keeps IsAccounted (touch_one quote now cwd) (touch_one-IsAccounted quote now cwd)
        (targets_of args) fs v
  run_file_command-IsAccounted clock rm_files args fs o v =
      for_each-keeps IsAccounted _ (rm_one-IsAccounted quote now cwd _ _) (targets_of args) fs v
  run_file_command-IsAccounted clock mv_files [] fs o v = v
  run_file_command-IsAccounted clock mv_files (a ∷ []) fs o v = v
  run_file_command-IsAccounted clock mv_files (a ∷ b ∷ rest) fs o v =
      mv-IsAccounted quote now cwd (last_arg b rest) (targets_of (before_last a (b ∷ rest))) fs o v
  run_file_command-IsAccounted clock cp_files args fs o v =
      cp-IsAccounted quote now cwd (any_of is_copy_recursive args) (targets_of args) fs v
  run_file_command-IsAccounted clock chmod_files [] fs o v = v
  run_file_command-IsAccounted clock chmod_files (a ∷ []) fs o v = v
  run_file_command-IsAccounted clock chmod_files (a ∷ b ∷ rest) fs o v =
      for_each-keeps IsAccounted _ (chmod_one-IsAccounted quote now cwd a (chmod_perm a))
        (targets_of (b ∷ rest)) fs v
  run_file_command-IsAccounted clock chown_files [] fs o v = v
  run_file_command-IsAccounted clock chown_files (a ∷ []) fs o v = v
  run_file_command-IsAccounted clock chown_files (a ∷ b ∷ rest) fs o v =
      for_each-keeps IsAccounted (chown_one quote now cwd (before_colon a) (behind_colon a))
        (chown_one-IsAccounted quote now cwd (before_colon a) (behind_colon a))
        (targets_of (b ∷ rest)) fs v
  run_file_command-IsAccounted clock (mkdir_files user) args fs o v =
      for_each-keeps IsAccounted _ (mkdir_one-IsAccounted quote now cwd user _) (targets_of args) fs
        v
  run_file_command-IsAccounted clock tar_files args fs o v =
      let options =
        tar_options args
          (record { mode = no_mode; file = []; change_dir = []; verbose = false; operands = [] }) in
      tar_with-IsAccounted quote now cwd clock (first_operand options.operands options) fs v
  run_file_command-IsAccounted clock (gzip_files decompress) args fs o v =
      gzip_targets-IsAccounted quote now cwd clock _ _ _ (targets_of args) fs v
