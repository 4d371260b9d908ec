-- ===== src/Vfs/Ops.antt =====
-- The exported methods of `FileSystem` that take its write lock, as one type, and sequences of
-- them. Each method holds the lock from its first line to its last, so concurrent callers are some
-- sequence of whole calls.
use honeypot_go.Base.{ℕ, true, false, List, [], ◌∷◌, Bytes}
use honeypot_go.Vfs.State.{FileSystem, Outcome}
use honeypot_go.Vfs.Write.{write_file, append_file, touch, mkdir, copy}
use honeypot_go.Vfs.Remove.{remove, remove_all, rename}
use honeypot_go.Vfs.Change.{chmod, chown, set_attrs}
use honeypot_go.Vfs.Account.{IsAccounted}
use honeypot_go.Vfs.WriteBudget.{locked_write-IsAccounted, touch-IsAccounted, copy-IsAccounted}
use honeypot_go.Vfs.MkdirBudget.{mkdir-IsAccounted}
use honeypot_go.Vfs.RemoveBudget.{remove-IsAccounted, remove_all-IsAccounted}
use honeypot_go.Vfs.RenameBudget.{IsMoveInside, rename-IsAccounted}
use honeypot_go.Vfs.ChangeBudget.{chmod-IsAccounted, chown-IsAccounted, set_attrs-IsAccounted}

pub data Op : Type 0 where
  write : Bytes → Bytes → Op
  append : Bytes → Bytes → Op
  make_dir : Bytes → Bytes → Bytes → Bytes → Op
  unlink_one : Bytes → Op
  unlink_all : Bytes → Op
  move_to : Bytes → Bytes → Op
  copy_to : Bytes → Bytes → Op
  set_mode : Bytes → Bytes → Op
  set_owner : Bytes → Bytes → Bytes → Op
  touch_at : Bytes → Op
  set_flags : Bytes → ℕ → Op

-- The first argument is the time of the call.
unfoldable pub perform : ℕ → Op → FileSystem → Outcome
perform now (write path bytes) fs = write_file now path bytes fs
perform now (append path bytes) fs = append_file now path bytes fs
perform now (make_dir path perm owner group) fs = mkdir now path perm owner group fs
perform now (unlink_one path) fs = remove path fs
perform now (unlink_all path) fs = remove_all path fs
perform now (move_to old new) fs = rename old new fs
perform now (copy_to src dst) fs = copy now src dst fs
perform now (set_mode path perm) fs = chmod path perm fs
perform now (set_owner path owner group) fs = chown path owner group fs
perform now (touch_at path) fs = touch now path fs
perform now (set_flags path flags) fs = set_attrs path flags fs

unfoldable pub run : List (ℕ × Op) → FileSystem → FileSystem
unfolding perform
run [] fs = fs
run ((now, op) ∷ ops) fs = run ops (perform now op fs).0

-- The operation moves no directory below itself.
abbrev pub IsOutside : Op → FileSystem → Type 0
IsOutside (move_to old new) fs = ¬ IsMoveInside fs.root old new
IsOutside op fs = Unit {0}

abbrev pub AllOutside : List (ℕ × Op) → FileSystem → Type 0
AllOutside [] fs = Unit {0}
AllOutside ((now, op) ∷ ops) fs = IsOutside op fs × AllOutside ops (perform now op fs).0

pub perform-IsAccounted :
    (now : ℕ) (op : Op) (fs : FileSystem)
    → IsOutside op fs
    → IsAccounted fs
    → IsAccounted (perform now op fs).0
unfolding perform
perform-IsAccounted now (write path bytes) fs o v =
    locked_write-IsAccounted now path bytes false fs v
perform-IsAccounted now (append path bytes) fs o v =
    locked_write-IsAccounted now path bytes true fs v
perform-IsAccounted now (make_dir path perm owner group) fs o v =
    mkdir-IsAccounted now path perm owner group fs v
perform-IsAccounted now (unlink_one path) fs o v = remove-IsAccounted path fs v
perform-IsAccounted now (unlink_all path) fs o v = remove_all-IsAccounted path fs v
perform-IsAccounted now (move_to old new) fs o v = rename-IsAccounted old new fs o v
perform-IsAccounted now (copy_to src dst) fs o v = copy-IsAccounted now src dst fs v
perform-IsAccounted now (set_mode path perm) fs o v = chmod-IsAccounted path perm fs v
perform-IsAccounted now (set_owner path owner group) fs o v =
    chown-IsAccounted path owner group fs v
perform-IsAccounted now (touch_at path) fs o v = touch-IsAccounted now path fs v
perform-IsAccounted now (set_flags path flags) fs o v = set_attrs-IsAccounted path flags fs v

-- From a file system whose counters are exact and within the limits, whose root is a directory and
-- whose nodes are sound (keys are the names and distinct, a file has no children, its size is the
-- length of its content and at most 64 MiB), every sequence of the write-locking methods leads to
-- such a file system, failed calls included, if no rename in it moves a directory below itself.
pub run-IsAccounted :
    (ops : List (ℕ × Op)) (fs : FileSystem)
    → AllOutside ops fs
    → IsAccounted fs
    → IsAccounted (run ops fs)
unfolding run
run-IsAccounted [] fs o v = v
run-IsAccounted ((now, op) ∷ ops) fs o v =
    run-IsAccounted ops (perform now op fs).0 o.1 (perform-IsAccounted now op fs o.0 v)
