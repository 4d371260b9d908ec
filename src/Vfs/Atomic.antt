-- ===== src/Vfs/Atomic.antt =====
-- What a failed call leaves behind.
use honeypot_go.Base.{ℕ, ◌≡◌, refl, Option, none, some, Bytes, Bool-cases, inl, inr, arith}
use honeypot_go.Vfs.Tree.{Node, Meta, Ptr, meta, deref, child}
use honeypot_go.Vfs.Walk.{walk_path, locate_node}
use honeypot_go.Vfs.State.{FileSystem, FsError, Outcome, found, no_such_file}
use honeypot_go.Vfs.Write.{copy, copy_into, link, new_file}
use honeypot_go.Vfs.Remove.{
  remove, remove_all, rename, entry_of, remove_node, remove_subtree, rename_entry,
}
use honeypot_go.Vfs.Change.{chmod, chown, set_attrs}
use honeypot_go.Vfs.Ops.{
  Op, write, append, make_dir, unlink_one, unlink_all, move_to, copy_to, set_mode, set_owner,
  touch_at, set_flags, perform,
}

-- A call that returned an error has changed nothing.
abbrev IsAtomic : Outcome → FileSystem → Type 0
IsAtomic r fs = (x : FsError) → r.1 ≡ some x → r.0 ≡ fs

found-IsAtomic {ℓ} :
    {A : Type ℓ} (fs : FileSystem) (err : FsError) (o : Option A) (k : A → Outcome)
    → ((a : A) → IsAtomic (k a) fs)
    → IsAtomic (found fs err o k) fs
found-IsAtomic fs err none k h = λ x e. refl
found-IsAtomic fs err (some a) k h = h a

remove_node-IsAtomic :
    (fs : FileSystem) (dir : Ptr) (name : Bytes) (n : Node)
    → IsAtomic (remove_node dir name n fs) fs
unfolding remove_node
remove_node-IsAtomic fs dir name n x e = ground arith

remove_subtree-IsAtomic :
    (fs : FileSystem) (dir : Ptr) (name : Bytes) (n : Node)
    → IsAtomic (remove_subtree dir name n fs) fs
unfolding remove_subtree
remove_subtree-IsAtomic fs dir name n x e = ground arith

rename_entry-IsAtomic :
    (fs : FileSystem) (src : Ptr) (old : Bytes) (n : Node) (dst : Ptr) (new : Bytes)
    → IsAtomic (rename_entry src old n dst new fs) fs
unfolding rename_entry
rename_entry-IsAtomic fs src old n dst new x e = ground arith

copy_into-IsAtomic :
    (now : ℕ) (path : Bytes) (src : Meta) (fs : FileSystem) (dir : Ptr) (name : Bytes)
    → IsAtomic (copy_into now path src dir name fs) fs
unfolding copy_into
copy_into-IsAtomic now path src fs dir name x e = ground arith

-- The methods that change nothing when they fail: all but the writes and `Mkdir`.
abbrev pub IsAllOrNothing : Op → Type 0
IsAllOrNothing (write path bytes) = ⊥
IsAllOrNothing (append path bytes) = ⊥
IsAllOrNothing (touch_at path) = ⊥
IsAllOrNothing (make_dir path perm owner group) = ⊥
IsAllOrNothing op = Unit {0}

-- A Remove, RemoveAll, Rename, Copy, Chmod, Chown or SetAttrs that returns an error leaves the file
-- system exactly as it was.
pub perform_error-unchanged :
    (now : ℕ) (op : Op) (fs : FileSystem) (x : FsError)
    → IsAllOrNothing op
    → (perform now op fs).1 ≡ some x
    → (perform now op fs).0 ≡ fs
unfolding perform remove remove_all rename copy chmod chown set_attrs
perform_error-unchanged now (unlink_one path) fs x a =
    found-IsAtomic fs no_such_file (entry_of fs.root path) _
      (λ e. remove_node-IsAtomic fs e.0 e.1 e.2) x
perform_error-unchanged now (unlink_all path) fs x a =
    found-IsAtomic fs no_such_file (entry_of fs.root path) _
      (λ e. remove_subtree-IsAtomic fs e.0 e.1 e.2) x
perform_error-unchanged now (move_to old new) fs x a =
    found-IsAtomic fs no_such_file (entry_of fs.root old) _
      (λ e.
        found-IsAtomic fs no_such_file (locate_node fs.root new) _
          (λ dst. rename_entry-IsAtomic fs e.0 e.1 e.2 dst.0 dst.1))
      x
perform_error-unchanged now (copy_to src dst) fs x a =
    found-IsAtomic fs no_such_file (walk_path fs.root src) _
      (λ at. elim (Bool-cases (meta (deref fs.root at)).is_dir) [
        | inl t ↦ rw t (λ y e. refl)
        | inr t ↦ rw t (
            found-IsAtomic fs no_such_file (locate_node fs.root dst) _
              (λ d. copy_into-IsAtomic now src (meta (deref fs.root at)) fs d.0 d.1))
      ])
      x
perform_error-unchanged now (set_mode path perm) fs x a =
    found-IsAtomic fs no_such_file (walk_path fs.root path) _ (λ at y e. ground arith) x
perform_error-unchanged now (set_owner path owner group) fs x a =
    found-IsAtomic fs no_such_file (walk_path fs.root path) _ (λ at y e. ground arith) x
perform_error-unchanged now (set_flags path flags) fs x a =
    found-IsAtomic fs no_such_file (walk_path fs.root path) _ (λ at y e. cc) x
perform_error-unchanged now (write path bytes) fs x a = absurd a
perform_error-unchanged now (append path bytes) fs x a = absurd a
perform_error-unchanged now (touch_at path) fs x a = absurd a
perform_error-unchanged now (make_dir path perm owner group) fs x a = absurd a

-- What a failed write may leave: nothing new, or an empty file that it has linked already.
abbrev pub LeavesEmptyFile : ℕ → FileSystem → FileSystem → Type 0
LeavesEmptyFile now fs fs' =
    (dir : Ptr) × (name : Bytes) × (fs' ≡ link dir name (new_file now name) fs)
    × (child name (deref fs.root dir) ≡ none)
