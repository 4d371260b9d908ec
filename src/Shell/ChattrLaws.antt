-- ===== src/Shell/ChattrLaws.antt =====
-- Whom `chattrCmd` of internal/shell/attr.go obeys, and the counters of the file system behind it.
use honeypot_go.Base.{
  ℕ, ◌≡◌, refl, sym, subst, ◌∙◌, Bool, true, false, ◌||◌, ◌&&◌, not, Option, none, some, List, [],
  ◌∷◌, if◌then◌else◌, Bytes, same, All, either_branch, arith,
}
use honeypot_go.Identity.Defs.{Identity, is_root}
use honeypot_go.Vfs.State.{FileSystem, Outcome}
use honeypot_go.Vfs.Account.{IsAccounted}
use honeypot_go.Vfs.ChangeBudget.{set_attrs-IsAccounted}
use honeypot_go.Vfs.Change.{set_attrs}
use honeypot_go.Vfs.Read.{FileInfo, resolve, attrs}
use honeypot_go.Vfs.Visits.{walk}
use honeypot_go.Shell.Dispatch.{abs_path}
use honeypot_go.Shell.Paths.{clean}
use honeypot_go.Shell.Chattr.{
  ChattrOptions, Shown, no_attr_path, new_flags, changes_locks, or_zero, chattr_set, chattr_node,
  chattr_apply, collect, apply_targets, chattr_file, chattr_files, is_none_of, chattr_with,
  no_options, chattr_options, chattr,
}

-- A node that is another user's, or none.
abbrev pub IsStranger : Identity → Option FileInfo → Type 0
IsStranger user none = Unit {0}
IsStranger user (some fi) = same fi.owner user.name ≡ false

fs_of_if :
    (b : Bool) (x y : Shown) (fs : FileSystem)
    → x.fs ≡ fs
    → y.fs ≡ fs
    → (if b then x else y).fs ≡ fs
fs_of_if b x y fs p q = either_branch (λ (s : Shown). s.fs ≡ fs) b x y p q

module _ (quote : Bytes → Bytes) (user : Identity) (o : ChattrOptions) where
  chattr_node-stranger :
      (display full : Bytes) (fi : Option FileInfo) (old : ℕ) (s : Shown)
      → is_root user ≡ false
      → IsStranger user fi
      → (chattr_node quote user o display full fi old s).fs ≡ s.fs
  chattr_node-stranger display full none old s r h = refl
  chattr_node-stranger display full (some fi) old s r h =
      let b : (not (is_root user)
            && (changes_locks old (new_flags o.ops old) || not (same fi.owner user.name)))
          ≡ true =
        ground (arith, r, h) in
      rw b refl

  chattr_apply-stranger :
      (display full : Bytes) (s : Shown)
      → is_root user ≡ false
      → IsStranger user (resolve s.fs full)
      → (chattr_apply quote user o display full s).fs ≡ s.fs
  unfolding chattr_apply
  chattr_apply-stranger display full s r h =
      fs_of_if (no_attr_path full) _ _ s.fs refl
        (chattr_node-stranger display full (resolve s.fs full) (or_zero (attrs s.fs full)) s r h)

  chattr_file-stranger :
      (name full : Bytes) (fi : Option FileInfo) (s : Shown)
      → is_root user ≡ false
      → o.recursive ≡ false
      → IsStranger user (resolve s.fs full)
      → (chattr_file quote user o name full fi s).fs ≡ s.fs
  unfolding chattr_apply
  chattr_file-stranger name full none s r c h = refl
  chattr_file-stranger name full (some fi) s r c h = rw c (chattr_apply-stranger name full s r h)

  chattr_files-stranger :
      (cwd : Bytes) (names : List Bytes) (s : Shown)
      → is_root user ≡ false
      → o.recursive ≡ false
      → All (λ name. IsStranger user (resolve s.fs (clean (abs_path cwd name)))) names
      → (chattr_files quote user o cwd names s).fs ≡ s.fs
  unfolding chattr_files
  chattr_files-stranger cwd [] s r c h = refl
  chattr_files-stranger cwd (name ∷ names) s r c h =
      let full = clean (abs_path cwd name) in
      let s1 = chattr_file quote user o name full (resolve s.fs full) s in
      let e = chattr_file-stranger name full (resolve s.fs full) s r c h.0 in
      chattr_files-stranger cwd names s1 r c (
        subst
          (λ (fs : FileSystem).
            All (λ n. IsStranger user (resolve fs (clean (abs_path cwd n)))) names)
          (sym e) h.1)
      ∙ e

-- A chattr without -R by a user who is not root and owns none of the files it names leaves the file
-- system as it was, whatever attributes it asks for.
pub chattr-stranger :
    (quote : Bytes → Bytes) (user : Identity) (cwd : Bytes) (args : List Bytes) (fs : FileSystem)
    (o : ChattrOptions)
    → is_root user ≡ false
    → chattr_options args no_options ≡ some o
    → o.recursive ≡ false
    → All (λ name. IsStranger user (resolve fs (clean (abs_path cwd name)))) o.files
    → (chattr quote user cwd args fs).fs ≡ fs
unfolding chattr
chattr-stranger quote user cwd args fs o r e c h = rw e (
    fs_of_if (is_none_of o.ops || is_none_of o.files) _ _ fs refl
      (chattr_files-stranger quote user o cwd o.files _ r c h))

-- The counters.
module _ (quote : Bytes → Bytes) (user : Identity) (o : ChattrOptions) where
  abbrev IsKept : Shown → Type 0
  IsKept s = IsAccounted s.fs

  chattr_set-IsAccounted :
      (display full : Bytes) (r : Outcome) (s : Shown)
      → IsAccounted r.0
      → IsKept (chattr_set quote user o display full r s)
  chattr_set-IsAccounted display full (fs, some e) s v = v
  chattr_set-IsAccounted display full (fs, none) s v = either_branch IsKept o.verbose _ _ v v

  chattr_node-IsAccounted :
      (display full : Bytes) (fi : Option FileInfo) (old : ℕ) (s : Shown)
      → IsKept s
      → IsKept (chattr_node quote user o display full fi old s)
  chattr_node-IsAccounted display full none old s v = v
  chattr_node-IsAccounted display full (some fi) old s v =
      let new = new_flags o.ops old in
      either_branch IsKept
        (not (is_root user) && (changes_locks old new || not (same fi.owner user.name))) _ _ v
        (chattr_set-IsAccounted display full (set_attrs full new s.fs) s
          (set_attrs-IsAccounted full new s.fs v))

  chattr_apply-IsAccounted :
      (display full : Bytes) (s : Shown)
      → IsKept s
      → IsKept (chattr_apply quote user o display full s)
  unfolding chattr_apply
  chattr_apply-IsAccounted display full s v =
      either_branch IsKept (no_attr_path full) _ _ v
        (chattr_node-IsAccounted display full (resolve s.fs full) (or_zero (attrs s.fs full)) s v)

  apply_targets-IsAccounted :
      (ts : List (Bytes × Bytes)) (s : Shown) → IsKept s → IsKept (apply_targets quote user o ts s)
  unfolding apply_targets
  apply_targets-IsAccounted [] s v = v
  apply_targets-IsAccounted ((display, full) ∷ ts) s v =
      apply_targets-IsAccounted ts (chattr_apply quote user o display full s)
        (chattr_apply-IsAccounted display full s v)

  chattr_file-IsAccounted :
      (name full : Bytes) (fi : Option FileInfo) (s : Shown)
      → IsKept s
      → IsKept (chattr_file quote user o name full fi s)
  chattr_file-IsAccounted name full none s v = v
  chattr_file-IsAccounted name full (some fi) s v =
      let v1 = chattr_apply-IsAccounted name full s v in
      let s1 = chattr_apply quote user o name full s in
      either_branch IsKept (o.recursive && fi.is_dir) _ _
        (apply_targets-IsAccounted (walk (collect quote user o name full) full s1.fs []).0 s1 v1) v1

  pub chattr_files-IsAccounted :
      (cwd : Bytes) (names : List Bytes) (s : Shown)
      → IsKept s
      → IsKept (chattr_files quote user o cwd names s)
  unfolding chattr_files
  chattr_files-IsAccounted cwd [] s v = v
  chattr_files-IsAccounted cwd (name ∷ names) s v =
      let full = clean (abs_path cwd name) in
      chattr_files-IsAccounted cwd names (chattr_file quote user o name full (resolve s.fs full) s)
        (chattr_file-IsAccounted name full (resolve s.fs full) s v)

pub chattr_with-IsAccounted :
    (quote : Bytes → Bytes) (user : Identity) (cwd : Bytes) (o : Option ChattrOptions)
    (fs : FileSystem)
    → IsAccounted fs
    → IsAccounted (chattr_with quote user cwd o fs).fs
chattr_with-IsAccounted quote user cwd none fs v = v
chattr_with-IsAccounted quote user cwd (some o) fs v =
    either_branch (λ (s : Shown). IsAccounted s.fs) (is_none_of o.ops || is_none_of o.files) _ _ v
      (chattr_files-IsAccounted quote user o cwd o.files _ v)
