-- ===== src/Shell/RmProtected.antt =====
-- `rmCmd` of internal/shell/executor.go on files that carry the attribute i or a.
use honeypot_go.Base.{
  ap, ℕ, ◌≡◌, refl, Bool, true, false, some, List, [], ◌∷◌, ◌++◌, Bytes, codes, Bool-cases, All,
  inl, inr, any_of, contains_str,
}
use honeypot_go.Vfs.Tree.{Node, node, meta, Ptr, deref, protected, subtree_protected}
use honeypot_go.Vfs.State.{FileSystem, fail, not_permitted}
use honeypot_go.Vfs.Messages.{error_text}
use honeypot_go.Vfs.Remove.{entry_of, remove, remove_all, remove_node, remove_subtree}
use honeypot_go.Shell.Dispatch.{abs_path}
use honeypot_go.Shell.Files.{for_each, targets_of, report, rm_text, is_recursive, rm_one, rm_cmd}

-- The path names a node that carries one of the two attributes.
abbrev pub IsProtectedAt : FileSystem → Bytes → Type 0
IsProtectedAt fs path =
    (dir : Ptr) × ((name : Bytes) × ((n : Node) × (entry_of fs.root path ≡ some (dir, name, n))
        × (protected (meta n) ≡ true)))

remove-protected :
    (fs : FileSystem) (path : Bytes)
    → IsProtectedAt fs path
    → remove path fs ≡ fail fs not_permitted
unfolding remove remove_node
remove-protected fs path (dir, (name, (n, e, p))) = rw (e, p) refl

subtree_protected_self : (n : Node) → protected (meta n) ≡ true → subtree_protected n ≡ true
unfolding subtree_protected
subtree_protected_self (node m ks) p = rw p refl

remove_all-protected :
    (fs : FileSystem) (path : Bytes)
    → IsProtectedAt fs path
    → remove_all path fs ≡ fail fs not_permitted
unfolding remove_all remove_subtree
remove_all-protected fs path (dir, (name, (n, e, p))) =
    elim (Bool-cases (protected (meta (deref fs.root dir)))) [
      | inl t ↦ rw (e, t) refl
      | inr t ↦ rw (e, t, subtree_protected_self n p) refl
    ]

module _ (quote : Bytes → Bytes) (now : ℕ) (cwd : Bytes) where
  abbrev pub refusal : Bytes → Bytes
  refusal t = codes "rm: cannot remove '" ++ (t ++ codes "': Operation not permitted\n")

  rm_one-protected :
      (recursive force : Bool) (t : Bytes) (fs : FileSystem)
      → IsProtectedAt fs (abs_path cwd t)
      → rm_one quote now cwd recursive force t fs ≡ (fs, refusal t)
  unfolding rm_one error_text
  rm_one-protected true true t fs h =
      ap (report (rm_text quote now cwd true t)) (remove_all-protected fs (abs_path cwd t) h)
  rm_one-protected true false t fs h =
      ap (report (rm_text quote now cwd false t)) (remove_all-protected fs (abs_path cwd t) h)
  rm_one-protected false true t fs h =
      ap (report (rm_text quote now cwd true t)) (remove-protected fs (abs_path cwd t) h)
  rm_one-protected false false t fs h =
      ap (report (rm_text quote now cwd false t)) (remove-protected fs (abs_path cwd t) h)

  abbrev pub refusals : List Bytes → Bytes
  refusals [] = []
  refusals (t ∷ ts) = refusal t ++ refusals ts

  rm-protected :
      (recursive force : Bool) (ts : List Bytes) (fs : FileSystem)
      → All (λ t. IsProtectedAt fs (abs_path cwd t)) ts
      → for_each (rm_one quote now cwd recursive force) ts fs ≡ (fs, refusals ts)
  unfolding for_each
  rm-protected recursive force [] fs h = refl
  rm-protected recursive force (t ∷ ts) fs h =
      rw (rm_one-protected recursive force t fs h.0, rm-protected recursive force ts fs h.1) refl

  -- If each target of rm carries the attribute i or a, rm leaves the file system as it was, and
  -- prints "Operation not permitted" for each target, whatever its options, -f and -r included.
  pub rm_cmd-protected :
      (args : List Bytes) (fs : FileSystem)
      → All (λ t. IsProtectedAt fs (abs_path cwd t)) (targets_of args)
      → rm_cmd quote now cwd args fs ≡ (fs, refusals (targets_of args))
  unfolding rm_cmd
  rm_cmd-protected args fs h =
      rm-protected (any_of is_recursive args) (contains_str args (codes "-f")) (targets_of args) fs
        h
