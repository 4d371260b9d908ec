-- ===== src/Vfs/ChangeBudget.antt =====
-- `Chmod`, `Chown` and `SetAttrs` under the invariant of Vfs/Account.
use honeypot_go.Base.{ℕ, refl, length, ltb, Bytes, Bool-cases, inl, inr}
use honeypot_go.Vfs.Tree.{meta, deref, immutable}
use honeypot_go.Vfs.Walk.{walk_path}
use honeypot_go.Vfs.State.{FileSystem, no_such_file}
use honeypot_go.Vfs.Change.{with_mode, or_old, chmod, chown, set_attrs, and_not_extents}
use honeypot_go.Vfs.Reach.{walk_path-IsAt}
use honeypot_go.Vfs.Account.{IsAccounted, cosmetic-IsAccounted}
use honeypot_go.Vfs.WriteBudget.{found-IsAccounted}

pub chmod-IsAccounted :
    (path perm : Bytes) (fs : FileSystem) → IsAccounted fs → IsAccounted (chmod path perm fs).0
unfolding chmod
chmod-IsAccounted path perm fs v =
    found-IsAccounted fs no_such_file (walk_path fs.root path) _ v λ at w.
      elim (Bool-cases (immutable (meta (deref fs.root at)))) [
        | inl i ↦ rw i v
        | inr i ↦ rw i (elim (Bool-cases (ltb (length perm) 9)) [
          | inl s ↦ rw s v
          | inr s ↦ rw s (
              cosmetic-IsAccounted (λ m. record m { perm = with_mode m.perm perm })
                (record {
                  name = λ m. refl;
                  is_dir = λ m. refl;
                  size = λ m. refl;
                  content = λ m. refl;
                })
                at fs (walk_path-IsAt fs.root path at w) v)
        ])
      ]

pub chown-IsAccounted :
    (path owner group : Bytes) (fs : FileSystem)
    → IsAccounted fs
    → IsAccounted (chown path owner group fs).0
unfolding chown
chown-IsAccounted path owner group fs v =
    found-IsAccounted fs no_such_file (walk_path fs.root path) _ v λ at w.
      elim (Bool-cases (immutable (meta (deref fs.root at)))) [
        | inl i ↦ rw i v
        | inr i ↦ rw i (
            cosmetic-IsAccounted
              (λ m. record m { owner = or_old owner m.owner; group = or_old group m.group })
              (record {
                name = λ m. refl;
                is_dir = λ m. refl;
                size = λ m. refl;
                content = λ m. refl;
              })
              at fs (walk_path-IsAt fs.root path at w) v)
      ]

pub set_attrs-IsAccounted :
    (path : Bytes) (flags : ℕ) (fs : FileSystem)
    → IsAccounted fs
    → IsAccounted (set_attrs path flags fs).0
unfolding set_attrs
set_attrs-IsAccounted path flags fs v =
    found-IsAccounted fs no_such_file (walk_path fs.root path) _ v λ at w.
      cosmetic-IsAccounted (λ m. record m { attrs = and_not_extents flags })
        (record { name = λ m. refl; is_dir = λ m. refl; size = λ m. refl; content = λ m. refl }) at
        fs (walk_path-IsAt fs.root path at w) v
