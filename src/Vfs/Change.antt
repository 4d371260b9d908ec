-- ===== src/Vfs/Change.antt =====
-- `Chmod` and `Chown` of internal/vfs/vfs.go and `SetAttrs` of internal/vfs/attr.go.
use honeypot_go.Base.{
  ℕ, ◌-◌, [], ◌∷◌, if◌then◌else◌, ltb, Bytes, length, same, get_or, drop, bit_and,
}
use honeypot_go.Vfs.Tree.{meta, deref, with_meta, immutable, attr_extents}
use honeypot_go.Vfs.Walk.{walk_path}
use honeypot_go.Vfs.State.{
  FileSystem, Outcome, fail, done, found, edit, no_such_file, not_permitted, invalid_mode,
}

-- `string(n.perm[0]) + perm[1:]`
abbrev pub with_mode : Bytes → Bytes → Bytes
with_mode old perm = get_or old 0 0 ∷ drop 1 perm

unfoldable pub chmod : Bytes → Bytes → FileSystem → Outcome
unfolding walk_path immutable
chmod path perm fs = found fs no_such_file (walk_path fs.root path) λ at.
    if immutable (meta (deref fs.root at))
    then fail fs not_permitted
    else if ltb (length perm) 9
    then fail fs invalid_mode
    else done (edit (with_meta (λ m. record m { perm = with_mode m.perm perm })) at fs)

-- The empty string leaves an owner as it is.
abbrev pub or_old : Bytes → Bytes → Bytes
or_old new old = if same new [] then old else new

unfoldable pub chown : Bytes → Bytes → Bytes → FileSystem → Outcome
unfolding walk_path immutable same
chown path owner group fs = found fs no_such_file (walk_path fs.root path) λ at.
    if immutable (meta (deref fs.root at))
    then fail fs not_permitted
    else done (
        edit
          (with_meta (λ m. record m { owner = or_old owner m.owner; group = or_old group m.group }))
          at fs)

-- `flags &^ attrExtents`
unfoldable pub and_not_extents : ℕ → ℕ
and_not_extents flags = flags - bit_and flags attr_extents

unfoldable pub set_attrs : Bytes → ℕ → FileSystem → Outcome
unfolding walk_path and_not_extents
set_attrs path flags fs =
    found fs no_such_file (walk_path fs.root path)
      λ at. done (edit (with_meta (λ m. record m { attrs = and_not_extents flags })) at fs)
