-- ===== src/Vfs/Remove.antt =====
-- `Remove`, `RemoveAll` and `Rename` of internal/vfs/vfs.go.
use honeypot_go.Base.{
  ◌-◌, Bool, true, false, ◌&&◌, ◌||◌, not, Option, none, some, [], ◌∷◌, if◌then◌else◌, Bytes,
  length, same, bind,
}
use honeypot_go.Vfs.Tree.{
  Node, Kids, nil, cons, Ptr, meta, kids, child, deref, insert, delete, with_meta, with_kids,
  immutable, protected, subtree_protected, subtree_nodes, subtree_bytes, perm_writable,
}
use honeypot_go.Vfs.Walk.{locate_node}
use honeypot_go.Vfs.State.{
  FileSystem, Outcome, fail, done, found, edit, no_such_file, not_permitted, permission_denied,
  read_only_directory, directory_not_empty, cannot_overwrite,
}

abbrev pub has_kids : Kids → Bool
has_kids nil = false
has_kids (cons key n ks) = true

abbrev pub unlink : Ptr → Bytes → FileSystem → FileSystem
unlink dir name fs = edit (with_kids (delete name)) dir fs

-- `Remove` once the entry is found.
unfoldable pub remove_node : Ptr → Bytes → Node → FileSystem → Outcome
unfolding protected perm_writable
remove_node dir name n fs =
    let d = meta (deref fs.root dir) in
    if protected (meta n) || protected d
    then fail fs not_permitted
    else if (meta n).is_dir && has_kids (kids n)
    then fail fs directory_not_empty
    else if not (perm_writable d.perm)
    then fail fs (read_only_directory d.name)
    else let fs' = unlink dir name fs in
      done (record fs' {
        total_bytes =
            if (meta n).is_dir then fs.total_bytes else fs.total_bytes - length (meta n).content;
        total_nodes = fs.total_nodes - 1;
      })

-- `RemoveAll` once the entry is found.
unfoldable pub remove_subtree : Ptr → Bytes → Node → FileSystem → Outcome
unfolding protected subtree_protected perm_writable subtree_nodes subtree_bytes
remove_subtree dir name n fs =
    let d = meta (deref fs.root dir) in
    if protected d || subtree_protected n
    then fail fs not_permitted
    else if not (perm_writable d.perm)
    then fail fs (read_only_directory d.name)
    else let fs' = unlink dir name fs in
      done (record fs' {
        total_bytes = fs.total_bytes - subtree_bytes n;
        total_nodes = fs.total_nodes - subtree_nodes n;
      })

-- The head that `Remove`, `RemoveAll` and `Rename` share: the entry that the path names.
unfoldable pub entry_of : Node → Bytes → Option (Ptr × Bytes × Node)
unfolding locate_node
entry_of root path =
    bind (locate_node root path)
      (λ at. bind (child at.1 (deref root at.0)) (λ n. some (at.0, at.1, n)))

unfoldable pub remove : Bytes → FileSystem → Outcome
unfolding entry_of remove_node
remove path fs = found fs no_such_file (entry_of fs.root path) λ e. remove_node e.0 e.1 e.2 fs

unfoldable pub remove_all : Bytes → FileSystem → Outcome
unfolding entry_of remove_subtree
remove_all path fs =
    found fs no_such_file (entry_of fs.root path) λ e. remove_subtree e.0 e.1 e.2 fs

-- For statements about moves: is the node that the second pointer names in the subtree that the first
-- one names?
unfoldable pub under : Ptr → Ptr → Bool
unfolding same
under [] at = true
under (p ∷ ps) [] = false
under (p ∷ ps) (q ∷ qs) = same p q && under ps qs

-- The two map operations of `Rename`, and the new name of the node between them.
unfoldable pub move : Ptr → Bytes → Node → Ptr → Bytes → FileSystem → FileSystem
move src_dir src_name n dst_dir dst_name fs =
    let moved = with_meta (λ m. record m { name = dst_name }) n in
    edit (with_kids (insert dst_name moved)) dst_dir (unlink src_dir src_name fs)

-- `Rename` from the lookup of the target's name.
abbrev pub rename_new : Ptr → Bytes → Node → Ptr → Bytes → Option Node → FileSystem → Outcome
rename_new src_dir src_name n dst_dir dst_name (some old) fs = fail fs cannot_overwrite
rename_new src_dir src_name n dst_dir dst_name none fs =
    done (move src_dir src_name n dst_dir dst_name fs)

-- `Rename` once both ends are found.
unfoldable pub rename_entry : Ptr → Bytes → Node → Ptr → Bytes → FileSystem → Outcome
unfolding protected immutable perm_writable move
rename_entry src_dir src_name n dst_dir dst_name fs =
    let s = meta (deref fs.root src_dir) in
    let d = meta (deref fs.root dst_dir) in
    if protected (meta n) || protected s || immutable d
    then fail fs not_permitted
    else if not (perm_writable s.perm) || not (perm_writable d.perm)
    then fail fs permission_denied
    else rename_new src_dir src_name n dst_dir dst_name (child dst_name (deref fs.root dst_dir)) fs

unfoldable pub rename : Bytes → Bytes → FileSystem → Outcome
unfolding entry_of locate_node rename_entry
rename old_path new_path fs = found fs no_such_file (entry_of fs.root old_path) λ e.
    found fs no_such_file (locate_node fs.root new_path)
      λ dst. rename_entry e.0 e.1 e.2 dst.0 dst.1 fs
