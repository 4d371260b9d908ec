-- ===== src/Vfs/Write.antt =====
-- `WriteFile`, `AppendFile`, `lockedWrite`, `Touch`, `Mkdir` and `Copy` of internal/vfs/vfs.go.
-- `now` is what `time.Now()` returns inside the call.
use honeypot_go.Base.{
  ℕ, ◌+◌, ◌-◌, Bool, true, false, ◌&&◌, ◌||◌, not, Option, none, some, List, [], ◌∷◌, ◌++◌,
  if◌then◌else◌, ltb, leb, Bytes, codes, length, split_last, ◌⊎◌, inl, inr,
}
use honeypot_go.Vfs.Tree.{
  Meta, Node, node, nil, Ptr, meta, child, deref, insert, with_meta, with_kids, immutable,
  append_only, perm_writable,
}
use honeypot_go.Vfs.Walk.{
  Cursor, start, pop, push, is_here, is_up, is_dots, split_path, walk_path, enter_dirs, locate_node,
}
use honeypot_go.Vfs.State.{
  FileSystem, FsError, Outcome, fail, done, found, edit, max_total_bytes, max_total_nodes,
  max_file_size, no_such_file, no_such_directory, is_a_directory, invalid_path, not_permitted,
  read_only_directory, read_only_file, directory_exists, cannot_overwrite_file, exceeds_max_size,
  node_limit_reached, capacity_limit_reached,
}

-- The empty file that `lockedWrite` links before it looks at the size.
abbrev pub new_file : ℕ → Bytes → Node
new_file now name =
    let m : Meta = record {
      name = name;
      is_dir = false;
      perm = codes "-rw-r--r--";
      owner = codes "root";
      group = codes "root";
      size = 0;
      mtime = now;
      content = [];
      attrs = 0;
    } in
    node m nil

abbrev pub new_dir : ℕ → Bytes → Node
new_dir now name =
    let m : Meta = record {
      name = name;
      is_dir = true;
      perm = codes "drwxr-xr-x";
      owner = codes "root";
      group = codes "root";
      size = 0;
      mtime = now;
      content = [];
      attrs = 0;
    } in
    node m nil

-- `dir.children[name] = n; fs.totalNodes++`
abbrev pub link : Ptr → Bytes → Node → FileSystem → FileSystem
link dir name n fs =
    let fs' = edit (with_kids (insert name n)) dir fs in
    record fs' { total_nodes = fs'.total_nodes + 1 }

abbrev pub written : Bytes → Bytes → Bool → Bytes
written old bytes append_mode = if append_mode then old ++ bytes else bytes

-- The end of `lockedWrite`: limits, then the content of the file `at`. `delta` of the source may be
-- negative; `new ≤ old` is `delta ≤ 0` here.
unfoldable pub write_content : ℕ → Bytes → Ptr → Bytes → Bool → FileSystem → Outcome
write_content now path at bytes append_mode fs =
    let old = length (meta (deref fs.root at)).content in
    let new = if append_mode then length bytes + old else length bytes in
    if ltb max_file_size new
    then fail fs (exceeds_max_size path)
    else if ltb old new && ltb max_total_bytes (fs.total_bytes + new - old)
    then fail fs capacity_limit_reached
    else let fs' =
        edit
          (with_meta (λ m. record m {
            content = written m.content bytes append_mode;
            size = length (written m.content bytes append_mode);
            mtime = now;
          }))
          at fs in
      done (record fs' { total_bytes = fs.total_bytes + new - old })

-- `lockedWrite` from the lookup of the last segment.
unfoldable pub write_entry :
    ℕ → Bytes → Ptr → Bytes → Bytes → Bool → Option Node → FileSystem → Outcome
unfolding immutable append_only perm_writable
write_entry now path dir name bytes append_mode none fs =
    if immutable (meta (deref fs.root dir))
    then fail fs not_permitted
    else if leb max_total_nodes fs.total_nodes
    then fail fs node_limit_reached
    else write_content now path (dir ++ name ∷ []) bytes append_mode
        (link dir name (new_file now name) fs)
write_entry now path dir name bytes append_mode (some n) fs =
    if (meta n).is_dir
    then fail fs is_a_directory
    else if immutable (meta n) || (append_only (meta n) && not append_mode)
    then fail fs not_permitted
    else if not (perm_writable (meta n).perm)
    then fail fs (read_only_file path)
    else write_content now path (dir ++ name ∷ []) bytes append_mode fs

unfoldable pub write_in : ℕ → Bytes → Ptr → Bytes → Bytes → Bool → FileSystem → Outcome
unfolding is_dots perm_writable
write_in now path dir name bytes append_mode fs =
    let d = deref fs.root dir in
    if not (perm_writable (meta d).perm)
    then fail fs (read_only_directory (meta d).name)
    else if is_dots name
    then fail fs is_a_directory
    else write_entry now path dir name bytes append_mode (child name d) fs

unfoldable pub locked_write : ℕ → Bytes → Bytes → Bool → FileSystem → Outcome
unfolding split_path enter_dirs
locked_write now path bytes append_mode fs =
    found fs invalid_path (split_last (split_path path)) λ last.
      found fs no_such_directory (enter_dirs fs.root last.0)
        λ dir. write_in now path dir last.1 bytes append_mode fs

abbrev pub write_file : ℕ → Bytes → Bytes → FileSystem → Outcome
write_file now path bytes fs = locked_write now path bytes false fs

abbrev pub append_file : ℕ → Bytes → Bytes → FileSystem → Outcome
append_file now path bytes fs = locked_write now path bytes true fs

abbrev pub touch_node : ℕ → Bytes → Option Ptr → FileSystem → Outcome
touch_node now path none fs = locked_write now path [] false fs
touch_node now path (some at) fs =
    let n = meta (deref fs.root at) in
    if n.is_dir
    then fail fs is_a_directory
    else if immutable n
    then fail fs not_permitted
    else done (edit (with_meta (λ m. record m { mtime = now })) at fs)

unfoldable pub touch : ℕ → Bytes → FileSystem → Outcome
unfolding walk_path immutable
touch now path fs = touch_node now path (walk_path fs.root path) fs

-- The state of `Mkdir` between two segments, or the error that ends it.
abbrev pub Progress : Type 0
Progress = FileSystem × (Cursor ⊎ FsError)

abbrev pub and_then : Progress → (Cursor → FileSystem → Progress) → Progress
and_then (fs, inl c) f = f c fs
and_then (fs, inr e) f = (fs, inr e)

-- A segment that exists. The source moves to it and pushes it, not its parent, on the stack.
abbrev pub mkdir_old : Bytes → Node → Cursor → FileSystem → Progress
mkdir_old seg n c fs =
    let dir = c.dir ++ seg ∷ [] in
    if (meta n).is_dir
    then (fs, inl (record { dir = dir; stack = dir ∷ c.stack }))
    else (fs, inr (directory_exists seg))

abbrev pub mkdir_new : ℕ → Bytes → Cursor → FileSystem → Progress
mkdir_new now seg c fs =
    let d = meta (deref fs.root c.dir) in
    if immutable d
    then (fs, inr not_permitted)
    else if not (perm_writable d.perm)
    then (fs, inr (read_only_directory d.name))
    else if leb max_total_nodes fs.total_nodes
    then (fs, inr node_limit_reached)
    else (link c.dir seg (new_dir now seg) fs, inl (push seg c))

abbrev pub mkdir_entry : ℕ → Bytes → Cursor → Option Node → FileSystem → Progress
mkdir_entry now seg c none fs = mkdir_new now seg c fs
mkdir_entry now seg c (some n) fs = mkdir_old seg n c fs

-- One segment of the loop of `Mkdir`.
unfoldable pub mkdir_step : ℕ → Bytes → Cursor → FileSystem → Progress
unfolding is_here is_up immutable perm_writable
mkdir_step now seg c fs =
    if is_here seg
    then (fs, inl c)
    else if is_up seg
    then (fs, inl (pop c.stack c.dir))
    else mkdir_entry now seg c (child seg (deref fs.root c.dir)) fs

unfoldable pub mkdir_loop : ℕ → List Bytes → Cursor → FileSystem → Progress
unfolding mkdir_step
mkdir_loop now [] c fs = (fs, inl c)
mkdir_loop now (seg ∷ segs) c fs = and_then (mkdir_step now seg c fs) (mkdir_loop now segs)

-- The directory that the loop ends in, old or new, is given the mode and the owners.
abbrev pub mkdir_end : Bytes → Bytes → Bytes → Progress → Outcome
mkdir_end perm owner group (fs, inl c) =
    done (edit (with_meta (λ m. record m { perm = perm; owner = owner; group = group })) c.dir fs)
mkdir_end perm owner group (fs, inr e) = fail fs e

abbrev pub mkdir_parts : ℕ → List Bytes → Bytes → Bytes → Bytes → FileSystem → Outcome
mkdir_parts now [] perm owner group fs = fail fs invalid_path
mkdir_parts now (seg ∷ segs) perm owner group fs =
    mkdir_end perm owner group (mkdir_loop now (seg ∷ segs) start fs)

unfoldable pub mkdir : ℕ → Bytes → Bytes → Bytes → Bytes → FileSystem → Outcome
unfolding split_path mkdir_loop
mkdir now path perm owner group fs = mkdir_parts now (split_path path) perm owner group fs

-- The node that `Copy` links; `src.content` is copied and the attributes are not.
abbrev pub copied : ℕ → Bytes → Meta → Node
copied now name src =
    let m : Meta = record {
      name = name;
      is_dir = false;
      perm = src.perm;
      owner = src.owner;
      group = src.group;
      size = src.size;
      mtime = now;
      content = src.content;
      attrs = 0;
    } in
    node m nil

-- `Copy` from the lookup of the target's name.
abbrev pub copy_new : ℕ → Bytes → Meta → Ptr → Bytes → Option Node → FileSystem → Outcome
copy_new now src_path src dir name (some old) fs = fail fs cannot_overwrite_file
copy_new now src_path src dir name none fs =
    if ltb max_file_size src.size
    then fail fs (exceeds_max_size src_path)
    else if leb max_total_nodes fs.total_nodes
    then fail fs node_limit_reached
    else if ltb max_total_bytes (fs.total_bytes + src.size)
    then fail fs capacity_limit_reached
    else let fs' = link dir name (copied now name src) fs in
      done (record fs' { total_bytes = fs'.total_bytes + src.size })

-- `Copy` once the source and the parent of the target are found.
unfoldable pub copy_into : ℕ → Bytes → Meta → Ptr → Bytes → FileSystem → Outcome
unfolding immutable perm_writable
copy_into now src_path src dir name fs =
    let d = meta (deref fs.root dir) in
    if immutable d
    then fail fs not_permitted
    else if not (perm_writable d.perm)
    then fail fs (read_only_directory d.name)
    else copy_new now src_path src dir name (child name (deref fs.root dir)) fs

unfoldable pub copy : ℕ → Bytes → Bytes → FileSystem → Outcome
unfolding walk_path locate_node copy_into
copy now src_path dst_path fs = found fs no_such_file (walk_path fs.root src_path) λ at.
    let src = meta (deref fs.root at) in
    if src.is_dir
    then fail fs no_such_file
    else found fs no_such_file (locate_node fs.root dst_path)
        λ dst. copy_into now src_path src dst.0 dst.1 fs
