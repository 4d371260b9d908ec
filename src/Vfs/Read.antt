-- ===== src/Vfs/Read.antt =====
-- `Resolve`, `List`, `ReadDir2`, `ReadFile` and `IsDir` of internal/vfs/vfs.go, and `Attrs` of
-- internal/vfs/attr.go.
use honeypot_go.Base.{
  ℕ, Bool, false, Option, none, some, List, [], ◌∷◌, map, if◌then◌else◌, Bytes, bind, bit_or,
}
use honeypot_go.Base.Order.{sort_by}
use honeypot_go.Vfs.Tree.{Meta, Kids, nil, cons, Ptr, meta, kids, deref, attr_extents}
use honeypot_go.Vfs.Walk.{walk_path}
use honeypot_go.Vfs.State.{FileSystem, FsError, no_such_file, not_a_directory, is_a_directory}
use honeypot_go.Vfs.Proc.{ProcClock, proc_content}

pub record FileInfo : Type 0 where
  pub name : Bytes
  pub is_dir : Bool
  pub perm : Bytes
  pub owner : Bytes
  pub group : Bytes
  pub size : ℕ
  pub mtime : ℕ

-- `node.info`
abbrev pub info : Meta → FileInfo
info m = record {
  name = m.name;
  is_dir = m.is_dir;
  perm = m.perm;
  owner = m.owner;
  group = m.group;
  size = m.size;
  mtime = m.mtime;
}

-- A result, or the `error` of the call.
pub data Result {ℓ} (A : Type ℓ) : Type ℓ where
  ok : A → Result A
  err : FsError → Result A

unfoldable pub resolve : FileSystem → Bytes → Option FileInfo
unfolding walk_path
resolve fs path = bind (walk_path fs.root path) (λ at. some (info (meta (deref fs.root at))))

unfoldable pub infos : Kids → List FileInfo
infos nil = []
infos (cons key n ks) = info (meta n) ∷ infos ks

abbrev pub list_node : Option Ptr → FileSystem → Result (List FileInfo)
list_node none fs = err no_such_file
list_node (some at) fs =
    let n = deref fs.root at in
    if (meta n).is_dir
    then ok (sort_by (λ (i : FileInfo). i.name) (infos (kids n)))
    else err not_a_directory

unfoldable pub list : FileSystem → Bytes → Result (List FileInfo)
unfolding walk_path infos sort_by
list fs path = list_node (walk_path fs.root path) fs

pub record DirEntry : Type 0 where
  pub entry_name : Bytes
  pub entry_is_dir : Bool

abbrev pub entries : Result (List FileInfo) → Result (List DirEntry)
entries (err e) = err e
entries (ok is) =
    ok (map (λ (i : FileInfo). record { entry_name = i.name; entry_is_dir = i.is_dir }) is)

unfoldable pub read_dir : FileSystem → Bytes → Result (List DirEntry)
unfolding list
read_dir fs path = entries (list fs path)

abbrev pub or_content : Option Bytes → Bytes → Bytes
or_content none content = content
or_content (some generated) content = generated

abbrev pub read_node : ProcClock → Bytes → Option Ptr → FileSystem → Result Bytes
read_node clock path none fs = err no_such_file
read_node clock path (some at) fs =
    let n = meta (deref fs.root at) in
    if n.is_dir then err is_a_directory else ok (or_content (proc_content clock path) n.content)

unfoldable pub read_file : ProcClock → FileSystem → Bytes → Result Bytes
unfolding walk_path
read_file clock fs path = read_node clock path (walk_path fs.root path) fs

abbrev pub dir_at : Option Ptr → FileSystem → Bool
dir_at none fs = false
dir_at (some at) fs = (meta (deref fs.root at)).is_dir

unfoldable pub is_dir : FileSystem → Bytes → Bool
unfolding walk_path
is_dir fs path = dir_at (walk_path fs.root path) fs

unfoldable pub attrs : FileSystem → Bytes → Option ℕ
unfolding walk_path
attrs fs path =
    bind (walk_path fs.root path) (λ at. some (bit_or (meta (deref fs.root at)).attrs attr_extents))
