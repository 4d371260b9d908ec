-- ===== src/Vfs/Tree.antt =====
-- `node` of internal/vfs/vfs.go, with `subtreeStats`, `immutable`, `protected` and
-- `subtreeProtected`. A reachable node is named by the map keys that lead to it from the root: a
-- `*node` of the source is such a list of keys, a read through it is `deref`, and a write through
-- it is `alter`. A children map is an association list in order of insertion, keyed once.
use honeypot_go.Base.{
  ℕ, ◌+◌, Bool, true, false, ◌||◌, Option, none, some, List, [], ◌∷◌, if◌then◌else◌, ltb, ◌==◌, not,
  Bytes, same, length, get_or, bit_and, bind,
}

-- The fields of a node but its children. `mtime` counts nanoseconds.
pub record Meta : Type 0 where
  pub name : Bytes
  pub is_dir : Bool
  pub perm : Bytes
  pub owner : Bytes
  pub group : Bytes
  pub size : ℕ
  pub mtime : ℕ
  pub content : Bytes
  pub attrs : ℕ  -- uint32

mutual
  pub data Node : Type 0 where
    node : Meta → Kids → Node

  pub data Kids : Type 0 where
    nil : Kids
    cons : Bytes → Node → Kids → Kids

abbrev pub meta : Node → Meta
meta (node m ks) = m

abbrev pub kids : Node → Kids
kids (node m ks) = ks

-- `children[name]`
unfoldable pub lookup : Bytes → Kids → Option Node
lookup name nil = none
lookup name (cons key n ks) = if same key name then some n else lookup name ks

abbrev pub child : Bytes → Node → Option Node
child name n = lookup name (kids n)

-- `children[name] = new`
unfoldable pub insert : Bytes → Node → Kids → Kids
insert name new nil = cons name new nil
insert name new (cons key n ks) =
    if same key name then cons key new ks else cons key n (insert name new ks)

-- `delete(children, name)`
unfoldable pub delete : Bytes → Kids → Kids
delete name nil = nil
delete name (cons key n ks) = if same key name then ks else cons key n (delete name ks)

-- A write through the pointer that `children[name]` holds.
unfoldable pub map_kid : Bytes → (Node → Node) → Kids → Kids
map_kid name f nil = nil
map_kid name f (cons key n ks) =
    if same key name then cons key (f n) ks else cons key n (map_kid name f ks)

abbrev pub Ptr : Type 0
Ptr = List Bytes

unfoldable pub find : Ptr → Node → Option Node
find [] n = some n
find (p ∷ ps) n = bind (child p n) (find ps)

abbrev pub or_node : Option Node → Node → Node
or_node none d = d
or_node (some n) d = n

-- The node behind a pointer. Every pointer that the operations form is reachable.
abbrev pub deref : Node → Ptr → Node
deref root at = or_node (find at root) root

unfoldable pub alter : (Node → Node) → Ptr → Node → Node
alter f [] n = f n
alter f (p ∷ ps) n = node (meta n) (map_kid p (alter f ps) (kids n))

abbrev pub with_meta : (Meta → Meta) → Node → Node
with_meta f n = node (f (meta n)) (kids n)

abbrev pub with_kids : (Kids → Kids) → Node → Node
with_kids f n = node (meta n) (f (kids n))

-- `subtreeStats`: its two results, each by a recursion of its own.
unfoldable mutual
  pub subtree_nodes : Node → ℕ
  subtree_nodes (node m ks) = 1 + kids_nodes ks

  pub kids_nodes : Kids → ℕ
  kids_nodes nil = 0
  kids_nodes (cons key n ks) = subtree_nodes n + kids_nodes ks

abbrev pub own_bytes : Meta → ℕ
own_bytes m = if m.is_dir then 0 else length m.content

unfoldable mutual
  pub subtree_bytes : Node → ℕ
  subtree_bytes (node m ks) = own_bytes m + kids_bytes ks

  pub kids_bytes : Kids → ℕ
  kids_bytes nil = 0
  kids_bytes (cons key n ks) = subtree_bytes n + kids_bytes ks

-- AttrImmutable, AttrAppendOnly and attrExtents of internal/vfs/attr.go
abbrev pub attr_immutable : ℕ
attr_immutable = 16

abbrev pub attr_append_only : ℕ
attr_append_only = 32

abbrev pub attr_extents : ℕ
attr_extents = 16384

unfoldable pub immutable : Meta → Bool
immutable m = not (bit_and m.attrs attr_immutable == 0)

unfoldable pub append_only : Meta → Bool
append_only m = not (bit_and m.attrs attr_append_only == 0)

-- `AttrImmutable|AttrAppendOnly` is 48.
unfoldable pub protected : Meta → Bool
protected m = not (bit_and m.attrs 48 == 0)

unfoldable mutual
  pub subtree_protected : Node → Bool
  subtree_protected (node m ks) = protected m || kids_protected ks

  pub kids_protected : Kids → Bool
  kids_protected nil = false
  kids_protected (cons key n ks) = subtree_protected n || kids_protected ks

-- `permWritable`
unfoldable pub perm_writable : Bytes → Bool
perm_writable perm =
    if ltb (length perm) 9
    then true
    else get_or perm 2 0 == b'w' || get_or perm 5 0 == b'w' || get_or perm 8 0 == b'w'
