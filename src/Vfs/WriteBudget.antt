-- ===== src/Vfs/WriteBudget.antt =====
-- The writing operations under the invariant of Vfs/Account.
use honeypot_go.Base.{
  ℕ, ◌+◌, ◌-◌, ◌≤◌, ◌<◌, ◌≡◌, refl, ◌∙◌, Bool, true, false, ◌&&◌, ◌||◌, not, Option, none, some, [],
  ◌∷◌, ◌++◌, arith, if◌then◌else◌, Bytes, length, length-append, Bool-cases, inl, inr, ltb, leb,
  split_last,
}
use honeypot_go.Vfs.Tree.{
  Meta, Node, node, meta, child, insert, Ptr, find, deref, with_meta, subtree_nodes, subtree_bytes,
  immutable, append_only, perm_writable,
}
use honeypot_go.Vfs.Walk.{walk_path, locate_node, enter_dirs, split_path, is_dots}
use honeypot_go.Vfs.State.{
  FileSystem, FsError, Outcome, invalid_path, no_such_directory, no_such_file, found,
  max_total_bytes, max_total_nodes, max_file_size,
}
use honeypot_go.Vfs.Write.{
  link, written, new_file, write_content, write_entry, write_in, locked_write, touch, touch_node,
  copied, copy, copy_new, copy_into,
}
use honeypot_go.Vfs.Laws.{find-concat, deref_of_find, find-insert_self}
use honeypot_go.Vfs.Sound.{IsSound, sound_at, find-IsSound, IsSound-alter}
use honeypot_go.Vfs.Reach.{
  IsAt, IsDirAt, find-deref, walk_path-IsAt, enter_dirs-IsDirAt, locate_node-IsDirAt,
}
use honeypot_go.Vfs.Account.{
  IsAccounted, IsCosmetic, cosmetic-IsAccounted, nodes-alter, bytes-alter, nodes-link, bytes-link,
  IsSound-link, root_is_dir-kids, alter-is_dir,
}

length-written :
    (old bytes : Bytes) (mode : Bool)
    → length (written old bytes mode) ≡ (if mode then length bytes + length old else length bytes)
length-written old bytes true = omega (arith, length-append old bytes)
length-written old bytes false = refl

abbrev rewrite : ℕ → Bytes → Bool → Meta → Meta
rewrite now bytes mode m = record m {
  content = written m.content bytes mode;
  size = length (written m.content bytes mode);
  mtime = now;
}

module _ (now : ℕ) (bytes : Bytes) (mode : Bool) where
  abbrev new_size : Meta → ℕ
  new_size m = if mode then length bytes + length m.content else length bytes

  nodes-rewrite :
      (d : Node) → subtree_nodes (with_meta (rewrite now bytes mode) d) ≡ subtree_nodes d
  unfolding subtree_nodes
  nodes-rewrite (node m ks) = refl

  bytes-rewrite :
      (d : Node)
      → (meta d).is_dir ≡ false
      → subtree_bytes (with_meta (rewrite now bytes mode) d) + length (meta d).content
        ≡ subtree_bytes d + new_size (meta d)
  unfolding subtree_bytes
  bytes-rewrite (node m ks) h = rw h (omega (arith, length-written m.content bytes mode))

  IsSound-rewrite :
      (d : Node)
      → (meta d).is_dir ≡ false
      → new_size (meta d) ≤ max_file_size
      → IsSound d
      → IsSound (with_meta (rewrite now bytes mode) d)
  IsSound-rewrite (node m ks) f c h = (
    record {
      keyed = h.0.keyed;
      leaf = h.0.leaf;
      sized = λ l. refl;
      capped = λ l. rw (length-written m.content bytes mode) c;
    },
    h.1,
  )

  pub write_content-IsAccounted :
      (path : Bytes) (at : Ptr) (fs : FileSystem) (d : Node)
      → find at fs.root ≡ some d
      → (meta d).is_dir ≡ false
      → IsAccounted fs
      → IsAccounted (write_content now path at bytes mode fs).0
  unfolding write_content
  write_content-IsAccounted path at fs d e f v =
      rw (deref_of_find at fs.root d e) (elim (Bool-cases (ltb max_file_size (new_size (meta d)))) [
        | inl big ↦ rw big v
        | inr fits ↦
            rw fits
              (elim (Bool-cases (ltb old new && ltb max_total_bytes (fs.total_bytes + new - old))) [
                | inl full ↦ rw full v
                | inr room ↦ rw room (record {
                  nodes_exact =
                      omega (arith, nodes-alter g at fs.root d e, nodes-rewrite d, v.nodes_exact);
                  bytes_exact =
                      omega (arith, bytes-alter g at fs.root d e, bytes-rewrite d f, v.bytes_exact);
                  nodes_capped = v.nodes_capped;
                  bytes_capped = ground (arith, v.bytes_capped);
                  root_is_dir = alter-is_dir g (λ n. refl) at fs.root ∙ v.root_is_dir;
                  sound =
                      IsSound-alter g (λ n. refl) at fs.root d e
                        (IsSound-rewrite d f (ground arith) (find-IsSound at fs.root d v.sound e))
                        v.sound;
                })
              ])
      ])
    where
      old : ℕ
      old = length (meta d).content

      new : ℕ
      new = new_size (meta d)

      g : Node → Node
      g = with_meta (rewrite now bytes mode)

-- A file without content in a directory that has no entry of its name.
module _ (now : ℕ) (name : Bytes) (dir : Ptr) (fs : FileSystem) (new d : Node)
    (e : find dir fs.root ≡ some d) (r : (meta d).is_dir ≡ true) (k : child name d ≡ none)
    (room : fs.total_nodes < max_total_nodes) where
  pub link-IsAccounted :
      subtree_nodes new ≡ 1
      → subtree_bytes new ≡ 0
      → (meta new).name ≡ name
      → IsSound new
      → IsAccounted fs
      → IsAccounted (link dir name new fs)
  link-IsAccounted one_node no_bytes n s v = record {
    nodes_exact = omega (arith, nodes-link fs dir name new d e k, v.nodes_exact);
    bytes_exact = omega (arith, bytes-link fs dir name new d e k, v.bytes_exact);
    nodes_capped = omega arith;
    bytes_capped = v.bytes_capped;
    root_is_dir = root_is_dir-kids (insert name new) dir fs.root ∙ v.root_is_dir;
    sound = IsSound-link fs dir name new d e k r n s v.sound;
  }

new_file-IsSound : (now : ℕ) (name : Bytes) → IsSound (new_file now name)
new_file-IsSound now name =
    (record { keyed = tt; leaf = λ l. refl; sized = λ l. refl; capped = λ l. omega arith }, tt)

write_entry-IsAccounted :
    (now : ℕ) (path : Bytes) (dir : Ptr) (name bytes : Bytes) (mode : Bool) (fs : FileSystem)
    (d : Node) (o : Option Node)
    → find dir fs.root ≡ some d
    → (meta d).is_dir ≡ true
    → child name d ≡ o
    → IsAccounted fs
    → IsAccounted (write_entry now path dir name bytes mode o fs).0
unfolding write_entry
write_entry-IsAccounted now path dir name bytes mode fs d none e r k v =
    elim (Bool-cases (immutable (meta (deref fs.root dir)))) [
      | inl t ↦ rw t v
      | inr t ↦ rw t (elim (Bool-cases (leb max_total_nodes fs.total_nodes)) [
        | inl full ↦ rw full v
        | inr room ↦ rw room (
            write_content-IsAccounted now bytes mode path (dir ++ name ∷ [])
              (link dir name (new_file now name) fs) (new_file now name)
              (find-insert_self name (new_file now name) dir fs.root d e) refl
              (link-IsAccounted now name dir fs (new_file now name) d e r k (ground arith)
                (unfold subtree_nodes in refl) (unfold subtree_bytes in refl) refl
                (new_file-IsSound now name) v))
      ])
    ]
write_entry-IsAccounted now path dir name bytes mode fs d (some n) e r k v =
    elim (Bool-cases (meta n).is_dir) [
      | inl t ↦ rw t v
      | inr t ↦ rw t (elim (Bool-cases (immutable (meta n) || (append_only (meta n) && not mode))) [
        | inl i ↦ rw i v
        | inr i ↦ rw i (elim (Bool-cases (perm_writable (meta n).perm)) [
          | inl w ↦ rw w (
              write_content-IsAccounted now bytes mode path (dir ++ name ∷ []) fs n
                (find-concat dir name fs.root d n e k) t v)
          | inr w ↦ rw w v
        ])
      ])
    ]

write_in-IsAccounted :
    (now : ℕ) (path : Bytes) (dir : Ptr) (name bytes : Bytes) (mode : Bool) (fs : FileSystem)
    → IsDirAt fs.root dir
    → IsAccounted fs
    → IsAccounted (write_in now path dir name bytes mode fs).0
unfolding write_in
write_in-IsAccounted now path dir name bytes mode fs (d, e, r) v =
    rw (deref_of_find dir fs.root d e) (elim (Bool-cases (perm_writable (meta d).perm)) [
      | inr w ↦ rw w v
      | inl w ↦ rw w (elim (Bool-cases (is_dots name)) [
        | inl t ↦ rw t v
        | inr t ↦
            rw t
              (write_entry-IsAccounted now path dir name bytes mode fs d (child name d) e r refl v)
      ])
    ])

-- An early return leaves the state as it is.
pub found-IsAccounted {ℓ} :
    {A : Type ℓ} (fs : FileSystem) (err : FsError) (o : Option A) (k : A → Outcome)
    → IsAccounted fs
    → ((a : A) → o ≡ some a → IsAccounted (k a).0)
    → IsAccounted (found fs err o k).0
found-IsAccounted fs err none k v h = v
found-IsAccounted fs err (some a) k v h = h a refl

pub locked_write-IsAccounted :
    (now : ℕ) (path bytes : Bytes) (mode : Bool) (fs : FileSystem)
    → IsAccounted fs
    → IsAccounted (locked_write now path bytes mode fs).0
unfolding locked_write
locked_write-IsAccounted now path bytes mode fs v =
    found-IsAccounted fs invalid_path (split_last (split_path path)) _ v λ last _.
      found-IsAccounted fs no_such_directory (enter_dirs fs.root last.0) _ v λ dir u.
        write_in-IsAccounted now path dir last.1 bytes mode fs
          (enter_dirs-IsDirAt fs.root last.0 dir v.root_is_dir u) v

mtime-IsCosmetic : (now : ℕ) → IsCosmetic (λ m. record m { mtime = now })
mtime-IsCosmetic now = record {
  name = λ m. refl;
  is_dir = λ m. refl;
  size = λ m. refl;
  content = λ m. refl;
}

touch_node-IsAccounted :
    (now : ℕ) (path : Bytes) (o : Option Ptr) (fs : FileSystem)
    → ((at : Ptr) → o ≡ some at → IsAt fs.root at)
    → IsAccounted fs
    → IsAccounted (touch_node now path o fs).0
touch_node-IsAccounted now path none fs h v = locked_write-IsAccounted now path [] false fs v
touch_node-IsAccounted now path (some at) fs h v =
    elim (Bool-cases (meta (deref fs.root at)).is_dir) [
      | inl t ↦ rw t v
      | inr t ↦ rw t (elim (Bool-cases (immutable (meta (deref fs.root at)))) [
        | inl i ↦ rw i v
        | inr i ↦ rw i (
            cosmetic-IsAccounted (λ m. record m { mtime = now }) (mtime-IsCosmetic now) at fs
              (h at refl) v)
      ])
    ]

pub touch-IsAccounted :
    (now : ℕ) (path : Bytes) (fs : FileSystem) → IsAccounted fs → IsAccounted (touch now path fs).0
unfolding touch
touch-IsAccounted now path fs v =
    touch_node-IsAccounted now path (walk_path fs.root path) fs (walk_path-IsAt fs.root path) v

copied-IsSound :
    (now : ℕ) (name : Bytes) (src : Node)
    → IsSound src
    → (meta src).is_dir ≡ false
    → IsSound (copied now name (meta src))
copied-IsSound now name (node m ks) h f = (
  record { keyed = tt; leaf = λ l. refl; sized = λ l. h.0.sized f; capped = λ l. h.0.capped f },
  tt,
)

copy_new-IsAccounted :
    (now : ℕ) (path : Bytes) (src : Node) (dir : Ptr) (name : Bytes) (o : Option Node)
    (fs : FileSystem) (d : Node)
    → IsSound src
    → (meta src).is_dir ≡ false
    → find dir fs.root ≡ some d
    → (meta d).is_dir ≡ true
    → child name d ≡ o
    → IsAccounted fs
    → IsAccounted (copy_new now path (meta src) dir name o fs).0
copy_new-IsAccounted now path src dir name (some old) fs d s f e r k v = v
copy_new-IsAccounted now path src dir name none fs d s f e r k v =
    elim (Bool-cases (ltb max_file_size (meta src).size)) [
      | inl t ↦ rw t v
      | inr t ↦ rw t (elim (Bool-cases (leb max_total_nodes fs.total_nodes)) [
        | inl full ↦ rw full v
        | inr room ↦
            rw room (elim (Bool-cases (ltb max_total_bytes (fs.total_bytes + (meta src).size))) [
              | inl full ↦ rw full v
              | inr fits ↦ rw fits (record {
                nodes_exact =
                    omega (arith, nodes-link fs dir name new d e k, v.nodes_exact, one_node);
                bytes_exact =
                    omega (arith, bytes-link fs dir name new d e k, v.bytes_exact, new_bytes);
                nodes_capped = ground arith;
                bytes_capped = ground arith;
                root_is_dir = root_is_dir-kids (insert name new) dir fs.root ∙ v.root_is_dir;
                sound =
                    IsSound-link fs dir name new d e k r refl (copied-IsSound now name src s f)
                      v.sound;
              })
            ])
      ])
    ]
  where
    new : Node
    new = copied now name (meta src)

    one_node : subtree_nodes new ≡ 1
    one_node = unfold subtree_nodes in refl

    new_bytes : subtree_bytes new ≡ (meta src).size
    new_bytes = unfold subtree_bytes in omega (arith, (sound_at src s).sized f)

pub copy-IsAccounted :
    (now : ℕ) (src_path dst_path : Bytes) (fs : FileSystem)
    → IsAccounted fs
    → IsAccounted (copy now src_path dst_path fs).0
unfolding copy copy_into
copy-IsAccounted now src_path dst_path fs v =
    found-IsAccounted fs no_such_file (walk_path fs.root src_path) _ v λ at w.
      let src = deref fs.root at in
      let ok = find-deref fs.root at (walk_path-IsAt fs.root src_path at w) in
      elim (Bool-cases (meta src).is_dir) [
        | inl t ↦ rw t v
        | inr t ↦ rw t (
            found-IsAccounted fs no_such_file (locate_node fs.root dst_path) _ v λ dst l.
              into at dst.0 dst.1 (find-IsSound at fs.root src v.sound ok) t
                (locate_node-IsDirAt fs.root dst_path dst.0 dst.1 v.root_is_dir l))
      ]
  where
    into :
        (at : Ptr) (dir : Ptr) (name : Bytes)
        → IsSound (deref fs.root at)
        → (meta (deref fs.root at)).is_dir ≡ false
        → IsDirAt fs.root dir
        → IsAccounted (copy_into now src_path (meta (deref fs.root at)) dir name fs).0
    into at dir name s t (d, e, r) = elim (Bool-cases (immutable (meta (deref fs.root dir)))) [
      | inl i ↦ rw i v
      | inr i ↦ rw i (elim (Bool-cases (perm_writable (meta (deref fs.root dir)).perm)) [
        | inr w ↦ rw w v
        | inl w ↦ rw w (
            copy_new-IsAccounted now src_path (deref fs.root at) dir name
              (child name (deref fs.root dir)) fs d s t e r (rw (deref_of_find dir fs.root d e)) v)
      ])
    ]
