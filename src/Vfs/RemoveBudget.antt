-- ===== src/Vfs/RemoveBudget.antt =====
-- `Remove` and `RemoveAll` under the invariant of Vfs/Account.
use honeypot_go.Base.{
  ◌+◌, ◌≡◌, refl, ◌∙◌, true, false, ◌&&◌, ◌||◌, Option, some, [], ◌∷◌, arith, if◌then◌else◌, Bytes,
  length, Bool-cases, Option-cases, inl, inr,
}
use honeypot_go.Vfs.Tree.{
  Node, Kids, node, nil, cons, meta, kids, child, delete, Ptr, find, alter, deref, with_kids,
  subtree_nodes, subtree_bytes, protected, subtree_protected, perm_writable,
}
use honeypot_go.Vfs.Walk.{locate_node}
use honeypot_go.Vfs.State.{FileSystem, no_such_file}
use honeypot_go.Vfs.Remove.{has_kids, remove_node, remove_subtree, entry_of, remove, remove_all}
use honeypot_go.Vfs.Laws.{deref_of_find}
use honeypot_go.Vfs.Sound.{IsSound, sound_at, find-IsSound}
use honeypot_go.Vfs.Reach.{locate_node-IsDirAt}
use honeypot_go.Vfs.Account.{
  IsAccounted, root_is_dir-kids, nodes-unlink, bytes-unlink, IsSound-unlink,
}
use honeypot_go.Vfs.WriteBudget.{found-IsAccounted}

-- What `entry_of` finds: a node under its name in a reachable directory.
pub record IsEntry (root : Node) (dir : Ptr) (name : Bytes) (n : Node) : Type 0 where
  pub parent : Node
  pub at_parent : find dir root ≡ some parent
  pub is_dir : (meta parent).is_dir ≡ true
  pub entry : child name parent ≡ some n

pub entry_of-IsEntry :
    (root : Node) (path : Bytes) (dir : Ptr) (name : Bytes) (n : Node)
    → (meta root).is_dir ≡ true
    → entry_of root path ≡ some (dir, name, n)
    → IsEntry root dir name n
unfolding entry_of
entry_of-IsEntry root path dir name n r e = elim (Option-cases (locate_node root path)) [
  | inl t ↦ absurd (ground arith)
  | inr ((at, nm), t) ↦ elim (Option-cases (child nm (deref root at))) [
    | inl u ↦ absurd (ground arith)
    | inr (c, u) ↦
        let (d, g, w) = locate_node-IsDirAt root path at nm r t in
        let z : ◌≡◌ {A = Option (Ptr × Bytes × Node)} (some (at, nm, c)) (some (dir, name, n)) =
          rw (t, u) at e in
        let za : at ≡ dir = cc in
        let zn : nm ≡ name = cc in
        let zc : c ≡ n = cc in
        record {
          parent = d;
          at_parent = rw (← za) g;
          is_dir = w;
          entry = rw (← zn, ← zc) (rw (deref_of_find at root d g) at u);
        }
  ]
]

leaf_nodes : (n : Node) → kids n ≡ nil → subtree_nodes n ≡ 1
unfolding subtree_nodes
leaf_nodes (node m ks) h = rw h

leaf_bytes :
    (n : Node)
    → kids n ≡ nil
    → subtree_bytes n ≡ (if (meta n).is_dir then 0 else length (meta n).content)
unfolding subtree_bytes
leaf_bytes (node m ks) h = rw h (omega arith)

has_kids→nil : (ks : Kids) → has_kids ks ≡ false → ks ≡ nil
has_kids→nil nil h = refl
has_kids→nil (cons k n ks) h = cc

removable-leaf :
    (n : Node) → IsSound n → ((meta n).is_dir && has_kids (kids n)) ≡ false → kids n ≡ nil
removable-leaf n s h = elim (Bool-cases (meta n).is_dir) [
  | inl t ↦ has_kids→nil (kids n) (ground arith)
  | inr t ↦ (sound_at n s).leaf t
]

pub entry-IsSound :
    (root : Node) (dir : Ptr) (name : Bytes) (n : Node)
    → IsSound root
    → IsEntry root dir name n
    → IsSound n
unfolding find
entry-IsSound root dir name n s i =
    find-IsSound (name ∷ []) i.parent n (find-IsSound dir root i.parent s i.at_parent) (rw i.entry)

module _ (fs : FileSystem) (dir : Ptr) (name : Bytes) (n : Node) (v : IsAccounted fs)
    (i : IsEntry fs.root dir name n) where
  remove_node-IsAccounted : IsAccounted (remove_node dir name n fs).0
  unfolding remove_node
  remove_node-IsAccounted =
      elim (Bool-cases (protected (meta n) || protected (meta (deref fs.root dir)))) [
        | inl p ↦ rw p v
        | inr p ↦ rw p (elim (Bool-cases ((meta n).is_dir && has_kids (kids n))) [
          | inl b ↦ rw b v
          | inr b ↦ rw b (elim (Bool-cases (perm_writable (meta (deref fs.root dir)).perm)) [
            | inr w ↦ rw w v
            | inl w ↦ rw w (
                let leaf = removable-leaf n (entry-IsSound fs.root dir name n v.sound i) b in
                record {
                  nodes_exact = omega (arith, cut_nodes, leaf_nodes n leaf, v.nodes_exact);
                  bytes_exact = ground (arith, cut_bytes, leaf_bytes n leaf, v.bytes_exact);
                  nodes_capped = omega (arith, v.nodes_capped);
                  bytes_capped = ground (arith, v.bytes_capped);
                  root_is_dir = root_is_dir-kids (delete name) dir fs.root ∙ v.root_is_dir;
                  sound = IsSound-unlink fs.root dir name n i.parent i.at_parent i.entry v.sound;
                })
          ])
        ])
      ]
    where
      cut_nodes :
          subtree_nodes (alter (with_kids (delete name)) dir fs.root) + subtree_nodes n
          ≡ subtree_nodes fs.root
      cut_nodes = nodes-unlink fs.root dir name n i.parent i.at_parent i.entry

      cut_bytes :
          subtree_bytes (alter (with_kids (delete name)) dir fs.root) + subtree_bytes n
          ≡ subtree_bytes fs.root
      cut_bytes = bytes-unlink fs.root dir name n i.parent i.at_parent i.entry

  remove_subtree-IsAccounted : IsAccounted (remove_subtree dir name n fs).0
  unfolding remove_subtree
  remove_subtree-IsAccounted =
      elim (Bool-cases (protected (meta (deref fs.root dir)) || subtree_protected n)) [
        | inl p ↦ rw p v
        | inr p ↦ rw p (elim (Bool-cases (perm_writable (meta (deref fs.root dir)).perm)) [
          | inr w ↦ rw w v
          | inl w ↦ rw w (record {
            nodes_exact = omega (
              arith,
              nodes-unlink fs.root dir name n i.parent i.at_parent i.entry,
              v.nodes_exact,
            );
            bytes_exact = omega (
              arith,
              bytes-unlink fs.root dir name n i.parent i.at_parent i.entry,
              v.bytes_exact,
            );
            nodes_capped = omega (arith, v.nodes_capped);
            bytes_capped = omega (arith, v.bytes_capped);
            root_is_dir = root_is_dir-kids (delete name) dir fs.root ∙ v.root_is_dir;
            sound = IsSound-unlink fs.root dir name n i.parent i.at_parent i.entry v.sound;
          })
        ])
      ]

pub remove-IsAccounted :
    (path : Bytes) (fs : FileSystem) → IsAccounted fs → IsAccounted (remove path fs).0
unfolding remove
remove-IsAccounted path fs v = found-IsAccounted fs no_such_file (entry_of fs.root path) _ v λ e h.
    remove_node-IsAccounted fs e.0 e.1 e.2 v
      (entry_of-IsEntry fs.root path e.0 e.1 e.2 v.root_is_dir h)

pub remove_all-IsAccounted :
    (path : Bytes) (fs : FileSystem) → IsAccounted fs → IsAccounted (remove_all path fs).0
unfolding remove_all
remove_all-IsAccounted path fs v =
    found-IsAccounted fs no_such_file (entry_of fs.root path) _ v λ e h.
      remove_subtree-IsAccounted fs e.0 e.1 e.2 v
        (entry_of-IsEntry fs.root path e.0 e.1 e.2 v.root_is_dir h)
