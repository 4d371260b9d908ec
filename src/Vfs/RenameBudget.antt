-- ===== src/Vfs/RenameBudget.antt =====
-- `Rename` under the invariant of Vfs/Account, for a target directory outside the moved subtree.
use honeypot_go.Base.{
  ◌≡◌, refl, ap, ◌∙◌, Bool, true, false, ◌||◌, not, Option, none, some, [], ◌∷◌, ◌++◌, arith,
  if◌then◌else◌, Bytes, same, same_iff, Bool-cases, Option-cases, inl, inr,
}
use honeypot_go.Vfs.Tree.{
  Node, Kids, node, meta, kids, lookup, child, insert, delete, map_kid, Ptr, find, alter, deref,
  with_meta, with_kids, subtree_nodes, subtree_bytes, immutable, protected, perm_writable,
}
use honeypot_go.Vfs.Walk.{locate_node}
use honeypot_go.Vfs.State.{FileSystem, no_such_file}
use honeypot_go.Vfs.Remove.{unlink, entry_of, under, move, rename_new, rename_entry, rename}
use honeypot_go.Vfs.Laws.{lookup-map_kid, lookup-delete_ne, deref_of_find}
use honeypot_go.Vfs.Sound.{IsSound, lookup-delete-none}
use honeypot_go.Vfs.Reach.{IsDirAt, locate_node-IsDirAt}
use honeypot_go.Vfs.Account.{
  IsAccounted, nodes-link, bytes-link, IsSound-link, root_is_dir-kids, nodes-unlink, bytes-unlink,
  IsSound-unlink,
}
use honeypot_go.Vfs.WriteBudget.{found-IsAccounted}
use honeypot_go.Vfs.RemoveBudget.{IsEntry, entry_of-IsEntry, entry-IsSound}

-- Where an entry is deleted, a pointer outside its subtree stays alive, and what its node had no
-- entry for it still has none for.
abbrev Outlives : Node → Ptr → Node → Type 0
Outlives root q d =
    (d' : Node) × (find q root ≡ some d')
    × (meta d' ≡ meta d)
    × ((y : Bytes) → child y d ≡ none → child y d' ≡ none)

none-map_kid :
    (x y : Bytes) (f : Node → Node) (ks : Kids)
    → lookup y ks ≡ none
    → lookup y (map_kid x f ks) ≡ none
none-map_kid x y f ks h = rw (lookup-map_kid x y f ks, h) (flat (same x y))
  where
    flat : (b : Bool) → ◌≡◌ {A = Option Node} (if b then none else none) none
    flat true = refl
    flat false = refl

find-delete :
    (x : Bytes) (at : Ptr) (root t : Node)
    → find at root ≡ some t
    → (q : Ptr) (d : Node) → find q root ≡ some d
    → under (at ++ x ∷ []) q ≡ false
    → Outlives (alter (with_kids (delete x)) at root) q d
unfolding find alter under
find-delete x [] root t h [] d e u =
    let r : root ≡ d = cc in
    (
      with_kids (delete x) root,
      refl,
      rw (← r),
      λ y n. lookup-delete-none x y (kids root) (rw (← r) at n),
    )
find-delete x [] root t h (y ∷ q) d e u =
    (d, rw (lookup-delete_ne x y (kids root) (ground arith)) e, refl, λ z n. n)
find-delete x (z ∷ at) (node m ks) t h [] d e u =
    let r : node m ks ≡ d = cc in
    (
      _,
      refl,
      rw (← r),
      λ y n. none-map_kid z y (alter (with_kids (delete x)) at) ks (rw (← r) at n),
    )
find-delete x (z ∷ at) (node m ks) t h (y ∷ q) d e u = elim (Option-cases (lookup z ks)) [
  | inl n ↦ absurd (ground arith)
  | inr (r, n) ↦ elim (Bool-cases (same z y)) [
    | inl s ↦
        let w : z ≡ y = (same_iff z y).0 s in
        let (d', g, k, l) =
          find-delete x at r t (rw n at h) q d (ground (arith, ap (λ (b : Bytes). lookup b ks) w))
            (ground arith) in
        (
          d',
          ground (
            arith,
            lookup-map_kid z y (alter (with_kids (delete x)) at) ks,
            ap (λ (b : Bytes). lookup b ks) w,
          ),
          k,
          l,
        )
    | inr s ↦ (d, rw (lookup-map_kid z y (alter (with_kids (delete x)) at) ks, s) e, refl, λ b c. c)
  ]
]

abbrev renamed : Bytes → Node → Node
renamed name n = with_meta (λ m. record m { name = name }) n

renamed-IsSound : (name : Bytes) (n : Node) → IsSound n → IsSound (renamed name n)
renamed-IsSound name (node m ks) h =
    (record { keyed = h.0.keyed; leaf = h.0.leaf; sized = h.0.sized; capped = h.0.capped }, h.1)

nodes-renamed : (name : Bytes) (n : Node) → subtree_nodes (renamed name n) ≡ subtree_nodes n
unfolding subtree_nodes
nodes-renamed name (node m ks) = refl

bytes-renamed : (name : Bytes) (n : Node) → subtree_bytes (renamed name n) ≡ subtree_bytes n
unfolding subtree_bytes
bytes-renamed name (node m ks) = refl

module _ (fs : FileSystem) (src : Ptr) (old : Bytes) (n : Node) (dst : Ptr) (new : Bytes)
    (v : IsAccounted fs) (i : IsEntry fs.root src old n) where
  move-IsAccounted :
      IsDirAt fs.root dst
      → child new (deref fs.root dst) ≡ none
      → under (src ++ old ∷ []) dst ≡ false
      → IsAccounted (move src old n dst new fs)
  unfolding move
  move-IsAccounted (d, e, r) k out =
      let cut = unlink src old fs in
      let (d', g, m, l) = find-delete old src fs.root i.parent i.at_parent dst d e out in
      let k' : child new d' ≡ none = l new (rw (deref_of_find dst fs.root d e) at k) in
      let moved = renamed new n in
      record {
        nodes_exact = omega (
          arith,
          nodes-link cut dst new moved d' g k',
          nodes-renamed new n,
          nodes-unlink fs.root src old n i.parent i.at_parent i.entry,
          v.nodes_exact,
        );
        bytes_exact = omega (
          arith,
          bytes-link cut dst new moved d' g k',
          bytes-renamed new n,
          bytes-unlink fs.root src old n i.parent i.at_parent i.entry,
          v.bytes_exact,
        );
        nodes_capped = v.nodes_capped;
        bytes_capped = v.bytes_capped;
        root_is_dir =
            root_is_dir-kids (insert new moved) dst cut.root
            ∙ root_is_dir-kids (delete old) src fs.root
            ∙ v.root_is_dir;
        sound =
            IsSound-link cut dst new moved d' g k' (rw m r) refl
              (renamed-IsSound new n (entry-IsSound fs.root src old n v.sound i))
              (IsSound-unlink fs.root src old n i.parent i.at_parent i.entry v.sound);
      }

  rename_new-IsAccounted :
      (o : Option Node)
      → child new (deref fs.root dst) ≡ o
      → IsDirAt fs.root dst
      → under (src ++ old ∷ []) dst ≡ false
      → IsAccounted (rename_new src old n dst new o fs).0
  rename_new-IsAccounted (some c) k d out = v
  rename_new-IsAccounted none k d out = move-IsAccounted d k out

  rename_entry-IsAccounted :
      IsDirAt fs.root dst
      → under (src ++ old ∷ []) dst ≡ false
      → IsAccounted (rename_entry src old n dst new fs).0
  unfolding rename_entry
  rename_entry-IsAccounted d out =
      elim (Bool-cases (
        protected (meta n)
        || protected (meta (deref fs.root src))
        || immutable (meta (deref fs.root dst)))) [
          | inl p ↦ rw p v
          | inr p ↦
              rw p
                (elim (Bool-cases (
                  not (perm_writable (meta (deref fs.root src)).perm)
                  || not (perm_writable (meta (deref fs.root dst)).perm))) [
                    | inl w ↦ rw w v
                    | inr w ↦
                        rw w (rename_new-IsAccounted (child new (deref fs.root dst)) refl d out)
                  ])
        ]

-- The target directory of a move lies in the subtree that is moved.
abbrev pub IsMoveInside : Node → Bytes → Bytes → Type 0
IsMoveInside root old_path new_path =
    (e : Ptr × Bytes × Node) × (dst : Ptr × Bytes) × (entry_of root old_path ≡ some e)
    × (locate_node root new_path ≡ some dst)
    × (under (e.0 ++ e.1 ∷ []) dst.0 ≡ true)

pub rename-IsAccounted :
    (old_path new_path : Bytes) (fs : FileSystem)
    → ¬ IsMoveInside fs.root old_path new_path
    → IsAccounted fs
    → IsAccounted (rename old_path new_path fs).0
unfolding rename
rename-IsAccounted old_path new_path fs out v =
    found-IsAccounted fs no_such_file (entry_of fs.root old_path) _ v λ e h.
      found-IsAccounted fs no_such_file (locate_node fs.root new_path) _ v λ dst l.
        elim (Bool-cases (under (e.0 ++ e.1 ∷ []) dst.0)) [
          | inl t ↦ absurd (out (e, dst, h, l, t))
          | inr t ↦
              rename_entry-IsAccounted fs e.0 e.1 e.2 dst.0 dst.1 v
                (entry_of-IsEntry fs.root old_path e.0 e.1 e.2 v.root_is_dir h)
                (locate_node-IsDirAt fs.root new_path dst.0 dst.1 v.root_is_dir l) t
        ]
