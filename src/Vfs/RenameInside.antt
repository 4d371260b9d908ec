-- ===== src/Vfs/RenameInside.antt =====
-- `Rename` for a target directory inside the moved subtree.
use honeypot_go.Base.{
  ◌+◌, ◌≡◌, refl, ap, ◌∙◌, true, false, ◌||◌, Option, none, some, [], ◌∷◌, ◌++◌, arith, Bytes, same,
  same_iff, Bool-cases, Option-cases, inl, inr,
}
use honeypot_go.Vfs.Tree.{
  Node, Kids, node, nil, cons, meta, kids, lookup, child, delete, map_kid, Ptr, find, alter, deref,
  with_kids, subtree_nodes, subtree_bytes, immutable, protected, perm_writable,
}
use honeypot_go.Vfs.Walk.{locate_node}
use honeypot_go.Vfs.State.{FileSystem}
use honeypot_go.Vfs.Remove.{entry_of, under, move, rename_entry, rename}
use honeypot_go.Vfs.Sound.{IsSound, Keyed, find-IsSound}
use honeypot_go.Vfs.Account.{IsAccounted, nodes-unlink, bytes-unlink}
use honeypot_go.Vfs.RemoveBudget.{IsEntry, entry_of-IsEntry}

-- An edit through a pointer into a subtree that has been deleted changes nothing.
map_kid-absent :
    (x : Bytes) (f : Node → Node) (ks : Kids) → lookup x ks ≡ none → map_kid x f ks ≡ ks
unfolding lookup map_kid
map_kid-absent x f nil h = refl
map_kid-absent x f (cons k n ks) h = elim (Bool-cases (same k x)) [
  | inl t ↦ absurd (ground (arith, h, t))
  | inr t ↦ rw t (ap (cons k n) (map_kid-absent x f ks (rw t at h)))
]

map_kid_twice :
    (x : Bytes) (f g : Node → Node) (ks : Kids)
    → map_kid x f (map_kid x g ks) ≡ map_kid x (λ n. f (g n)) ks
unfolding map_kid
map_kid_twice x f g nil = refl
map_kid_twice x f g (cons k n ks) = elim (Bool-cases (same k x)) [
  | inl t ↦ rw t (rw t refl)
  | inr t ↦ rw t (rw t (ap (cons k n) (map_kid_twice x f g ks)))
]

map_kid-ap :
    (x : Bytes) (f g : Node → Node) (ks : Kids) (r : Node)
    → lookup x ks ≡ some r
    → f r ≡ g r
    → map_kid x f ks ≡ map_kid x g ks
unfolding lookup map_kid
map_kid-ap x f g nil r h e = absurd cc
map_kid-ap x f g (cons k n ks) r h e = elim (Bool-cases (same k x)) [
  | inl t ↦ let q : n ≡ r = some_inj (rw t at h) in rw t (ap (λ (m : Node). cons k m ks) (rw q e))
  | inr t ↦ rw t (ap (cons k n) (map_kid-ap x f g ks r (rw t at h) e))
]
  where
    some_inj : {a b : Node} → ◌≡◌ {A = Option Node} (some a) (some b) → a ≡ b
    some_inj z = cc

lookup-delete_self : (x : Bytes) (ks : Kids) → Keyed ks → lookup x (delete x ks) ≡ none
unfolding lookup delete
lookup-delete_self x nil h = refl
lookup-delete_self x (cons k n ks) h = elim (Bool-cases (same k x)) [
  | inl t ↦ rw t (rw ((same_iff k x).0 t) at (h.1))
  | inr t ↦ rw t (rw t (lookup-delete_self x ks h.2))
]

alter-unlinked :
    (f : Node → Node) (old : Bytes) (src dst : Ptr) (root d : Node)
    → find src root ≡ some d
    → Keyed (kids d)
    → under (src ++ old ∷ []) dst ≡ true
    → alter f dst (alter (with_kids (delete old)) src root)
      ≡ alter (with_kids (delete old)) src root
unfolding find alter under
alter-unlinked f old [] [] root d h k u = absurd cc
alter-unlinked f old [] (q ∷ qs) root d h k u =
    let r : root ≡ d = cc in
    let w : old ≡ q = (same_iff old q).0 (ground (arith, u)) in
    ap (node (meta root)) (
      map_kid-absent q (alter f qs) (delete old (kids root))
        (rw (← w) (lookup-delete_self old (kids root) (rw (← r) at k))))
alter-unlinked f old (z ∷ at) [] root d h k u = absurd cc
alter-unlinked f old (z ∷ at) (q ∷ qs) root d h k u = elim (Option-cases (lookup z (kids root))) [
  | inl n ↦ absurd (none_some (rw n at h))
  | inr (r, n) ↦
      let w : z ≡ q = (same_iff z q).0 (ground (arith, u)) in
      ap (node (meta root)) (
        rw (← w) (
          map_kid_twice z (alter f qs) (alter (with_kids (delete old)) at) (kids root)
          ∙ map_kid-ap z _ (alter (with_kids (delete old)) at) (kids root) r n
              (alter-unlinked f old at qs r d (rw n at h) k (ground (arith, u)))))
]
  where
    none_some : {a : Node} → ◌≡◌ {A = Option Node} none (some a) → ⊥
    none_some e = cc

IsSound-Keyed : (n : Node) → IsSound n → Keyed (kids n)
IsSound-Keyed (node m ks) h = h.0.keyed

-- The counters are those of the tree and the subtree together.
abbrev pub CountsLost : Node → FileSystem → Type 0
CountsLost n fs =
    (fs.total_nodes ≡ subtree_nodes fs.root + subtree_nodes n)
    × (fs.total_bytes ≡ subtree_bytes fs.root + subtree_bytes n)

move-CountsLost :
    (fs : FileSystem) (src : Ptr) (old : Bytes) (n : Node) (dst : Ptr) (new : Bytes)
    → IsAccounted fs
    → IsEntry fs.root src old n
    → under (src ++ old ∷ []) dst ≡ true
    → CountsLost n (move src old n dst new fs)
unfolding move
move-CountsLost fs src old n dst new v i t =
    let k = IsSound-Keyed i.parent (find-IsSound src fs.root i.parent v.sound i.at_parent) in
    rw (alter-unlinked _ old src dst fs.root i.parent i.at_parent k t) (
      omega (arith, nodes-unlink fs.root src old n i.parent i.at_parent i.entry, v.nodes_exact),
      omega (arith, bytes-unlink fs.root src old n i.parent i.at_parent i.entry, v.bytes_exact),
    )

-- In an accounted file system, a Rename of an entry to a new name below itself, where no entry
-- has that name and the attributes and the permissions of the entry and of both directories allow
-- it, gives no error, and leaves counters that exceed the nodes and the content bytes of the tree
-- by those of the moved subtree.
pub rename_inside-CountsLost :
    (old_path new_path : Bytes) (fs : FileSystem) (e : Ptr × Bytes × Node) (dst : Ptr × Bytes)
    → IsAccounted fs
    → entry_of fs.root old_path ≡ some e
    → locate_node fs.root new_path ≡ some dst
    → under (e.0 ++ e.1 ∷ []) dst.0 ≡ true
    → (protected (meta e.2)
        || protected (meta (deref fs.root e.0))
        || immutable (meta (deref fs.root dst.0)))
      ≡ false
    → perm_writable (meta (deref fs.root e.0)).perm ≡ true
    → perm_writable (meta (deref fs.root dst.0)).perm ≡ true
    → child dst.1 (deref fs.root dst.0) ≡ none
    → ((rename old_path new_path fs).1 ≡ none) × CountsLost e.2 (rename old_path new_path fs).0
unfolding rename rename_entry
rename_inside-CountsLost old_path new_path fs (src, old, n) (dst, new) v h l t free from to absent =
    rw (h, l, free, from, to, absent)
      (
        refl,
        move-CountsLost fs src old n dst new v
            (entry_of-IsEntry fs.root old_path src old n v.root_is_dir h) t,
      )
