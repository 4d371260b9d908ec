-- ===== src/Vfs/Weight.antt =====
-- Sums over a tree, for the counters: every write changes a sum by what changes at its pointer.
use honeypot_go.Base.{
  ℕ, ◌+◌, ◌≡◌, refl, ap, none, some, [], ◌∷◌, arith, Bytes, same_iff, Option-cases, inl, inr,
}
use honeypot_go.Vfs.Tree.{
  Meta, Node, Kids, node, nil, cons, lookup, insert, delete, map_kid, Ptr, find, alter,
  subtree_nodes, kids_nodes, subtree_bytes, kids_bytes, own_bytes,
}

unfoldable mutual
  pub weight : (Meta → ℕ) → Node → ℕ
  weight w (node m ks) = w m + kids_weight w ks

  pub kids_weight : (Meta → ℕ) → Kids → ℕ
  kids_weight w nil = 0
  kids_weight w (cons key n ks) = weight w n + kids_weight w ks

abbrev pub one : Meta → ℕ
one m = 1

mutual
  unfolding subtree_nodes weight

  nodes_weight : (n : Node) → subtree_nodes n ≡ weight one n
  nodes_weight (node m ks) = omega (arith, kids_nodes_weight ks)

  kids_nodes_weight : (ks : Kids) → kids_nodes ks ≡ kids_weight one ks
  kids_nodes_weight nil = refl
  kids_nodes_weight (cons key n ks) = omega (arith, nodes_weight n, kids_nodes_weight ks)

mutual
  unfolding subtree_bytes weight

  bytes_weight : (n : Node) → subtree_bytes n ≡ weight own_bytes n
  bytes_weight (node m ks) = omega (arith, kids_bytes_weight ks)

  kids_bytes_weight : (ks : Kids) → kids_bytes ks ≡ kids_weight own_bytes ks
  kids_bytes_weight nil = refl
  kids_bytes_weight (cons key n ks) = omega (arith, bytes_weight n, kids_bytes_weight ks)

pub subtree_nodes-weight : (n : Node) → subtree_nodes n ≡ weight one n
subtree_nodes-weight n = nodes_weight n

pub subtree_bytes-weight : (n : Node) → subtree_bytes n ≡ weight own_bytes n
subtree_bytes-weight n = bytes_weight n

module _ (w : Meta → ℕ) where
  weight-map_kid :
      (x : Bytes) (f : Node → Node) (ks : Kids) (c : Node)
      → lookup x ks ≡ some c
      → kids_weight w (map_kid x f ks) + weight w c ≡ kids_weight w ks + weight w (f c)
  unfolding lookup map_kid weight
  weight-map_kid x f nil c h = cc
  weight-map_kid x f (cons k n ks) c h = ground (
    arith,
    weight-map_kid x f ks c,
    same_iff k x,
    ap (weight w) {x = n} {y = c},
    ap (λ (t : Node). weight w (f t)) {x = n} {y = c},
  )

  pub weight-insert :
      (x : Bytes) (new : Node) (ks : Kids)
      → lookup x ks ≡ none
      → kids_weight w (insert x new ks) ≡ kids_weight w ks + weight w new
  unfolding lookup insert weight
  weight-insert x new nil h = omega arith
  weight-insert x new (cons k n ks) h = ground (arith, weight-insert x new ks)

  pub weight-delete :
      (x : Bytes) (ks : Kids) (c : Node)
      → lookup x ks ≡ some c
      → kids_weight w (delete x ks) + weight w c ≡ kids_weight w ks
  unfolding lookup delete weight
  weight-delete x nil c h = cc
  weight-delete x (cons k n ks) c h = ground (arith, weight-delete x ks c)

  -- A write at a reachable node changes the sum by what it changes there.
  pub weight-alter :
      (f : Node → Node) (at : Ptr) (root d : Node)
      → find at root ≡ some d
      → weight w (alter f at root) + weight w d ≡ weight w root + weight w (f d)
  unfolding find alter weight
  weight-alter f [] root d h = ground (arith)
  weight-alter f (x ∷ at) (node m ks) d h = elim (Option-cases (lookup x ks)) [
    | inl e ↦ ground arith
    | inr (r, e) ↦
        omega (arith, weight-map_kid x (alter f at) ks r e, weight-alter f at r d (rw e at h))
  ]
