-- ===== src/Vfs/Planted.antt =====
-- What the loops of `addFile` and `addDir` add to the sums over the tree.
use honeypot_go.Base.{
  ℕ, ◌+◌, ◌≤◌, ◌≡◌, refl, Option, none, some, List, [], ◌∷◌, arith, Bytes, same_iff, length, ap,
}
use honeypot_go.Vfs.Tree.{Meta, Node, Kids, node, nil, cons, lookup, insert}
use honeypot_go.Vfs.Weight.{weight, kids_weight}
use honeypot_go.Vfs.Seed.{enter_or, descend}

abbrev pub times : ℕ → List Bytes → ℕ
times n [] = 0
times n (p ∷ ps) = n + times n ps

pub times-one : (ps : List Bytes) → times 1 ps ≡ length ps
times-one [] = refl
times-one (p ∷ ps) = omega (arith, times-one ps)

pub times-zero : (ps : List Bytes) → times 0 ps ≡ 0
times-zero [] = refl
times-zero (p ∷ ps) = omega (arith, times-zero ps)

module _ (w : Meta → ℕ) where
  pub kids_weight-put :
      (x : Bytes) (new : Node) (ks : Kids)
      → kids_weight w (insert x new ks) ≤ kids_weight w ks + weight w new
  unfolding insert weight
  kids_weight-put x new nil = omega arith
  kids_weight-put x new (cons k n ks) = ground (arith, kids_weight-put x new ks)

  kids_weight-replace :
      (x : Bytes) (new : Node) (ks : Kids) (c : Node)
      → lookup x ks ≡ some c
      → kids_weight w (insert x new ks) + weight w c ≡ kids_weight w ks + weight w new
  unfolding lookup insert weight
  kids_weight-replace x new nil c h = cc
  kids_weight-replace x new (cons k n ks) c h =
      ground (arith, kids_weight-replace x new ks c, same_iff k x, ap (weight w) {x = n} {y = c})

  module _ (fresh_dir : Bytes → Node) (each : ℕ)
      (light : (p : Bytes) → weight w (fresh_dir p) ≤ each) (last : Node → Node) (more : ℕ)
      (adds : (d : Node) → weight w (last d) ≤ weight w d + more) where
    weight-enter :
        (p : Bytes) (o : Option Node) (ks : Kids) (new : Node) (extra : ℕ)
        → lookup p ks ≡ o
        → weight w new ≤ weight w (enter_or fresh_dir p o) + extra
        → kids_weight w (insert p new ks) ≤ kids_weight w ks + each + extra
    weight-enter p none ks new extra e h = omega (arith, kids_weight-put p new ks, light p, h)
    weight-enter p (some c) ks new extra e h =
        ground (arith, kids_weight-put p new ks, kids_weight-replace p new ks c e, light p, h)

    pub weight-descend :
        (ps : List Bytes) (d : Node)
        → weight w (descend fresh_dir last ps d) ≤ weight w d + times each ps + more
    unfolding descend weight
    weight-descend [] d = omega (arith, adds d)
    weight-descend (p ∷ ps) (node m ks) =
        let next = enter_or fresh_dir p (lookup p ks) in
        omega (
          arith,
          weight-enter p (lookup p ks) ks (descend fresh_dir last ps next) (times each ps + more)
              refl (omega (arith, weight-descend ps next)),
        )
