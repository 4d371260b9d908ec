-- ===== src/Vfs/Laws.antt =====
-- Laws of the pointers of Vfs/Tree: what a write through one pointer does to reads through others.
use honeypot_go.Base.{
  ◌≡◌, refl, ap, false, none, some, [], ◌∷◌, ◌++◌, arith, if◌then◌else◌, Bytes, same, same_iff,
  same_refl, bind, Bool-cases, Option-cases, inl, inr,
}
use honeypot_go.Vfs.Tree.{
  Meta, Node, Kids, node, nil, cons, meta, kids, lookup, child, insert, delete, map_kid, Ptr, find,
  alter, deref, with_kids,
}

pub lookup-map_kid :
    (x y : Bytes) (f : Node → Node) (ks : Kids)
    → lookup y (map_kid x f ks)
      ≡ (if same x y then bind (lookup y ks) (λ n. some (f n)) else lookup y ks)
unfolding lookup map_kid
lookup-map_kid x y f nil = ground arith
lookup-map_kid x y f (cons k n ks) =
    ground (arith, lookup-map_kid x y f ks, same_iff k x, same_iff k y, same_iff x y)

pub lookup-insert :
    (x y : Bytes) (new : Node) (ks : Kids)
    → lookup y (insert x new ks) ≡ (if same x y then some new else lookup y ks)
unfolding lookup insert
lookup-insert x y new nil = refl
lookup-insert x y new (cons k n ks) =
    ground (arith, lookup-insert x y new ks, same_iff k x, same_iff k y, same_iff x y)

pub lookup-delete_ne :
    (x y : Bytes) (ks : Kids) → same x y ≡ false → lookup y (delete x ks) ≡ lookup y ks
unfolding lookup delete
lookup-delete_ne x y nil h = refl
lookup-delete_ne x y (cons k n ks) h =
    ground (arith, lookup-delete_ne x y ks h, same_iff k x, same_iff k y, same_iff x y)

-- A pointer one name longer reads the child.
pub find-concat :
    (at : Ptr) (p : Bytes) (root d n : Node)
    → find at root ≡ some d
    → child p d ≡ some n
    → find (at ++ p ∷ []) root ≡ some n
unfolding find
find-concat [] p root d n h c = ground (arith, ap (λ (x : Node). child p x) (some_inj h))
  where
    some_inj : {a b : Node} → some a ≡ some b → a ≡ b
    some_inj e = cc
find-concat (x ∷ at) p root d n h c = elim (Option-cases (child x root)) [
  | inl e ↦ ground arith
  | inr (r, e) ↦ rw e (find-concat at p r d n (rw e at h) c)
]

pub deref_of_find : (at : Ptr) (root d : Node) → find at root ≡ some d → deref root at ≡ d
deref_of_find at root d h = rw h

-- What a write leaves behind its own pointer.
pub find-alter_self :
    (f : Node → Node) (at : Ptr) (root d : Node)
    → find at root ≡ some d
    → find at (alter f at root) ≡ some (f d)
unfolding find alter
find-alter_self f [] root d h = let q : root ≡ d = cc in rw q
find-alter_self f (x ∷ at) (node m ks) d h = elim (Option-cases (lookup x ks)) [
  | inl e ↦ absurd (ground arith)
  | inr (r, e) ↦
      rw (lookup-map_kid x x (alter f at) ks, same_refl x, e) (find-alter_self f at r d (rw e at h))
]

pub find-insert_self :
    (x : Bytes) (new : Node) (at : Ptr) (root d : Node)
    → find at root ≡ some d
    → find (at ++ x ∷ []) (alter (with_kids (insert x new)) at root) ≡ some new
find-insert_self x new at root d h =
    find-concat at x (alter (with_kids (insert x new)) at root) (with_kids (insert x new) d) new
      (find-alter_self (with_kids (insert x new)) at root d h)
      (rw (lookup-insert x x new (kids d), same_refl x))

-- A write that keeps the entries of its node leaves every pointer alive. `R` is what it keeps of the
-- fields.
module _ (R : Meta → Meta → Type 0) (R_refl : (m : Meta) → R m m) where
  pub find-alter :
      (f : Node → Node) (at : Ptr) (root t : Node)
      → find at root ≡ some t
      → R (meta (f t)) (meta t)
      → ((y : Bytes) (c : Node) → child y t ≡ some c → child y (f t) ≡ some c)
      → (q : Ptr) (d : Node) → find q root ≡ some d
      → (d' : Node) × (find q (alter f at root) ≡ some d') × R (meta d') (meta d)
  unfolding find alter
  find-alter f [] root t h m k [] d e =
      let p : root ≡ t = cc in let r : root ≡ d = cc in (f root, refl, rw (← r, p) m)
  find-alter f [] root t h m k (y ∷ q) d e =
      let p : root ≡ t = cc in
      elim (Option-cases (child y root)) [
        | inl n ↦ absurd (ground arith)
        | inr (c, g) ↦ (d, rw (p, k y c (rw (← p) g)) (rw g at e), R_refl (meta d))
      ]
  find-alter f (x ∷ at) (node n ks) t h m k [] d e =
      let r : node n ks ≡ d = cc in (_, refl, rw (← r) (R_refl n))
  find-alter f (x ∷ at) (node n ks) t h m k (y ∷ q) d e = elim (Option-cases (lookup x ks)) [
    | inl u ↦ absurd (ground arith)
    | inr (r, u) ↦ elim (Bool-cases (same x y)) [
      | inl s ↦
          let z : x ≡ y = (same_iff x y).0 s in
          let (d', g, w) =
            find-alter f at r t (rw u at h) m k q d
              (ground (arith, ap (λ (b : Bytes). lookup b ks) z)) in
          (
            d',
            ground (arith, lookup-map_kid x y (alter f at) ks, ap (λ (b : Bytes). lookup b ks) z),
            w,
          )
      | inr s ↦ (d, rw (lookup-map_kid x y (alter f at) ks, s) e, R_refl (meta d))
    ]
  ]

pub find-link :
    (x : Bytes) (new : Node) (at : Ptr) (root t : Node)
    → find at root ≡ some t
    → child x t ≡ none
    → (q : Ptr) (d : Node) → find q root ≡ some d
    → (d' : Node) × (find q (alter (with_kids (insert x new)) at root) ≡ some d')
      × (meta d' ≡ meta d)
find-link x new at root t h n =
    find-alter (λ a b. a ≡ b) (λ m. refl) (with_kids (insert x new)) at root t h refl
      λ y c e. ground (
        arith,
        lookup-insert x y new (kids t),
        same_iff x y,
        ap (λ (b : Bytes). lookup b (kids t)) {x = x} {y = y},
      )

-- The other way round: the last name of a pointer is an entry of what the rest leads to.
pub find-concat_inv :
    (at : Ptr) (p : Bytes) (root d n : Node)
    → find at root ≡ some d
    → find (at ++ p ∷ []) root ≡ some n
    → child p d ≡ some n
unfolding find
find-concat_inv [] p root d n g h =
    let r : root ≡ d = cc in
    elim (Option-cases (child p root)) [
      | inl e ↦ absurd (ground arith)
      | inr (c, e) ↦ rw (← r, e) (rw e at h)
    ]
find-concat_inv (x ∷ at) p root d n g h = elim (Option-cases (child x root)) [
  | inl e ↦ absurd (ground arith)
  | inr (r, e) ↦ find-concat_inv at p r d n (rw e at g) (rw e at h)
]
