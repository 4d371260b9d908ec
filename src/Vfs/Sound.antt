-- ===== src/Vfs/Sound.antt =====
-- What holds of every node of the tree between two operations, and the writes that keep it.
use honeypot_go.Base.{
  ◌≤◌, ◌≡◌, refl, ◌∙◌, true, false, none, some, [], ◌∷◌, arith, Bytes, same, same_iff, Option-cases,
  Bool-cases, inl, inr, length,
}
use honeypot_go.Vfs.Tree.{
  Meta, Node, Kids, node, nil, cons, meta, kids, lookup, child, insert, delete, map_kid, Ptr, find,
  alter,
}
use honeypot_go.Vfs.State.{max_file_size}
use honeypot_go.Vfs.Laws.{lookup-map_kid, lookup-insert}

-- Each key is the name of its node, and no key stands twice.
abbrev pub Keyed : Kids → Type 0
Keyed nil = Unit {0}
Keyed (cons key n ks) = ((meta n).name ≡ key) × (lookup key ks ≡ none) × Keyed ks

-- A file has no children, and its size is that of its content and within the limit.
pub record IsSoundAt (m : Meta) (ks : Kids) : Type 0 where
  pub keyed : Keyed ks
  pub leaf : m.is_dir ≡ false → ks ≡ nil
  pub sized : m.is_dir ≡ false → m.size ≡ length m.content
  pub capped : m.is_dir ≡ false → m.size ≤ max_file_size

abbrev mutual
  pub IsSound : Node → Type 0
  IsSound (node m ks) = IsSoundAt m ks × AreSound ks

  pub AreSound : Kids → Type 0
  AreSound nil = Unit {0}
  AreSound (cons key n ks) = IsSound n × AreSound ks

pub sound_at : (n : Node) → IsSound n → IsSoundAt (meta n) (kids n)
sound_at (node m ks) h = h.0

pub sound_kids : (n : Node) → IsSound n → AreSound (kids n)
sound_kids (node m ks) h = h.1

pub lookup-IsSound :
    (x : Bytes) (ks : Kids) (c : Node) → AreSound ks → lookup x ks ≡ some c → IsSound c
unfolding lookup
lookup-IsSound x nil c h e = cc
lookup-IsSound x (cons k n ks) c h e = elim (Bool-cases (same k x)) [
  | inl t ↦ subst-sound n c (rw t at e) h.0
  | inr t ↦ lookup-IsSound x ks c h.1 (rw t at e)
]
  where
    subst-sound : (a b : Node) → some a ≡ some b → IsSound a → IsSound b
    subst-sound a b e s = let q : a ≡ b = cc in rw (← q) s

pub find-IsSound : (at : Ptr) (root d : Node) → IsSound root → find at root ≡ some d → IsSound d
unfolding find
find-IsSound [] root d h e = let q : root ≡ d = cc in rw (← q) h
find-IsSound (x ∷ at) (node m ks) d h e = elim (Option-cases (lookup x ks)) [
  | inl t ↦ absurd (ground arith)
  | inr (r, t) ↦ find-IsSound at r d (lookup-IsSound x ks r h.1 t) (rw t at e)
]

module _ (f : Node → Node) (named : (n : Node) → (meta (f n)).name ≡ (meta n).name) where
  Keyed-map_kid : (x : Bytes) (ks : Kids) → Keyed ks → Keyed (map_kid x f ks)
  unfolding map_kid
  Keyed-map_kid x nil h = tt
  Keyed-map_kid x (cons k n ks) h = elim (Bool-cases (same k x)) [
    | inl t ↦ rw t (named n ∙ h.0, h.1, h.2)
    | inr t ↦ rw t (h.0, ground (arith, lookup-map_kid x k f ks, h.1), Keyed-map_kid x ks h.2)
  ]

  sound-map_kid :
      (x : Bytes) (ks : Kids) (c : Node)
      → lookup x ks ≡ some c
      → IsSound (f c)
      → AreSound ks
      → AreSound (map_kid x f ks)
  unfolding lookup map_kid
  sound-map_kid x nil c e s h = tt
  sound-map_kid x (cons k n ks) c e s h = elim (Bool-cases (same k x)) [
    | inl t ↦ rw t (let q : n ≡ c = ground arith in rw q s, h.1)
    | inr t ↦ rw t (h.0, sound-map_kid x ks c (rw t at e) s h.1)
  ]

alter-name :
    (f : Node → Node)
    → ((n : Node) → (meta (f n)).name ≡ (meta n).name)
    → (at : Ptr) (n : Node) → (meta (alter f at n)).name ≡ (meta n).name
unfolding alter
alter-name f named [] n = named n
alter-name f named (x ∷ at) n = refl

leaf-map_kid : (x : Bytes) (f : Node → Node) (ks : Kids) → ks ≡ nil → map_kid x f ks ≡ nil
unfolding map_kid
leaf-map_kid x f ks h = rw h

-- A write that keeps the name of the node and its soundness keeps the tree sound.
pub IsSound-alter :
    (f : Node → Node)
    → ((n : Node) → (meta (f n)).name ≡ (meta n).name)
    → (at : Ptr) (root d : Node) → find at root ≡ some d
    → IsSound (f d)
    → IsSound root
    → IsSound (alter f at root)
unfolding find alter
IsSound-alter f named [] root d e s h = let q : root ≡ d = cc in rw q s
IsSound-alter f named (x ∷ at) (node m ks) d e s h = elim (Option-cases (lookup x ks)) [
  | inl t ↦ absurd (ground arith)
  | inr (r, t) ↦ (
    record {
      keyed = Keyed-map_kid (alter f at) (alter-name f named at) x ks h.0.keyed;
      leaf = λ l. leaf-map_kid x (alter f at) ks (h.0.leaf l);
      sized = h.0.sized;
      capped = h.0.capped;
    },
    sound-map_kid (alter f at) (alter-name f named at) x ks r t
        (IsSound-alter f named at r d (rw t at e) s (lookup-IsSound x ks r h.1 t)) h.1,
  )
]

Keyed-insert :
    (x : Bytes) (new : Node) (ks : Kids)
    → (meta new).name ≡ x
    → lookup x ks ≡ none
    → Keyed ks
    → Keyed (insert x new ks)
unfolding lookup insert
Keyed-insert x new nil n e h = (n, refl, tt)
Keyed-insert x new (cons k c ks) n e h = elim (Bool-cases (same k x)) [
  | inl t ↦ absurd (ground arith)
  | inr t ↦ rw t (
    h.0,
    ground (arith, lookup-insert x k new ks, same_iff k x, same_iff x k, h.1),
    Keyed-insert x new ks n (rw t at e) h.2,
  )
]

pub AreSound-insert :
    (x : Bytes) (new : Node) (ks : Kids) → IsSound new → AreSound ks → AreSound (insert x new ks)
unfolding insert
AreSound-insert x new nil s h = (s, tt)
AreSound-insert x new (cons k c ks) s h = elim (Bool-cases (same k x)) [
  | inl t ↦ rw t (s, h.1)
  | inr t ↦ rw t (h.0, AreSound-insert x new ks s h.1)
]

-- A directory stays sound when a sound node is linked under its name, or an entry is deleted.
pub IsSound-insert :
    (x : Bytes) (new d : Node)
    → (meta new).name ≡ x
    → child x d ≡ none
    → (meta d).is_dir ≡ true
    → IsSound new
    → IsSound d
    → IsSound (node (meta d) (insert x new (kids d)))
IsSound-insert x new (node m ks) n e dir s h = (
  record {
    keyed = Keyed-insert x new ks n e h.0.keyed;
    leaf = λ l. cc;
    sized = h.0.sized;
    capped = h.0.capped;
  },
  AreSound-insert x new ks s h.1,
)

pub lookup-delete-none :
    (x y : Bytes) (ks : Kids) → lookup y ks ≡ none → lookup y (delete x ks) ≡ none
unfolding lookup delete
lookup-delete-none x y nil h = refl
lookup-delete-none x y (cons k n ks) h =
    ground (arith, lookup-delete-none x y ks, same_iff k x, same_iff k y)

Keyed-delete : (x : Bytes) (ks : Kids) → Keyed ks → Keyed (delete x ks)
unfolding delete
Keyed-delete x nil h = tt
Keyed-delete x (cons k c ks) h = elim (Bool-cases (same k x)) [
  | inl t ↦ rw t h.2
  | inr t ↦ rw t (h.0, lookup-delete-none x k ks h.1, Keyed-delete x ks h.2)
]

AreSound-delete : (x : Bytes) (ks : Kids) → AreSound ks → AreSound (delete x ks)
unfolding delete
AreSound-delete x nil h = tt
AreSound-delete x (cons k c ks) h = elim (Bool-cases (same k x)) [
  | inl t ↦ rw t h.1
  | inr t ↦ rw t (h.0, AreSound-delete x ks h.1)
]

leaf-delete : (x : Bytes) (ks : Kids) → ks ≡ nil → delete x ks ≡ nil
unfolding delete
leaf-delete x ks h = rw h

pub IsSound-delete :
    (x : Bytes) (d : Node) → IsSound d → IsSound (node (meta d) (delete x (kids d)))
IsSound-delete x (node m ks) h = (
  record {
    keyed = Keyed-delete x ks h.0.keyed;
    leaf = λ l. leaf-delete x ks (h.0.leaf l);
    sized = h.0.sized;
    capped = h.0.capped;
  },
  AreSound-delete x ks h.1,
)
