-- ===== src/Vfs/Reach.antt =====
-- Every pointer that the loops of Vfs/Walk form is reachable, and stays so while nodes are linked.
use honeypot_go.Base.{
  ◌≡◌, refl, true, Option, none, some, List, [], ◌∷◌, arith, if◌then◌else◌, Bytes, bind,
  Option-cases, Bool-cases, inl, inr, split_last, ap, All, ◌∙◌,
}
use honeypot_go.Vfs.Tree.{Node, meta, child, Ptr, find, deref}
use honeypot_go.Vfs.Walk.{
  Cursor, start, pop, push, is_here, is_up, walk_step, enter_step, steps, walk_path, enter_dirs,
  locate_last, locate_node, split_path,
}
use honeypot_go.Vfs.Laws.{find-concat}

-- The pointer leads to a node.
abbrev pub IsAt : Node → Ptr → Type 0
IsAt root at = (d : Node) × (find at root ≡ some d)

-- The pointer leads to a directory.
abbrev pub IsDirAt : Node → Ptr → Type 0
IsDirAt root at = (d : Node) × (find at root ≡ some d) × ((meta d).is_dir ≡ true)

pub find-deref : (root : Node) (at : Ptr) → IsAt root at → find at root ≡ some (deref root at)
find-deref root at (d, e) = e ∙ ap (λ (x : Node). some x) (sym_deref)
  where
    sym_deref : d ≡ deref root at
    sym_deref = rw e

module _ (Good : Ptr → Type 0) where
  abbrev pub GoodCursor : Cursor → Type 0
  GoodCursor c = Good c.dir × All Good c.stack

  abbrev pub GoodOption : Option Cursor → Type 0
  GoodOption none = Unit {0}
  GoodOption (some c) = GoodCursor c

  pub pop-Good :
      (stack : List Ptr) (dir : Ptr) → Good dir → All Good stack → GoodCursor (pop stack dir)
  pop-Good [] dir g a = (g, tt)
  pop-Good (up ∷ rest) dir g a = (a.0, a.1)

  pub steps-Good :
      (f : Bytes → Cursor → Option Cursor)
      → ((p : Bytes) (c : Cursor) → GoodCursor c → GoodOption (f p c))
      → (ps : List Bytes) (c : Cursor) → GoodCursor c
      → GoodOption (steps f ps c)
  unfolding steps
  steps-Good f step [] c g = g
  steps-Good f step (p ∷ ps) c g = go (f p c) (step p c g) (λ c' g'. steps-Good f step ps c' g')
    where
      go :
          (o : Option Cursor)
          → GoodOption o
          → ((c : Cursor) → GoodCursor c → GoodOption (steps f ps c))
          → GoodOption (bind o (steps f ps))
      go none h k = tt
      go (some c) h k = k c h

module _ (root : Node) where
  walk_step-Good :
      (p : Bytes) (c : Cursor)
      → GoodCursor (IsAt root) c
      → GoodOption (IsAt root) (walk_step root p c)
  unfolding walk_step
  walk_step-Good p c g = elim (Bool-cases (is_here p)) [
    | inl h ↦ rw h g
    | inr h ↦ rw h (elim (Bool-cases (is_up p)) [
      | inl u ↦ rw u (pop-Good (IsAt root) c.stack c.dir g.0 g.1)
      | inr u ↦ rw u (next (child p (deref root c.dir)) refl)
    ])
  ]
    where
      next :
          (o : Option Node)
          → child p (deref root c.dir) ≡ o
          → GoodOption (IsAt root) (elim o [ none ↦ none | some n ↦ some (push p c) ])
      next none e = tt
      next (some n) e = (
        (n, find-concat c.dir p root (deref root c.dir) n (find-deref root c.dir g.0) e),
        (g.0, g.1),
      )

  abbrev dir_at : (at : Ptr) → IsDirAt root at → IsAt root at
  dir_at at g = (g.0, g.1)

  pub enter_step-Good :
      (p : Bytes) (c : Cursor)
      → GoodCursor (IsDirAt root) c
      → GoodOption (IsDirAt root) (enter_step root p c)
  unfolding enter_step
  enter_step-Good p c g = elim (Bool-cases (is_here p)) [
    | inl h ↦ rw h g
    | inr h ↦ rw h (elim (Bool-cases (is_up p)) [
      | inl u ↦ rw u (pop-Good (IsDirAt root) c.stack c.dir g.0 g.1)
      | inr u ↦ rw u (next (child p (deref root c.dir)) refl)
    ])
  ]
    where
      next :
          (o : Option Node)
          → child p (deref root c.dir) ≡ o
          → GoodOption
              (IsDirAt root)
              (elim o [ none ↦ none | some n ↦ if (meta n).is_dir then some (push p c) else none ])
      next none e = tt
      next (some n) e = elim (Bool-cases (meta n).is_dir) [
        | inl t ↦ rw t (
          (
            n,
            find-concat c.dir p root (deref root c.dir) n (find-deref root c.dir (dir_at c.dir g.0))
                e,
            t,
          ),
          (g.0, g.1),
        )
        | inr t ↦ rw t tt
      ]

  pub walk_path-IsAt : (path : Bytes) (at : Ptr) → walk_path root path ≡ some at → IsAt root at
  unfolding walk_path find
  walk_path-IsAt path at e =
      let s = steps (walk_step root) (split_path path) start in
      go s
        (steps-Good (IsAt root) (walk_step root) walk_step-Good (split_path path) start
          ((root, refl), tt))
        e
    where
      go :
          (o : Option Cursor)
          → GoodOption (IsAt root) o
          → bind o (λ c. some c.dir) ≡ some at
          → IsAt root at
      go none h e = absurd (cc)
      go (some c) h e = let q : c.dir ≡ at = cc in rw (← q) h.0

  pub enter_dirs-IsDirAt :
      (dirs : List Bytes) (at : Ptr)
      → (meta root).is_dir ≡ true
      → enter_dirs root dirs ≡ some at
      → IsDirAt root at
  unfolding enter_dirs find
  enter_dirs-IsDirAt dirs at r e =
      go (steps (enter_step root) dirs start)
        (steps-Good (IsDirAt root) (enter_step root) enter_step-Good dirs start
          ((root, refl, r), tt))
        e
    where
      go :
          (o : Option Cursor)
          → GoodOption (IsDirAt root) o
          → bind o (λ c. some c.dir) ≡ some at
          → IsDirAt root at
      go none h e = absurd (cc)
      go (some c) h e = let q : c.dir ≡ at = cc in rw (← q) h.0

  pub locate_node-IsDirAt :
      (path : Bytes) (at : Ptr) (name : Bytes)
      → (meta root).is_dir ≡ true
      → locate_node root path ≡ some (at, name)
      → IsDirAt root at
  unfolding locate_node
  locate_node-IsDirAt path at name r e = go (split_last (split_path path)) e
    where
      go :
          (o : Option (List Bytes × Bytes))
          → bind o (locate_last root) ≡ some (at, name)
          → IsDirAt root at
      go none e = absurd (cc)
      go (some (dirs, l)) e = elim (Option-cases (enter_dirs root dirs)) [
        | inl t ↦ absurd (ground arith)
        | inr (d, t) ↦ enter_dirs-IsDirAt dirs at r (ground arith)
      ]
