-- ===== src/Vfs/MkdirBudget.antt =====
-- `Mkdir` and its loop under the invariant of Vfs/Account.
use honeypot_go.Base.{
  ℕ, ◌≡◌, refl, Option, none, some, List, [], ◌∷◌, ◌++◌, arith, Bytes, Bool-cases, inl, inr, leb,
  All,
}
use honeypot_go.Vfs.Tree.{
  Node, meta, child, Ptr, find, deref, subtree_nodes, subtree_bytes, immutable, perm_writable,
}
use honeypot_go.Vfs.Walk.{Cursor, start, is_here, is_up, split_path}
use honeypot_go.Vfs.State.{FileSystem, max_total_nodes}
use honeypot_go.Vfs.Write.{
  link, new_dir, Progress, and_then, mkdir_entry, mkdir_step, mkdir_loop, mkdir_end, mkdir_parts,
  mkdir,
}
use honeypot_go.Vfs.Laws.{find-concat, find-insert_self, find-link}
use honeypot_go.Vfs.Sound.{IsSound}
use honeypot_go.Vfs.Reach.{IsDirAt, GoodCursor, pop-Good, find-deref}
use honeypot_go.Vfs.Account.{IsAccounted, IsCosmetic, cosmetic-IsAccounted}
use honeypot_go.Vfs.WriteBudget.{link-IsAccounted}

abbrev IsGood : Progress → Type 0
IsGood (fs, inl c) = IsAccounted fs × GoodCursor (IsDirAt fs.root) c
IsGood (fs, inr e) = IsAccounted fs

new_dir-IsSound : (now : ℕ) (name : Bytes) → IsSound (new_dir now name)
new_dir-IsSound now name =
    (record { keyed = tt; leaf = λ l. refl; sized = λ l. cc; capped = λ l. absurd (cc) }, tt)

module _ (now : ℕ) (seg : Bytes) (fs : FileSystem) (dir : Ptr) (d : Node)
    (e : find dir fs.root ≡ some d) (none_yet : child seg d ≡ none) where
  IsDirAt-link : (q : Ptr) → IsDirAt fs.root q → IsDirAt (link dir seg (new_dir now seg) fs).root q
  IsDirAt-link q (t, h, r) =
      let (t', h', m) = find-link seg (new_dir now seg) dir fs.root d e none_yet q t h in
      (t', h', rw m r)

  All-link :
      (qs : List Ptr)
      → All (IsDirAt fs.root) qs
      → All (IsDirAt (link dir seg (new_dir now seg) fs).root) qs
  All-link [] h = tt
  All-link (q ∷ qs) h = (IsDirAt-link q h.0, All-link qs h.1)

mkdir_entry-IsGood :
    (now : ℕ) (seg : Bytes) (c : Cursor) (o : Option Node) (fs : FileSystem)
    → child seg (deref fs.root c.dir) ≡ o
    → IsAccounted fs
    → GoodCursor (IsDirAt fs.root) c
    → IsGood (mkdir_entry now seg c o fs)
mkdir_entry-IsGood now seg c (some n) fs k v g = elim (Bool-cases (meta n).is_dir) [
  | inr t ↦ rw t v
  | inl t ↦ rw t (
      let here : IsDirAt fs.root (c.dir ++ seg ∷ []) = (
        n,
        find-concat c.dir seg fs.root (deref fs.root c.dir) n
            (find-deref fs.root c.dir (g.0.0, g.0.1)) k,
        t,
      ) in
      (v, (here, (here, g.1))))
]
mkdir_entry-IsGood now seg c none fs k v g =
    elim (Bool-cases (immutable (meta (deref fs.root c.dir)))) [
      | inl i ↦ rw i v
      | inr i ↦ rw i (elim (Bool-cases (perm_writable (meta (deref fs.root c.dir)).perm)) [
        | inr w ↦ rw w v
        | inl w ↦ rw w (elim (Bool-cases (leb max_total_nodes fs.total_nodes)) [
          | inl full ↦ rw full v
          | inr room ↦ rw room (
            link-IsAccounted now seg c.dir fs (new_dir now seg) d e (rw (← same_d) g.0.2) k
                (ground arith) (unfold subtree_nodes in refl) (unfold subtree_bytes in refl) refl
                (new_dir-IsSound now seg) v,
            (
              (new_dir now seg, find-insert_self seg (new_dir now seg) c.dir fs.root d e, refl),
              (
                IsDirAt-link now seg fs c.dir d e k c.dir g.0,
                All-link now seg fs c.dir d e k c.stack g.1,
              ),
            ),
          )
        ])
      ])
    ]
  where
    d : Node
    d = deref fs.root c.dir

    e : find c.dir fs.root ≡ some d
    e = find-deref fs.root c.dir (g.0.0, g.0.1)

    same_d : g.0.0 ≡ d
    same_d = rw (g.0.1)

mkdir_step-IsGood :
    (now : ℕ) (seg : Bytes) (c : Cursor) (fs : FileSystem)
    → IsAccounted fs
    → GoodCursor (IsDirAt fs.root) c
    → IsGood (mkdir_step now seg c fs)
unfolding mkdir_step
mkdir_step-IsGood now seg c fs v g = elim (Bool-cases (is_here seg)) [
  | inl h ↦ rw h (v, g)
  | inr h ↦ rw h (elim (Bool-cases (is_up seg)) [
    | inl u ↦ rw u (v, pop-Good (IsDirAt fs.root) c.stack c.dir g.0 g.1)
    | inr u ↦ rw u (mkdir_entry-IsGood now seg c (child seg (deref fs.root c.dir)) fs refl v g)
  ])
]

and_then-IsGood :
    (p : Progress) (f : Cursor → FileSystem → Progress)
    → IsGood p
    → ((c : Cursor) (fs : FileSystem)
        → IsAccounted fs
        → GoodCursor (IsDirAt fs.root) c
        → IsGood (f c fs))
    → IsGood (and_then p f)
and_then-IsGood (fs, inl c) f g h = h c fs g.0 g.1
and_then-IsGood (fs, inr e) f g h = g

mkdir_loop-IsGood :
    (now : ℕ) (segs : List Bytes) (c : Cursor) (fs : FileSystem)
    → IsAccounted fs
    → GoodCursor (IsDirAt fs.root) c
    → IsGood (mkdir_loop now segs c fs)
unfolding mkdir_loop
mkdir_loop-IsGood now [] c fs v g = (v, g)
mkdir_loop-IsGood now (seg ∷ segs) c fs v g =
    and_then-IsGood (mkdir_step now seg c fs) (mkdir_loop now segs)
      (mkdir_step-IsGood now seg c fs v g) (mkdir_loop-IsGood now segs)

owned-IsCosmetic :
    (perm owner group : Bytes)
    → IsCosmetic (λ m. record m { perm = perm; owner = owner; group = group })
owned-IsCosmetic perm owner group = record {
  name = λ m. refl;
  is_dir = λ m. refl;
  size = λ m. refl;
  content = λ m. refl;
}

mkdir_end-IsAccounted :
    (perm owner group : Bytes) (p : Progress)
    → IsGood p
    → IsAccounted (mkdir_end perm owner group p).0
mkdir_end-IsAccounted perm owner group (fs, inl c) g =
    cosmetic-IsAccounted (λ m. record m { perm = perm; owner = owner; group = group })
      (owned-IsCosmetic perm owner group) c.dir fs (g.1.0.0, g.1.0.1) g.0
mkdir_end-IsAccounted perm owner group (fs, inr e) g = g

mkdir_parts-IsAccounted :
    (now : ℕ) (segs : List Bytes) (perm owner group : Bytes) (fs : FileSystem)
    → IsAccounted fs
    → IsAccounted (mkdir_parts now segs perm owner group fs).0
unfolding find
mkdir_parts-IsAccounted now [] perm owner group fs v = v
mkdir_parts-IsAccounted now (seg ∷ segs) perm owner group fs v =
    mkdir_end-IsAccounted perm owner group (mkdir_loop now (seg ∷ segs) start fs)
      (mkdir_loop-IsGood now (seg ∷ segs) start fs v ((fs.root, refl, v.root_is_dir), tt))

pub mkdir-IsAccounted :
    (now : ℕ) (path perm owner group : Bytes) (fs : FileSystem)
    → IsAccounted fs
    → IsAccounted (mkdir now path perm owner group fs).0
unfolding mkdir
mkdir-IsAccounted now path perm owner group fs v =
    mkdir_parts-IsAccounted now (split_path path) perm owner group fs v
