-- ===== src/Vfs/PathLaws.antt =====
-- The segments of a path, and a second walk along a path that `lockedWrite` has gone.
use honeypot_go.Base.{
  ℕ, ◌≡◌, ◌≢◌, refl, ap, ◌∙◌, Bool, false, Option, none, some, List, [], ◌∷◌, ◌++◌, arith,
  if◌then◌else◌, Bytes, same, trim_left, trim_right, trim_onto, split, push_front, put_first,
  split_last, bind, Bool-cases, Option-cases, inl, inr, ◌==◌,
}
use honeypot_go.Vfs.Tree.{Node, child, Ptr, deref}
use honeypot_go.Vfs.Walk.{Cursor, is_here, is_up, walk_step, enter_step, steps, split_path}
use honeypot_go.Vfs.Laws.{find-concat, find-concat_inv}
use honeypot_go.Vfs.Reach.{IsAt, IsDirAt, GoodCursor, GoodOption, enter_step-Good, find-deref}

module _ {ℓ} {A : Type ℓ} where
  split_last-none : (xs : List A) → split_last xs ≡ none → xs ≡ []
  split_last-none [] h = refl
  split_last-none (x ∷ xs) h = full (split_last xs) h
    where
      full : (o : Option (List A × A)) → put_first x o ≡ none → x ∷ xs ≡ []
      full none h = cc
      full (some (ys, y)) h = cc

  pub split_last-append :
      (xs ys : List A) (y : A) → split_last xs ≡ some (ys, y) → xs ≡ ys ++ y ∷ []
  split_last-append [] ys y h = cc
  split_last-append (x ∷ xs) ys y h = inner (split_last xs) refl (split_last-append xs) h
    where
      inner :
          (o : Option (List A × A))
          → split_last xs ≡ o
          → ((zs : List A) (z : A) → split_last xs ≡ some (zs, z) → xs ≡ zs ++ z ∷ [])
          → put_first x o ≡ some (ys, y)
          → x ∷ xs ≡ ys ++ y ∷ []
      inner none e ih h =
          let p : [] ≡ ys = cc in let q : x ≡ y = cc in rw (← p, ← q, split_last-none xs e)
      inner (some (zs, z)) e ih h =
          let p : x ∷ zs ≡ ys = cc in
          let q : z ≡ y = cc in rw (← p, ← q) (ap (λ (l : List A). x ∷ l) (ih zs z e))

pub steps-append :
    (f : Bytes → Cursor → Option Cursor) (xs ys : List Bytes) (c : Cursor)
    → steps f (xs ++ ys) c ≡ bind (steps f xs c) (steps f ys)
unfolding steps
steps-append f [] ys c = refl
steps-append f (x ∷ xs) ys c = elim (Option-cases (f x c)) [
  | inl e ↦ rw e
  | inr (c', e) ↦ rw e (steps-append f xs ys c')
]

-- A text that ends in the byte `sep`.
abbrev ends : ℕ → Bytes → Bool
ends sep [] = false
ends sep (x ∷ []) = x == sep
ends sep (x ∷ y ∷ ys) = ends sep (y ∷ ys)

ends-trim_right : (sep : ℕ) (s : Bytes) → ends sep (trim_right sep s) ≡ false
unfolding trim_right
ends-trim_right sep [] = refl
ends-trim_right sep (x ∷ xs) = onto (trim_right sep xs) (ends-trim_right sep xs)
  where
    onto : (t : Bytes) → ends sep t ≡ false → ends sep (trim_onto sep x t) ≡ false
    onto [] h = ground arith
    onto (y ∷ ys) h = h

-- The last of the fields of a text that does not end in the separator is not empty.
abbrev LastNonempty : List Bytes → Type 0
LastNonempty [] = ⊥
LastNonempty (f ∷ []) = f ≢ []
LastNonempty (f ∷ g ∷ gs) = LastNonempty (g ∷ gs)

push_front-LastNonempty :
    (c : ℕ) (fs : List Bytes) → LastNonempty fs → LastNonempty (push_front c fs)
push_front-LastNonempty c [] h = absurd h
push_front-LastNonempty c (f ∷ []) h = λ e. cc
push_front-LastNonempty c (f ∷ g ∷ gs) h = h

skip-LastNonempty : (fs : List Bytes) → LastNonempty fs → LastNonempty ([] ∷ fs)
skip-LastNonempty [] h = absurd h
skip-LastNonempty (f ∷ fs) h = h

split-LastNonempty :
    (sep c : ℕ) (s : Bytes) → ends sep (c ∷ s) ≡ false → LastNonempty (split sep (c ∷ s))
unfolding split
split-LastNonempty sep c [] h = rw h (λ e. cc)
split-LastNonempty sep c (d ∷ s) h =
    let rest = split-LastNonempty sep d s h in
    elim (Bool-cases (c == sep)) [
      | inl t ↦ rw t (skip-LastNonempty (split sep (d ∷ s)) rest)
      | inr t ↦ rw t (push_front-LastNonempty c (split sep (d ∷ s)) rest)
    ]

split_last-nonempty :
    (fs ds : List Bytes) (n : Bytes) → LastNonempty fs → split_last fs ≡ some (ds, n) → n ≢ []
split_last-nonempty [] ds n l h = absurd l
split_last-nonempty (f ∷ []) ds n l h = let p : f ≡ n = cc in λ e. l (p ∙ e)
split_last-nonempty (f ∷ g ∷ gs) ds n l h =
    inner (split_last (g ∷ gs)) refl h (split_last-nonempty (g ∷ gs))
  where
    inner :
        (o : Option (List Bytes × Bytes))
        → split_last (g ∷ gs) ≡ o
        → put_first f o ≡ some (ds, n)
        → ((es : List Bytes) (m : Bytes)
            → LastNonempty (g ∷ gs)
            → split_last (g ∷ gs) ≡ some (es, m)
            → m ≢ [])
        → n ≢ []
    inner none e h ih = cc (split_last-none (g ∷ gs) e)
    inner (some (es, m)) e h ih = let p : m ≡ n = cc in rw (← p) (ih es m l e)

pub split_path-nonempty :
    (path : Bytes) (ds : List Bytes) (n : Bytes)
    → split_last (split_path path) ≡ some (ds, n)
    → n ≢ []
unfolding split_path
split_path-nonempty path ds n h =
    clean (trim_right b'/' (trim_left b'/' path)) (ends-trim_right b'/' (trim_left b'/' path)) h
  where
    clean :
        (s : Bytes)
        → ends b'/' s ≡ false
        → split_last (if same s [] then [] else split b'/' s) ≡ some (ds, n)
        → n ≢ []
    clean [] e g = cc
    clean (c ∷ s) e g =
        split_last-nonempty (split b'/' (c ∷ s)) ds n (split-LastNonempty b'/' c s e) g

module _ (root root' : Node) (alive : (q : Ptr) → IsAt root q → IsAt root' q) where
  child-alive :
      (c : Cursor) (p : Bytes) (n : Node)
      → IsAt root c.dir
      → child p (deref root c.dir) ≡ some n
      → (m : Node) × (child p (deref root' c.dir) ≡ some m)
  child-alive c p n g e =
      let (m, h) =
        alive (c.dir ++ p ∷ [])
          (n, find-concat c.dir p root (deref root c.dir) n (find-deref root c.dir g) e) in
      (
        m,
        find-concat_inv c.dir p root' (deref root' c.dir) m (find-deref root' c.dir (alive c.dir g))
            h,
      )

  walk_step-alive :
      (p : Bytes) (c c' : Cursor)
      → GoodCursor (IsDirAt root) c
      → enter_step root p c ≡ some c'
      → walk_step root' p c ≡ some c'
  unfolding walk_step enter_step
  walk_step-alive p c c' g e = elim (Bool-cases (is_here p)) [
    | inl h ↦ rw h (rw h at e)
    | inr h ↦ elim (Bool-cases (is_up p)) [
      | inl u ↦ rw (h, u) (rw (h, u) at e)
      | inr u ↦ elim (Option-cases (child p (deref root c.dir))) [
        | inl k ↦ absurd (ground arith)
        | inr (n, k) ↦ let (m, l) = child-alive c p n (g.0.0, g.0.1) k in ground arith
      ]
    ]
  ]

  pub steps-alive :
      (ps : List Bytes) (c c' : Cursor)
      → GoodCursor (IsDirAt root) c
      → steps (enter_step root) ps c ≡ some c'
      → steps (walk_step root') ps c ≡ some c'
  unfolding steps
  steps-alive [] c c' g e = e
  steps-alive (p ∷ ps) c c' g e = elim (Option-cases (enter_step root p c)) [
    | inl k ↦ absurd (ground arith)
    | inr (d, k) ↦
        let good : GoodCursor (IsDirAt root) d = good_of (enter_step-Good root p c g) k in
        rw (walk_step-alive p c d g k) (steps-alive ps d c' good (rw k at e))
  ]
    where
      good_of :
          {o : Option Cursor} {d : Cursor}
          → GoodOption (IsDirAt root) o
          → o ≡ some d
          → GoodCursor (IsDirAt root) d
      good_of {o} h k = rw k at h
