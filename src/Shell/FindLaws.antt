-- ===== src/Shell/FindLaws.antt =====
-- The number of the lines that `findCmd` of internal/shell/executor.go prints.
use honeypot_go.Base.{
  ℕ, suc, ◌≤◌, ◌≡◌, refl, Bool, ◌&&◌, not, Option, none, some, List, [], ◌∷◌, ◌++◌, Bytes, same,
  leb, ltb, length, Bool-cases, inl, inr, arith, either_branch,
}
use honeypot_go.Vfs.State.{FileSystem}
use honeypot_go.Vfs.Read.{FileInfo}
use honeypot_go.Vfs.Visits.{
  max_walk_nodes, Visit, entry, enter_dir, run_steps, walk_at, walk, dir_steps,
}
use honeypot_go.Vfs.Walk.{walk_path}
use honeypot_go.Vfs.Tree.{Ptr, deref, meta}
use honeypot_go.Shell.Dispatch.{abs_path}
use honeypot_go.Shell.Glob.{glob_match}
use honeypot_go.Shell.Find.{
  FindOptions, Found, is_wrong_type, shown_path, see_entry, find_roots, find_options, or_here,
  find_lines,
}

-- The lines are counted, and the count stays within the limit.
abbrev pub IsCounted : Found → Type 0
IsCounted st = (length st.1 ≡ st.0) × (st.0 ≤ 500)

length-end : (lines : List Bytes) (l : Bytes) → length (lines ++ l ∷ []) ≡ suc (length lines)
length-end [] l = refl
length-end (k ∷ lines) l = omega (arith, length-end lines l)

see_entry-IsCounted :
    (o : FindOptions) (prefix rel : Bytes) (fi : FileInfo) (st : Found)
    → IsCounted st
    → IsCounted (see_entry o prefix rel fi st).0
unfolding see_entry
see_entry-IsCounted o prefix rel fi (limit, lines) v = elim (Bool-cases (leb 500 limit)) [
  | inl t ↦ rw t v
  | inr t ↦ elim (Bool-cases (is_wrong_type o.use_type fi.is_dir)) [
    | inl u ↦ rw (t, u) v
    | inr u ↦ elim (Bool-cases (not (same o.pattern []) && not (glob_match o.pattern fi.name))) [
      | inl w ↦ rw (t, u, w) v
      | inr w ↦
          rw (t, u, w)
            (omega (arith, length-end lines (shown_path prefix rel), v.0), ground (arith, t))
    ]
  ]
]

module _ {S : Type 0} (P : S → Type 0) (see : Bytes → FileInfo → S → S × Bool)
    (keeps : (rel : Bytes) (fi : FileInfo) (s : S) → P s → P (see rel fi s).0) where
  run_steps-keeps :
      (steps : List Visit) (count : ℕ) (s : S) → P s → P (run_steps see steps count s).0
  unfolding run_steps
  run_steps-keeps [] count s v = v
  run_steps-keeps (entry path fi ∷ steps) count s v =
      let v1 = keeps path fi s v in
      either_branch (λ (r : S × Bool). P r.0) (see path fi s).1 _ _
        (run_steps-keeps steps count (see path fi s).0 v1) v1
  run_steps-keeps (enter_dir ∷ steps) count s v =
      either_branch (λ (r : S × Bool). P r.0) (ltb max_walk_nodes (suc count)) _ _ v
        (run_steps-keeps steps (suc count) s v)

  walk-keeps : (root : Bytes) (fs : FileSystem) (s : S) → P s → P (walk see root fs s).0
  unfolding walk
  walk-keeps root fs s v = at_keeps (walk_path fs.root root)
    where
      at_keeps : (o : Option Ptr) → P (walk_at see o fs s).0
      at_keeps none = v
      at_keeps (some at) =
          either_branch (λ (r : S × Bool). P r.0) (meta (deref fs.root at)).is_dir _ _
            (run_steps-keeps (dir_steps (deref fs.root at) []) 0 s v) v

find_roots-IsCounted :
    (o : FindOptions) (cwd : Bytes) (rs : List Bytes) (fs : FileSystem) (st : Found)
    → IsCounted st
    → IsCounted (find_roots o cwd rs fs st)
unfolding find_roots
find_roots-IsCounted o cwd [] fs st v = v
find_roots-IsCounted o cwd (r ∷ rs) fs st v =
    find_roots-IsCounted o cwd rs fs (walk (see_entry o r) (abs_path cwd r) fs st).0
      (walk-keeps IsCounted (see_entry o r) (see_entry-IsCounted o r) (abs_path cwd r) fs st v)

-- find prints at most 500 lines, whatever it is asked for and however many places it starts from.
pub find_lines-bound :
    (cwd : Bytes) (args : List Bytes) (fs : FileSystem) → length (find_lines cwd args fs) ≤ 500
unfolding find_lines
find_lines-bound cwd args fs =
    let o = find_options args (record { roots = []; pattern = []; use_type = [] }) in
    let v = find_roots-IsCounted o cwd (or_here o.roots) fs (0, []) (refl, omega arith) in
    omega (arith, v.0, v.1)
