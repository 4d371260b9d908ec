-- ===== src/Vfs/Visits.antt =====
-- `Walk` of internal/vfs/vfs.go. The walk is laid out as the list of its steps first: an entry that the
-- callback sees, or a directory that is entered and counted. A callback that answers false, and a
-- directory beyond the limit, end the whole walk, so that the steps stop there.
use honeypot_go.Base.{
  ℕ, suc, Bool, true, false, Option, none, some, List, [], ◌∷◌, ◌++◌, if◌then◌else◌, Bytes, same,
  ltb,
}
use honeypot_go.Base.Order.{sort_by}
use honeypot_go.Vfs.Tree.{Node, Kids, node, nil, cons, meta, deref, Ptr}
use honeypot_go.Vfs.Walk.{walk_path}
use honeypot_go.Vfs.State.{FileSystem}
use honeypot_go.Vfs.Read.{FileInfo, info}

abbrev pub max_walk_nodes : ℕ
max_walk_nodes = 20000

pub data Visit : Type 0 where
  entry : Bytes → FileInfo → Visit
  enter_dir : Visit

-- The steps for each child, under its name.
abbrev pub Block : Type 0
Block = Bytes × List Visit

abbrev pub concat_blocks : List Block → List Visit
concat_blocks [] = []
concat_blocks ((name, steps) ∷ bs) = steps ++ concat_blocks bs

abbrev pub block_name : Block → Bytes
block_name b = b.0

abbrev pub child_rel : Bytes → Bytes → Bytes
child_rel rel name = if same rel [] then name else rel ++ (b'/' ∷ name)

unfoldable mutual
  unfolding sort_by same

  pub dir_steps : Node → Bytes → List Visit
  dir_steps (node m ks) rel = enter_dir ∷ concat_blocks (sort_by block_name (kid_blocks ks rel))

  pub kid_blocks : Kids → Bytes → List Block
  kid_blocks nil rel = []
  kid_blocks (cons name n ks) rel =
      let path = child_rel rel name in
      let below = dir_steps n path in
      (name, entry path (info (meta n)) ∷ (if (meta n).is_dir then below else []))
      ∷ kid_blocks ks rel

module _ {S : Type 0} (see : Bytes → FileInfo → S → S × Bool) where
  -- The state of the callback behind the walk, and whether the walk came to its end.
  unfoldable pub run_steps : List Visit → ℕ → S → S × Bool
  run_steps [] count s = (s, true)
  run_steps (entry path fi ∷ steps) count s =
      let (s1, goes_on) = see path fi s in
      let rest = run_steps steps count s1 in if goes_on then rest else (s1, false)
  run_steps (enter_dir ∷ steps) count s =
      let rest = run_steps steps (suc count) s in
      if ltb max_walk_nodes (suc count) then (s, false) else rest

  abbrev pub walk_at : Option Ptr → FileSystem → S → S × Bool
  walk_at none fs s = (s, false)
  walk_at (some at) fs s =
      let n = deref fs.root at in
      if (meta n).is_dir then run_steps (dir_steps n []) 0 s else (s, false)

  unfoldable pub walk : Bytes → FileSystem → S → S × Bool
  unfolding run_steps dir_steps walk_path
  walk root fs s = walk_at (walk_path fs.root root) fs s
