-- ===== src/Vfs/Walk.antt =====
-- `splitPath`, `walkPath` and `locateNode` of internal/vfs/vfs.go. The loops carry the current
-- node and a stack of the parents, both as pointers.
use honeypot_go.Base.{
  Bool, ◌||◌, Option, none, some, List, [], ◌∷◌, ◌++◌, if◌then◌else◌, Bytes, codes, same, trim_left,
  trim_right, split, split_last, bind,
}
use honeypot_go.Vfs.Tree.{Node, Ptr, meta, child, deref}

unfoldable pub split_path : Bytes → List Bytes
unfolding same trim_left trim_right split
split_path path =
    let clean = trim_right b'/' (trim_left b'/' path) in
    if same clean [] then [] else split b'/' clean

-- The two cases of the loops' `switch`.
unfoldable pub is_here : Bytes → Bool
is_here p = same p (codes ".") || same p []

unfoldable pub is_up : Bytes → Bool
is_up p = same p (codes "..")

pub record Cursor : Type 0 where
  pub dir : Ptr
  pub stack : List Ptr

abbrev pub start : Cursor
start = record { dir = []; stack = [] }

-- ".." takes the parent off the stack, and stays where the stack is empty.
abbrev pub pop : List Ptr → Ptr → Cursor
pop [] dir = record { dir = dir; stack = [] }
pop (up ∷ rest) dir = record { dir = up; stack = rest }

abbrev pub push : Bytes → Cursor → Cursor
push p c = record { dir = c.dir ++ p ∷ []; stack = c.dir ∷ c.stack }

-- One segment of `walkPath`: the next node must exist.
unfoldable pub walk_step : Node → Bytes → Cursor → Option Cursor
unfolding is_here is_up
walk_step root p c =
    if is_here p
    then some c
    else if is_up p
    then some (pop c.stack c.dir)
    else elim (child p (deref root c.dir)) [ none ↦ none | some n ↦ some (push p c) ]

-- One segment of `locateNode` and of `lockedWrite`: the next node must be a directory.
unfoldable pub enter_step : Node → Bytes → Cursor → Option Cursor
unfolding is_here is_up
enter_step root p c =
    if is_here p
    then some c
    else if is_up p
    then some (pop c.stack c.dir)
    else elim (child p (deref root c.dir)) [
      | none ↦ none
      | some n ↦ if (meta n).is_dir then some (push p c) else none
    ]

unfoldable pub steps : (Bytes → Cursor → Option Cursor) → List Bytes → Cursor → Option Cursor
steps f [] c = some c
steps f (p ∷ ps) c = bind (f p c) (steps f ps)

-- `walkPath` and `resolve`
unfoldable pub walk_path : Node → Bytes → Option Ptr
unfolding split_path walk_step steps
walk_path root path = bind (steps (walk_step root) (split_path path) start) (λ c. some c.dir)

-- `lockedWrite` looks at the last segment itself, after the directory has been checked.
unfoldable pub enter_dirs : Node → List Bytes → Option Ptr
unfolding enter_step steps
enter_dirs root dirs = bind (steps (enter_step root) dirs start) (λ c. some c.dir)

unfoldable pub is_dots : Bytes → Bool
is_dots name = same name (codes ".") || same name (codes "..")

abbrev pub locate_last : Node → List Bytes × Bytes → Option (Ptr × Bytes)
locate_last root (dirs, name) =
    bind (enter_dirs root dirs) (λ dir. if is_dots name then none else some (dir, name))

unfoldable pub locate_node : Node → Bytes → Option (Ptr × Bytes)
unfolding split_path enter_dirs is_dots
locate_node root path = bind (split_last (split_path path)) (locate_last root)
