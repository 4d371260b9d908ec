-- ===== src/Vfs/State.antt =====
-- `FileSystem` of internal/vfs/vfs.go, its errors, its limits and `recountUsage`.
use honeypot_go.Base.{ℕ, ◌*◌, ◌^◌, Option, none, some, Bytes}
use honeypot_go.Vfs.Tree.{Node, Ptr, alter, subtree_nodes, subtree_bytes}

abbrev pub max_total_bytes : ℕ
max_total_bytes = 2 * 2 ^ 30

abbrev pub max_total_nodes : ℕ
max_total_nodes = 200000

abbrev pub max_file_size : ℕ
max_file_size = 64 * 2 ^ 20

pub record FileSystem : Type 0 where
  pub root : Node
  pub hostname : Bytes
  pub total_bytes : ℕ  -- int64
  pub total_nodes : ℕ  -- int64

-- The `error` values, one constructor for each message. `not_permitted` is `ErrNotPermitted`.
pub data FsError : Type 0 where
  no_such_file : FsError
  no_such_directory : FsError
  not_a_directory : FsError
  is_a_directory : FsError
  invalid_path : FsError
  invalid_mode : FsError
  not_permitted : FsError
  directory_not_empty : FsError
  permission_denied : FsError
  read_only_directory : Bytes → FsError
  read_only_file : Bytes → FsError
  directory_exists : Bytes → FsError
  cannot_overwrite : FsError
  cannot_overwrite_file : FsError
  exceeds_max_size : Bytes → FsError
  node_limit_reached : FsError
  capacity_limit_reached : FsError

-- A method returns the new state and its `error`; `none` is `nil`. What a method wrote before it
-- failed stays written.
abbrev pub Outcome : Type 0
Outcome = FileSystem × Option FsError

abbrev pub fail : FileSystem → FsError → Outcome
fail fs e = (fs, some e)

abbrev pub done : FileSystem → Outcome
done fs = (fs, none)

-- A lookup that may fail, with the error of the early return.
abbrev pub found {ℓ} : {A : Type ℓ} → FileSystem → FsError → Option A → (A → Outcome) → Outcome
found fs e none k = fail fs e
found fs e (some a) k = k a

abbrev pub edit : (Node → Node) → Ptr → FileSystem → FileSystem
edit f at fs = record fs { root = alter f at fs.root }

unfoldable pub recount_usage : FileSystem → FileSystem
recount_usage fs = record fs {
  total_bytes = subtree_bytes fs.root;
  total_nodes = subtree_nodes fs.root;
}
