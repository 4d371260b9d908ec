-- ===== src/Vfs/Tests.antt =====
-- A small file system, runs of the operations on it, and the theorems at inputs that they apply to.
use honeypot_go.Base.{
  ℕ, ◌+◌, ◌≡◌, refl, Bool, All, leb, ◌&&◌, true, false, none, some, List, [], ◌∷◌, Bytes, codes,
  arith, same,
}
use honeypot_go.Vfs.Tree.{
  protected, immutable, perm_writable, Meta, Node, node, nil, cons, find, lookup, insert, alter,
  map_kid, subtree_nodes, subtree_bytes,
}
use honeypot_go.Vfs.Walk.{locate_node, start, split_path, is_here, is_up, enter_step, steps}
use honeypot_go.Vfs.State.{FileSystem, max_total_bytes, no_such_file}
use honeypot_go.Vfs.Write.{
  locked_write, write_in, write_entry, write_content, mkdir, mkdir_loop, copy,
}
use honeypot_go.Vfs.Remove.{remove, rename, entry_of, under}
use honeypot_go.Vfs.Proc.{ProcClock, proc_content}
use honeypot_go.Vfs.Read.{ok, or_content, read_file}
use honeypot_go.Vfs.Account.{IsAccounted}
use honeypot_go.Vfs.RenameInside.{CountsLost, rename_inside-CountsLost}
use honeypot_go.Vfs.Ops.{
  Op, write, append, make_dir, unlink_one, copy_to, perform, run, run-IsAccounted,
}
use honeypot_go.Vfs.Atomic.{perform_error-unchanged}
use honeypot_go.Vfs.RoundTrip.{read_file-locked_write}
use honeypot_go.Vfs.MkdirUp.{mkdir_loop-up}
use honeypot_go.Vfs.Seed.{fnv_from}
use honeypot_go.Vfs.Letters.{attr_bit}
use honeypot_go.Vfs.Bootstrap.{Seed, seeds, new_file_system}
use honeypot_go.Vfs.Initial.{IsSmall, new_nodes, new_bytes, total_of, new_file_system-IsAccounted}
use honeypot_go.Vfs.State.{max_file_size, max_total_nodes, max_total_bytes}

abbrev pub dir_meta : Bytes → Meta
dir_meta name = record {
  name = name;
  is_dir = true;
  perm = codes "drwxrwxrwt";
  owner = codes "root";
  group = codes "root";
  size = 0;
  mtime = 0;
  content = [];
  attrs = 0;
}

abbrev tmp : Node
tmp = node (dir_meta (codes "tmp")) nil

abbrev pub small : FileSystem
small = record {
  root = node (dir_meta (codes "/")) (cons (codes "tmp") tmp nil);
  hostname = codes "ubuntu-web-01";
  total_bytes = 0;
  total_nodes = 2;
}

pub small-IsAccounted : IsAccounted small
unfolding subtree_nodes subtree_bytes lookup
small-IsAccounted = record {
  nodes_exact = refl;
  bytes_exact = refl;
  nodes_capped = omega arith;
  bytes_capped = omega arith;
  root_is_dir = refl;
  sound = (
    record { keyed = (refl, refl, tt); leaf = λ l. cc; sized = λ l. cc; capped = λ l. absurd (cc) },
    (
      (record { keyed = tt; leaf = λ l. refl; sized = λ l. refl; capped = λ l. omega arith }, tt),
      tt,
    ),
  );
}

abbrev script : List (ℕ × Op)
script =
    (1, write (codes "/tmp/a") (codes "hello"))
    ∷ (2, append (codes "/tmp/../tmp/a") (codes "!"))
    ∷ (3, make_dir (codes "/tmp/d/e") (codes "drwxr-xr-x") (codes "root") (codes "root"))
    ∷ (4, copy_to (codes "/tmp/a") (codes "/tmp/d/b"))
    ∷ (5, unlink_one (codes "/tmp/a"))
    ∷ []

script_counts : ((run script small).total_nodes ≡ 5) × ((run script small).total_bytes ≡ 6)
unfolding run locked_write write_in write_entry write_content mkdir copy remove find alter map_kid
    lookup insert
script_counts = (refl, refl)

run-IsAccounted_example : IsAccounted (run script small)
run-IsAccounted_example =
    run-IsAccounted script small (tt, (tt, (tt, (tt, (tt, tt))))) small-IsAccounted

remove_missing : (perform 1 (unlink_one (codes "/tmp/x")) small).1 ≡ some no_such_file
unfolding perform remove find lookup
remove_missing = refl

perform_error-unchanged_example : (perform 1 (unlink_one (codes "/tmp/x")) small).0 ≡ small
perform_error-unchanged_example =
    perform_error-unchanged 1 (unlink_one (codes "/tmp/x")) small no_such_file tt remove_missing

-- No byte is left for content.
abbrev full : FileSystem
full = record small { total_bytes = max_total_bytes }

abbrev clock : ProcClock
clock = record { uptime_line = []; boot_seconds = [] }

write_succeeds : (locked_write 1 (codes "/tmp/x") (codes "y") false small).1 ≡ none
unfolding locked_write write_in write_entry write_content find alter map_kid lookup insert
write_succeeds = refl

read_file-locked_write_example :
    read_file clock (locked_write 1 (codes "/tmp/x") (codes "y") false small).0 (codes "/tmp/x")
    ≡ ok (or_content (proc_content clock (codes "/tmp/x")) (codes "y"))
read_file-locked_write_example =
    read_file-locked_write clock 1 (codes "/tmp/x") (codes "y") false small refl write_succeeds

rename_inside-CountsLost_example :
    ((rename (codes "/tmp") (codes "/tmp/x") small).1 ≡ none)
    × CountsLost tmp (rename (codes "/tmp") (codes "/tmp/x") small).0
unfolding entry_of locate_node find lookup under protected immutable perm_writable
rename_inside-CountsLost_example =
    rename_inside-CountsLost (codes "/tmp") (codes "/tmp/x") small ([], codes "tmp", tmp)
      (codes "tmp" ∷ [], codes "x") small-IsAccounted refl refl refl refl refl refl refl

mkdir_loop-up_example :
    (mkdir_loop 1 (codes "tmp" ∷ codes ".." ∷ codes "x" ∷ []) start small
      ≡ mkdir_loop 1 (codes "x" ∷ []) (record { dir = codes "tmp" ∷ []; stack = [] }) small)
    × (steps (enter_step small.root) (codes "tmp" ∷ codes ".." ∷ codes "x" ∷ []) start
        ≡ steps (enter_step small.root) (codes "x" ∷ []) start)
unfolding is_here is_up lookup find same
mkdir_loop-up_example =
    mkdir_loop-up (codes "tmp") tmp start small refl refl refl refl 1 (codes "x" ∷ [])

fnv_of_a : fnv_from 2166136261 (codes "a") ≡ 3826002220
unfolding fnv_from
fnv_of_a = refl

abbrev users : List Bytes
users = codes "root" ∷ codes "alice" ∷ codes "www-data" ∷ []

abbrev all_small : List Seed → Bool
all_small [] = true
all_small (s ∷ ss) = leb (new_bytes s) max_file_size && all_small ss

all_small-IsSmall : (ss : List Seed) → all_small ss ≡ true → All IsSmall ss
all_small-IsSmall [] h = tt
all_small-IsSmall (s ∷ ss) h = (ground (arith, h), all_small-IsSmall ss (ground (arith, h)))

users_small : all_small (seeds (codes "srv") users) ≡ true
unfolding seeds
users_small = refl

users_nodes : leb (1 + total_of new_nodes (seeds (codes "srv") users)) max_total_nodes ≡ true
unfolding seeds split_path
users_nodes = refl

users_bytes : leb (total_of new_bytes (seeds (codes "srv") users)) max_total_bytes ≡ true
unfolding seeds
users_bytes = refl

new_file_system-IsAccounted_example : IsAccounted (new_file_system 0 (codes "srv") users)
new_file_system-IsAccounted_example =
    new_file_system-IsAccounted 0 (codes "srv") users
      (all_small-IsSmall (seeds (codes "srv") users) users_small) (ground (arith, users_nodes))
      (ground (arith, users_bytes))

i_bit : attr_bit b'i' ≡ some 16
unfolding attr_bit
i_bit = refl
