-- ===== src/Shell/FileTests.antt =====
-- Runs of the commands that change files, and the theorems at inputs that they apply to.
use honeypot_go.Base.{◌≡◌, refl, false, [], ◌∷◌, ◌++◌, Bytes, codes, has_prefix}
use honeypot_go.Vfs.Tree.{Node, protected, node, nil, cons, lookup, find, attr_immutable}
use honeypot_go.Vfs.Proc.{ProcClock}
use honeypot_go.Vfs.State.{FileSystem}
use honeypot_go.Vfs.Account.{IsAccounted}
use honeypot_go.Vfs.Remove.{entry_of}
use honeypot_go.Vfs.Tests.{small, small-IsAccounted, dir_meta}
use honeypot_go.Shell.Files.{rm_cmd, targets_of}
use honeypot_go.Shell.Dispatch.{abs_path}
use honeypot_go.Shell.FileCommands.{touch_files, run_file_command, run_file_command-IsAccounted}
use honeypot_go.Shell.RmProtected.{refusals, rm_cmd-protected}

abbrev clock : ProcClock
clock = record { uptime_line = []; boot_seconds = [] }

abbrev plain : Bytes → Bytes
plain s = 34 ∷ s ++ 34 ∷ []

abbrev key_file : Node
key_file =
    node
      record {
        name = codes "authorized_keys";
        is_dir = false;
        perm = codes "-rw-r--r--";
        owner = codes "root";
        group = codes "root";
        size = 3;
        mtime = 0;
        content = codes "rsa";
        attrs = attr_immutable;
      }
      nil

abbrev guarded : FileSystem
guarded = record {
  root = node (dir_meta (codes "/")) (cons (codes "authorized_keys") key_file nil);
  hostname = codes "ubuntu-web-01";
  total_bytes = 3;
  total_nodes = 2;
}

run_file_command-IsAccounted_example :
    IsAccounted
      (run_file_command plain clock 5
        (codes "/tmp")
        touch_files
        (codes "-a" ∷ codes "x" ∷ codes "y" ∷ [])
        small).0
run_file_command-IsAccounted_example =
    run_file_command-IsAccounted plain 5 (codes "/tmp") clock touch_files
      (codes "-a" ∷ codes "x" ∷ codes "y" ∷ []) small tt small-IsAccounted

rm_cmd-protected_example :
    rm_cmd plain 5 (codes "/") (codes "-rf" ∷ codes "authorized_keys" ∷ []) guarded
    ≡ (guarded, refusals plain 5 (codes "/") (codes "authorized_keys" ∷ []))
unfolding targets_of has_prefix entry_of lookup find abs_path protected
rm_cmd-protected_example =
    rm_cmd-protected plain 5 (codes "/") (codes "-rf" ∷ codes "authorized_keys" ∷ []) guarded
      (([], (codes "authorized_keys", (key_file, refl, refl))), tt)
