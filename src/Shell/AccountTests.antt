-- ===== src/Shell/AccountTests.antt =====
-- Runs of the commands on accounts, and the theorems at inputs that they apply to.
use honeypot_go.Base.{false, List, decimal}
use honeypot_go.Identity.Defs.{root_identity, Identity}
use honeypot_go.Vfs.Tree.{find, lookup}
use honeypot_go.Vfs.Walk.{walk_path}
use honeypot_go.Vfs.Read.{resolve}
use honeypot_go.Shell.Dispatch.{abs_path}
use honeypot_go.Shell.Paths.{clean}
use honeypot_go.Shell.Chattr.{ChattrOptions, chattr_options, chattr}
use honeypot_go.Shell.ChattrLaws.{chattr-stranger}
use honeypot_go.Shell.Find.{find_lines}
use honeypot_go.Shell.FindLaws.{find_lines-bound}
use honeypot_go.Base.{
  ℕ, length, ◌≤◌, ◌≡◌, ◌≢◌, refl, not, ◌&&◌, some, [], ◌∷◌, ◌++◌, Bytes, codes, All, split, same,
  arith,
}
use honeypot_go.Identity.Defs.{pos, is_name_char, sanitize_username, resolve_user}
use honeypot_go.Vfs.State.{FileSystem}
use honeypot_go.Vfs.Account.{IsAccounted}
use honeypot_go.Vfs.Proc.{ProcClock, proc_content}
use honeypot_go.Vfs.Tests.{dir_meta, small, small-IsAccounted}
use honeypot_go.Shell.Accounts.{
  user_exists, filter_lines, uid_of_line, highest_uid, next_uid, useradd, userdel, is_name_in,
}
use honeypot_go.Shell.Crontab.{crontab}
use honeypot_go.Shell.AccountLaws.{user_exists-filter_lines, next_uid-fresh, ended}
use honeypot_go.Shell.NewAccount.{added_identity, resolve_user-user_line}
use honeypot_go.Vfs.Read.{read_file}
use honeypot_go.Vfs.Tree.{Node, node, nil, cons}
use honeypot_go.Shell.AccountBudget.{accounts-IsAccounted}

abbrev root_line : Bytes
root_line = codes "root:x:0:0:root:/root:/bin/bash"

abbrev sshd_line : Bytes
sshd_line = codes "sshd:x:65534:65534:sshd:/var/run/sshd:/usr/sbin/nologin"

abbrev passwd_text : Bytes
passwd_text = ended (root_line ∷ sshd_line ∷ [])

user_exists-filter_lines_example :
    user_exists (filter_lines passwd_text (codes "sshd")) (codes "root")
    ≡ (not (same (codes "root") (codes "sshd")) && user_exists passwd_text (codes "root"))
unfolding same
user_exists-filter_lines_example =
    user_exists-filter_lines passwd_text (codes "sshd") (codes "root") refl

-- The account sshd of the first file system makes the number of the next user 65535.
next_uid-after_sshd : next_uid passwd_text ≡ pos 65535
unfolding next_uid
next_uid-after_sshd = refl

next_uid-fresh_example :
    ((n : ℕ) × (next_uid passwd_text ≡ pos n) × (1000 ≤ n))
    × All (λ l. uid_of_line l ≢ some (next_uid passwd_text)) (split 10 passwd_text)
unfolding highest_uid split
next_uid-fresh_example = next_uid-fresh passwd_text (omega arith)

abbrev clock : ProcClock
clock = record { uptime_line = []; boot_seconds = [] }

-- A file system whose /etc/passwd ends with the line of a new user.
abbrev passwd_file : Node
passwd_file =
    node
      record {
        name = codes "passwd";
        is_dir = false;
        perm = codes "-rw-r--r--";
        owner = codes "root";
        group = codes "root";
        size = 38;
        mtime = 0;
        content = codes "root:x\neve:x:1000:1000:eve:/h:/bin/sh\n";
        attrs = 0;
      }
      nil

abbrev with_eve : FileSystem
with_eve = record {
  root = node (dir_meta (codes "/")) (
      cons (codes "etc") (node (dir_meta (codes "etc")) (cons (codes "passwd") passwd_file nil))
        nil);
  hostname = codes "ubuntu-web-01";
  total_bytes = 38;
  total_nodes = 3;
}

resolve_user-user_line_example :
    resolve_user clock with_eve (codes "..eve")
    ≡ added_identity (codes "eve") (codes "/h") (codes "/bin/sh") 1000
unfolding sanitize_username read_file is_name_in same is_name_char lookup find proc_content decimal
resolve_user-user_line_example =
    resolve_user-user_line (codes "eve") (codes "/h") (codes "/bin/sh") 1000 clock with_eve
      (codes "..eve") (codes "root:x" ∷ []) refl refl
      ((refl, (refl, (refl, (refl, (refl, (refl, tt)))))), tt)
      ((refl, refl), ((refl, refl), ((refl, refl), tt))) ((refl, refl), ((refl, refl), tt))
      (refl, (refl, (refl, (refl, (refl, (refl, (refl, tt))))))) (omega arith) refl

abbrev plain : Bytes → Bytes
plain s = 34 ∷ s ++ 34 ∷ []

abbrev adding : List Bytes
adding = codes "-m" ∷ codes "eve" ∷ []

accounts-IsAccounted_example :
    IsAccounted (useradd clock 5 (codes "adduser") adding small).0
    × IsAccounted (userdel clock 5 adding small).0
    × IsAccounted (crontab plain clock 5 (codes "root") (codes "/tmp") adding small).0
    × IsAccounted (chattr plain root_identity (codes "/tmp") adding small).fs
accounts-IsAccounted_example =
    accounts-IsAccounted clock 5 plain root_identity (codes "adduser") (codes "root") (codes "/tmp")
      adding small small-IsAccounted

abbrev eve : Identity
eve = record {
  name = codes "eve";
  uid = pos 1101;
  gid = pos 1101;
  home = codes "/home/eve";
  groups = codes "1101(eve)";
}

abbrev lock_tmp : ChattrOptions
lock_tmp = record {
  ops = (record { op = b'+'; bits = 16 }) ∷ [];
  files = codes "/tmp" ∷ [];
  recursive = false;
  verbose = false;
  quiet = false;
}

chattr-stranger_example :
    (chattr plain eve (codes "/") (codes "+i" ∷ codes "/tmp" ∷ []) small).fs ≡ small
unfolding chattr_options resolve walk_path lookup find clean abs_path same
chattr-stranger_example =
    chattr-stranger plain eve (codes "/") (codes "+i" ∷ codes "/tmp" ∷ []) small lock_tmp refl refl
      refl (refl, tt)

find_lines-bound_example :
    length (find_lines (codes "/") (codes "." ∷ codes "-name" ∷ codes "t*" ∷ []) small) ≤ 500
find_lines-bound_example =
    find_lines-bound (codes "/") (codes "." ∷ codes "-name" ∷ codes "t*" ∷ []) small

find_lines-tmp :
    find_lines (codes "/") (codes "." ∷ codes "-name" ∷ codes "t*" ∷ []) small ≡ codes "./tmp" ∷ []
unfolding find_lines walk_path lookup find
find_lines-tmp = refl
