-- ===== src/Identity/Tests.antt =====
-- User names, and the theorems on them.
use honeypot_go.Base.{◌≡◌, refl, false, none, some, [], codes, same}
use honeypot_go.Vfs.State.{FileSystem}
use honeypot_go.Vfs.Proc.{ProcClock}
use honeypot_go.Vfs.Read.{read_file}
use honeypot_go.Vfs.Tree.{lookup, find}
use honeypot_go.Vfs.Bootstrap.{bare_root}
use honeypot_go.Identity.Defs.{
  pos, negsuc, atoi, is_name_char, sanitize_username, parse_passwd_entry, passwd_entry,
  groups_string,
}
use honeypot_go.Identity.Names.{IsSafeName, sanitize_username-IsSafeName}

abbrev clock : ProcClock
clock = record { uptime_line = []; boot_seconds = [] }

abbrev bare : FileSystem
bare = record { root = bare_root; hostname = []; total_bytes = 0; total_nodes = 1 }

dots_removed : sanitize_username (codes "../../x y") ≡ codes "xy"
unfolding sanitize_username is_name_char
dots_removed = refl

alice_parsed :
    parse_passwd_entry
      (codes "root:x:0:0:root:/root:/bin/bash\nalice:x:1000:1001:alice:/home/alice:/bin/bash\n")
      (codes "alice")
    ≡ some (record {
      name = codes "alice";
      uid = pos 1000;
      gid = pos 1001;
      home = codes "/home/alice";
      groups = codes "1001(alice)";
    })
unfolding parse_passwd_entry groups_string
alice_parsed = refl

negative_number : atoi (codes "-12") ≡ some (negsuc 11)
unfolding atoi
negative_number = refl

sanitize_username-IsSafeName_example : IsSafeName (sanitize_username (codes "../../x y"))
sanitize_username-IsSafeName_example = sanitize_username-IsSafeName (codes "../../x y")

eve_name : same (sanitize_username (codes "eve")) (codes "root") ≡ false
unfolding sanitize_username same is_name_char
eve_name = refl

eve_absent :
    passwd_entry (read_file clock bare (codes "/etc/passwd")) (sanitize_username (codes "eve"))
    ≡ none
unfolding read_file lookup find
eve_absent = refl
