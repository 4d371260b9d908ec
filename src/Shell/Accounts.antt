-- ===== src/Shell/Accounts.antt =====
-- The commands of internal/shell/executor.go on accounts: userExistsInPasswd, nextUID,
-- filterPasswdLines, userAddCmd, userDelCmd, usermodCmd, passwdCmd, and crontabCmd.
use honeypot_go.Base.{
  ℕ, ◌+◌, ◌-◌, ◌^◌, Bool, true, false, ◌||◌, ◌&&◌, not, Option, none, some, List, [], ◌∷◌, ◌++◌,
  if◌then◌else◌, Bytes, codes, same, has_prefix, contains_str, split, ltb, ◌==◌, decimal,
}
use honeypot_go.Identity.Defs.{ℤ, pos, negsuc, atoi, show_int}
use honeypot_go.Vfs.State.{FileSystem}
use honeypot_go.Vfs.Write.{write_file, mkdir}
use honeypot_go.Vfs.Remove.{remove_all}
use honeypot_go.Vfs.Proc.{ProcClock}
use honeypot_go.Vfs.Read.{Result, ok, err, read_file}
use honeypot_go.Shell.Text.{join}
use honeypot_go.Shell.Files.{Said, before_colon, targets_of}

-- The first field of a line is the name.
unfoldable pub is_name_in : Bytes → List Bytes → Bool
unfolding same
is_name_in name [] = false
is_name_in name (l ∷ ls) = same (before_colon l) name || is_name_in name ls

unfoldable pub user_exists : Bytes → Bytes → Bool
unfolding is_name_in split
user_exists content name = is_name_in name (split 10 content)

-- The number in the third field of a line.
abbrev pub third_number : List Bytes → Option ℤ
third_number (name ∷ x ∷ uid ∷ more) = atoi uid
third_number _ = none

unfoldable pub uid_of_line : Bytes → Option ℤ
unfolding atoi split
uid_of_line line = third_number (split b':' line)

abbrev pub or_higher : ℕ → Option ℤ → ℕ
or_higher high (some (pos n)) = if ltb high n then n else high
or_higher high _ = high

unfoldable pub highest_uid : ℕ → List Bytes → ℕ
unfolding uid_of_line
highest_uid high [] = high
highest_uid high (l ∷ ls) = highest_uid (or_higher high (uid_of_line l)) ls

-- One more, on an int of 64 bits.
abbrev pub next_int : ℕ → ℤ
next_int n = if n == 2 ^ 63 - 1 then negsuc (2 ^ 63 - 1) else pos (n + 1)

unfoldable pub next_uid : Bytes → ℤ
unfolding highest_uid split
next_uid content = next_int (highest_uid 999 (split 10 content))

-- `filterPasswdLines`: the lines that stay, and the home directory of the last line that goes.
unfoldable pub keep_lines : Bytes → List Bytes → List Bytes
unfolding same
keep_lines name [] = []
keep_lines name (l ∷ ls) =
    let kept = keep_lines name ls in
    if same l [] || same (before_colon l) name then kept else l ∷ kept

abbrev pub sixth_field : Bytes → List Bytes → Bytes
sixth_field home (a ∷ b ∷ c ∷ d ∷ e ∷ f ∷ more) = f
sixth_field home _ = home

unfoldable pub home_in : Bytes → Bytes → List Bytes → Bytes
unfolding same split
home_in name home [] = home
home_in name home (l ∷ ls) =
    let found = home_in name (sixth_field home (split b':' l)) ls in
    let other = home_in name home ls in
    if not (same l []) && same (before_colon l) name then found else other

abbrev pub joined_lines : List Bytes → Bytes
joined_lines [] = []
joined_lines (l ∷ ls) = join (10 ∷ []) (l ∷ ls) ++ 10 ∷ []

unfoldable pub filter_lines : Bytes → Bytes → Bytes
unfolding keep_lines join split
filter_lines content name = joined_lines (keep_lines name (split 10 content))

-- The options of useradd and adduser.
pub record NewUser : Type 0 where
  pub user : Bytes
  pub shell : Bytes
  pub home : Bytes
  pub system : Bool
  pub make_home : Bool

abbrev pub is_shell_option : Bytes → Bool
is_shell_option a = same a (codes "-s") || same a (codes "--shell")

abbrev pub is_home_option : Bytes → Bool
is_home_option a = same a (codes "-d") || (same a (codes "--home") || same a (codes "--home-dir"))

-- One argument that takes no value behind it.
abbrev pub with_option : Bytes → NewUser → NewUser
with_option a u =
    if same a (codes "-m") || same a (codes "--create-home")
    then record u { make_home = true }
    else if same a (codes "-M") || same a (codes "--no-create-home")
    then record u { make_home = false }
    else if same a (codes "-r") || same a (codes "--system")
    then record u { system = true }
    else if is_shell_option a || (is_home_option a || has_prefix a (codes "-"))
    then u
    else if same u.user []
    then record u { user = a }
    else u

unfoldable pub user_options : List Bytes → NewUser → NewUser
unfolding same has_prefix
user_options [] u = u
user_options (a ∷ []) u = with_option a u
user_options (a ∷ value ∷ rest) u =
    let with_shell = user_options rest (record u { shell = value }) in
    let with_home = user_options rest (record u { home = value }) in
    let with_gecos = user_options rest u in
    let other = user_options (value ∷ rest) (with_option a u) in
    if is_shell_option a
    then with_shell
    else if is_home_option a
    then with_home
    else if same a (codes "--gecos")
    then with_gecos
    else other

abbrev pub or_text : Bytes → Bytes → Bytes
or_text [] other = other
or_text (c ∷ s) other = c ∷ s

-- The line that useradd adds.
abbrev pub user_line : Bytes → ℤ → Bytes → Bytes → Bytes
user_line name uid home shell =
    let ends = name ++ (b':' ∷ home ++ (b':' ∷ shell)) in
    name ++ (codes ":x:" ++ (show_int uid ++ (b':' ∷ show_int uid ++ (b':' ∷ ends))))

-- The content, or nothing: the error of the read is ignored.
abbrev pub content_of : Result Bytes → Bytes
content_of (ok content) = content
content_of (err e) = []

abbrev pub first_name : List Bytes → Bytes → Bytes
first_name [] own = own
first_name (t ∷ ts) own = t

abbrev pub last_name : List Bytes → Bytes
last_name [] = []
last_name (t ∷ []) = t
last_name (t ∷ u ∷ ts) = last_name (u ∷ ts)

module _ (clock : ProcClock) (now : ℕ) where
  -- The two files and the home directory.
  unfoldable pub add_user : NewUser → Bytes → ℤ → Bytes → Bytes → FileSystem → FileSystem
  unfolding read_file decimal mkdir
  add_user u passwd uid home shell fs =
      let fs1 =
        (write_file now (codes "/etc/passwd")
          (passwd ++ (user_line u.user uid home shell ++ 10 ∷ [])) fs).0 in
      let shadow = content_of (read_file clock fs1 (codes "/etc/shadow")) in
      let fs2 =
        (write_file now (codes "/etc/shadow")
          (shadow ++ (u.user ++ codes ":!:19800:0:99999:7:::\n")) fs1).0 in
      if u.make_home && not u.system
      then (mkdir now home (codes "drwxr-xr-x") u.user u.user fs2).0
      else fs2

  -- What adduser prints; useradd prints nothing.
  unfoldable pub added_text : Bytes → NewUser → ℤ → Bytes → Bytes
  unfolding same decimal
  added_text bin u uid home =
      if not (same bin (codes "adduser"))
      then []
      else codes "Adding user `"
        ++ u.user
        ++ codes "' ...\n"
        ++ codes "Adding new group `"
        ++ u.user
        ++ codes "' ("
        ++ show_int uid
        ++ codes ") ...\n"
        ++ codes "Adding new user `"
        ++ u.user
        ++ codes "' ("
        ++ show_int uid
        ++ codes ") with group `"
        ++ u.user
        ++ codes "' ...\n"
        ++ (if u.make_home && not u.system
            then codes "Creating home directory `"
              ++ home
              ++ codes "' ...\nCopying files from `/etc/skel' ...\n"
            else [])

  unfoldable pub useradd : Bytes → List Bytes → FileSystem → Said
  unfolding user_options same user_exists next_uid add_user added_text read_file
  useradd bin args fs =
      let start : NewUser = record {
        user = [];
        shell = [];
        home = [];
        system = false;
        make_home = same bin (codes "adduser");
      } in
      let u = user_options args start in
      let passwd = content_of (read_file clock fs (codes "/etc/passwd")) in
      let uid = next_uid passwd in
      let home = or_text u.home (codes "/home/" ++ u.user) in
      if same u.user []
      then (fs, bin ++ codes ": usage error, no username given\n")
      else if user_exists passwd u.user
      then (fs, bin ++ codes ": user '" ++ u.user ++ codes "' already exists\n")
      else (
        add_user u passwd uid home (or_text u.shell (codes "/bin/bash")) fs,
        added_text bin u uid home,
      )

  unfoldable pub delete_user : Bool → Bytes → Bytes → FileSystem → FileSystem
  unfolding filter_lines home_in read_file remove_all split same
  delete_user with_home name passwd fs =
      let home = home_in name [] (split 10 passwd) in
      let fs1 = (write_file now (codes "/etc/passwd") (filter_lines passwd name) fs).0 in
      let shadow = content_of (read_file clock fs1 (codes "/etc/shadow")) in
      let fs2 = (write_file now (codes "/etc/shadow") (filter_lines shadow name) fs1).0 in
      if with_home && not (same home []) then (remove_all home fs2).0 else fs2

  unfoldable pub userdel : List Bytes → FileSystem → Said
  unfolding delete_user user_exists read_file targets_of same contains_str
  userdel args fs =
      let name = last_name (targets_of args) in
      let passwd = content_of (read_file clock fs (codes "/etc/passwd")) in
      if same name []
      then (fs, codes "userdel: usage error, no username given\n")
      else if not (user_exists passwd name)
      then (fs, codes "userdel: user '" ++ name ++ codes "' does not exist\n")
      else if same name (codes "root")
      then (
        fs,
        codes
            "userdel: user 'root' is a member of the group 'root', which is the primary group of other users. Refusing to remove.\n",
      )
      else (
        delete_user (contains_str args (codes "-r") || contains_str args (codes "--remove")) name
            passwd fs,
        [],
      )

  unfoldable pub usermod : List Bytes → FileSystem → Bytes
  unfolding user_exists read_file targets_of same
  usermod args fs =
      let name = last_name (targets_of args) in
      if same name []
      then codes "usermod: usage error, no username given\n"
      else if user_exists (content_of (read_file clock fs (codes "/etc/passwd"))) name
      then []
      else codes "usermod: user '" ++ name ++ codes "' does not exist\n"

  unfoldable pub passwd_cmd : Bytes → List Bytes → FileSystem → Bytes
  unfolding user_exists read_file targets_of
  passwd_cmd own args fs =
      let name = first_name (targets_of args) own in
      if user_exists (content_of (read_file clock fs (codes "/etc/passwd"))) name
      then codes "passwd: password updated successfully\n"
      else codes "passwd: user '" ++ name ++ codes "' does not exist\n"
