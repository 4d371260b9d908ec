-- ===== src/Identity/Defs.antt =====
-- internal/shell/identity.go: `Identity`, `SanitizeUsername`, `parsePasswdEntry`, `synthIdentity`
-- and `ResolveUser`. A user name is read byte by byte where the source reads it rune by rune: it
-- keeps ASCII characters only, which stand for themselves in UTF-8.
use honeypot_go.Base.{
  ℕ, zero, suc, ◌+◌, ◌*◌, ◌-◌, ◌%◌, Bool, false, ◌&&◌, ◌||◌, Option, none, some, List, [], ◌∷◌,
  ◌++◌, if◌then◌else◌, leb, ◌==◌, Bytes, codes, same, split, bind, decimal,
}
use honeypot_go.Vfs.State.{FileSystem}
use honeypot_go.Vfs.Proc.{ProcClock}
use honeypot_go.Vfs.Seed.{fnv_from}
use honeypot_go.Vfs.Read.{Result, ok, err, read_file}

-- `int`, 64 bits: `negsuc n` is -(n + 1).
pub data ℤ : Type 0 where
  pos : ℕ → ℤ
  negsuc : ℕ → ℤ

pub record Identity : Type 0 where
  pub name : Bytes
  pub uid : ℤ
  pub gid : ℤ
  pub home : Bytes
  pub groups : Bytes

abbrev pub is_zero : ℤ → Bool
is_zero (pos n) = n == 0
is_zero (negsuc n) = false

abbrev pub is_root : Identity → Bool
is_root i = is_zero i.uid

abbrev pub prompt_char : Identity → Bytes
prompt_char i = if is_root i then codes "#" else codes "$"

abbrev pub root_identity : Identity
root_identity = record {
  name = codes "root";
  uid = pos 0;
  gid = pos 0;
  home = codes "/root";
  groups = codes "0(root)";
}

abbrev pub max_user_name_len : ℕ
max_user_name_len = 32

abbrev pub between : ℕ → ℕ → ℕ → Bool
between lo hi c = leb lo c && leb c hi

unfoldable pub is_name_char : ℕ → Bool
is_name_char c =
    between b'a' b'z' c
    || (between b'A' b'Z' c || (between b'0' b'9' c || (c == b'_' || (c == b'-' || c == b'.'))))

-- The loop of `SanitizeUsername` behind `n` characters kept.
unfoldable pub keep_chars : ℕ → Bytes → Bytes
keep_chars n [] = []
keep_chars n (c ∷ s) =
    let kept = keep_chars (n + 1) s in
    let skipped = keep_chars n s in
    if leb max_user_name_len n then [] else if is_name_char c then c ∷ kept else skipped

-- strings.TrimLeft(s, ".-")
unfoldable pub trim_marks : Bytes → Bytes
trim_marks [] = []
trim_marks (c ∷ s) = let rest = trim_marks s in if c == b'.' || c == b'-' then rest else c ∷ s

abbrev pub or_user : Bytes → Bytes
or_user [] = codes "user"
or_user (c ∷ s) = c ∷ s

unfoldable pub sanitize_username : Bytes → Bytes
unfolding keep_chars trim_marks
sanitize_username name = or_user (trim_marks (keep_chars 0 name))

abbrev pub is_digit : ℕ → Bool
is_digit c = between b'0' b'9' c

abbrev pub digits_from : ℕ → Bytes → Option ℕ
digits_from acc [] = some acc
digits_from acc (c ∷ s) =
    let rest = digits_from (acc * 10 + (c - b'0')) s in if is_digit c then rest else none

abbrev pub unsigned : Bytes → Option ℕ
unsigned [] = none
unsigned (c ∷ s) = digits_from 0 (c ∷ s)

abbrev pub in_range : ℕ → ℕ → Option ℕ
in_range limit n = if leb n limit then some n else none

abbrev pub negated : ℕ → ℤ
negated zero = pos 0
negated (suc n) = negsuc n

-- strconv.Atoi: a sign, then digits, within the range of int.
unfoldable pub atoi : Bytes → Option ℤ
atoi [] = none
atoi (c ∷ s) =
    if c == b'-'
    then bind (bind (unsigned s) (in_range 9223372036854775808)) (λ n. some (negated n))
    else bind (bind (unsigned (if c == b'+' then s else c ∷ s)) (in_range 9223372036854775807))
        (λ n. some (pos n))

-- The verb %d
abbrev pub show_int : ℤ → Bytes
show_int (pos n) = decimal n
show_int (negsuc n) = b'-' ∷ decimal (n + 1)

unfoldable pub groups_string : Bytes → ℤ → ℤ → Bytes
unfolding decimal
groups_string name uid gid =
    if is_zero uid then codes "0(root)" else show_int gid ++ (codes "(" ++ (name ++ codes ")"))

abbrev pub passwd_identity : Bytes → Option ℤ → Option ℤ → Bytes → Option Identity
passwd_identity name (some uid) (some gid) home =
    some (record {
      name = name;
      uid = uid;
      gid = gid;
      home = home;
      groups = groups_string name uid gid;
    })
passwd_identity name _ _ home = none

-- One line of the file: the entry of `name`, if the line is one with numbers.
abbrev pub entry_in_line : Bytes → List Bytes → Option Identity
entry_in_line name (user ∷ x ∷ uid ∷ gid ∷ gecos ∷ home ∷ more) =
    if same user name then passwd_identity name (atoi uid) (atoi gid) home else none
entry_in_line name _ = none

abbrev pub or_else {ℓ} : {A : Type ℓ} → Option A → Option A → Option A
or_else none b = b
or_else (some a) b = some a

unfoldable pub entry_in_lines : Bytes → List Bytes → Option Identity
unfolding same atoi split groups_string
entry_in_lines name [] = none
entry_in_lines name (line ∷ lines) =
    or_else (entry_in_line name (split b':' line)) (entry_in_lines name lines)

unfoldable pub parse_passwd_entry : Bytes → Bytes → Option Identity
unfolding entry_in_lines split
parse_passwd_entry content name = entry_in_lines name (split 10 content)

unfoldable pub synth_identity : Bytes → Identity
unfolding fnv_from groups_string
synth_identity name =
    let uid = pos (1100 + fnv_from 2166136261 name % 50000) in
    record {
      name = name;
      uid = uid;
      gid = uid;
      home = codes "/home/" ++ name;
      groups = groups_string name uid uid;
    }

abbrev pub passwd_entry : Result Bytes → Bytes → Option Identity
passwd_entry (err e) name = none
passwd_entry (ok content) name = parse_passwd_entry content name

abbrev pub or_synth : Bytes → Option Identity → Identity
or_synth name (some i) = i
or_synth name none = if same name (codes "root") then root_identity else synth_identity name

unfoldable pub resolve_user : ProcClock → FileSystem → Bytes → Identity
unfolding sanitize_username parse_passwd_entry synth_identity same read_file
resolve_user clock fs login =
    let name = sanitize_username login in
    or_synth name (passwd_entry (read_file clock fs (codes "/etc/passwd")) name)

-- `psUID`
abbrev pub ps_uid : Bytes → Bytes
ps_uid (a ∷ b ∷ c ∷ d ∷ e ∷ f ∷ g ∷ h ∷ i ∷ more) = a ∷ b ∷ c ∷ d ∷ e ∷ f ∷ g ∷ b'+' ∷ []
ps_uid name = name
