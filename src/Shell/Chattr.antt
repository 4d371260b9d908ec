-- ===== src/Shell/Chattr.antt =====
-- `noAttrPath` and `chattrCmd` of internal/shell/attr.go.
use honeypot_go.Base.{
  ℕ, ◌-◌, Bool, true, false, ◌||◌, ◌&&◌, not, Option, none, some, List, [], ◌∷◌, ◌++◌,
  if◌then◌else◌, Bytes, codes, same, has_prefix, length, ltb, ◌==◌, bind, any_of, bit_and, bit_or,
  bit_xor,
}
use honeypot_go.Identity.Defs.{Identity, is_root}
use honeypot_go.Vfs.Tree.{attr_immutable, attr_append_only}
use honeypot_go.Vfs.State.{FileSystem, Outcome}
use honeypot_go.Vfs.Messages.{error_text}
use honeypot_go.Vfs.Change.{set_attrs}
use honeypot_go.Vfs.Read.{FileInfo, resolve, attrs}
use honeypot_go.Vfs.Letters.{attr_bit, format_attrs}
use honeypot_go.Vfs.Visits.{walk}
use honeypot_go.Shell.Text.{trim_suffix}
use honeypot_go.Shell.Columns.{member}
use honeypot_go.Shell.Dispatch.{abs_path}
use honeypot_go.Shell.Paths.{clean, join_two}

abbrev pub chattr_usage : Bytes
chattr_usage = codes "Usage: chattr [-pRVf] [-+=aAcCdDeijPsStTuFx] [-v version] files...\n"

abbrev pub mode_letters : Bytes
mode_letters = codes "aAcCdDeFijmPsStTux"

-- The places that are on no ext4.
abbrev pub is_at_or_below : Bytes → Bytes → Bool
is_at_or_below full top = same full top || has_prefix full (top ++ codes "/")

unfoldable pub no_attr_path : Bytes → Bool
unfolding same has_prefix
no_attr_path full =
    any_of (is_at_or_below full) (codes "/proc" ∷ codes "/sys" ∷ codes "/dev" ∷ codes "/run" ∷ [])

-- `modeOp`
pub record ModeOp : Type 0 where
  pub op : ℕ
  pub bits : ℕ

pub record ChattrOptions : Type 0 where
  pub ops : List ModeOp
  pub files : List Bytes
  pub recursive : Bool
  pub verbose : Bool
  pub quiet : Bool

abbrev pub is_flag_letter : ℕ → Bool
is_flag_letter c = member c (codes "RVf")

abbrev pub all_flags : Bytes → Bool
all_flags [] = true
all_flags (c ∷ s) = is_flag_letter c && all_flags s

abbrev pub is_flags : Bytes → Bool
is_flags (c ∷ d ∷ s) = c == b'-' && all_flags (d ∷ s)
is_flags _ = false

abbrev pub or_zero : Option ℕ → ℕ
or_zero none = 0
or_zero (some bit) = bit

-- The bits of the letters; none for a letter that is no attribute.
unfoldable pub mode_bits : ℕ → Bytes → Option ℕ
unfolding attr_bit
mode_bits bits [] = some bits
mode_bits bits (c ∷ s) =
    let rest = mode_bits (bit_or bits (or_zero (attr_bit c))) s in
    if member c mode_letters then rest else none

abbrev pub is_mode : Bytes → Bool
is_mode (c ∷ d ∷ s) = c == b'+' || (c == b'-' || c == b'=')
is_mode _ = false

abbrev pub with_mode_word : Bytes → ChattrOptions → Option ChattrOptions
with_mode_word [] o = none
with_mode_word (c ∷ s) o =
    bind (mode_bits 0 s)
      (λ bits. some (record o { ops = o.ops ++ (record { op = c; bits = bits }) ∷ [] }))

-- A word other than --, -p and -v; none is the usage text.
abbrev pub with_chattr_word : Bytes → ChattrOptions → Option ChattrOptions
with_chattr_word a o =
    if is_flags a
    then some (record o {
      recursive = o.recursive || member b'R' a;
      verbose = o.verbose || member b'V' a;
      quiet = o.quiet || member b'f' a;
    })
    else if is_mode a
    then with_mode_word a o
    else some (record o { files = o.files ++ a ∷ [] })

abbrev pub takes_value : Bytes → Bool
takes_value a = same a (codes "-p") || same a (codes "-v")

unfoldable pub chattr_options : List Bytes → ChattrOptions → Option ChattrOptions
unfolding same mode_bits
chattr_options [] o = some o
chattr_options (a ∷ []) o =
    if same a (codes "--") then some o else if takes_value a then none else with_chattr_word a o
chattr_options (a ∷ value ∷ rest) o =
    let behind = chattr_options rest o in
    let next = bind (with_chattr_word a o) (chattr_options (value ∷ rest)) in
    if same a (codes "--")
    then some (record o { files = o.files ++ value ∷ rest })
    else if takes_value a
    then behind
    else next

-- The exit code, the text and the file system.
pub record Shown : Type 0 where
  pub code : ℕ
  pub text : Bytes
  pub fs : FileSystem

abbrev pub chattr_fail : Bool → Bytes → Shown → Shown
chattr_fail quiet message s = record s {
  code = 1;
  text = if quiet then s.text else s.text ++ message;
}

abbrev pub new_flags : List ModeOp → ℕ → ℕ
new_flags [] flags = flags
new_flags (m ∷ ms) flags = new_flags ms (
    if m.op == b'+'
    then bit_or flags m.bits
    else if m.op == b'-'
    then flags - bit_and flags m.bits
    else m.bits)

abbrev pub changes_locks : ℕ → ℕ → Bool
changes_locks old new =
    not (bit_and (bit_xor old new) (bit_or attr_immutable attr_append_only) == 0)

module _ (quote : Bytes → Bytes) (user : Identity) (o : ChattrOptions) where
  abbrev pub chattr_shown : Bytes → Option ℕ → Bytes
  chattr_shown display flags =
      codes "Flags of "
      ++ (display ++ (codes " set as " ++ (format_attrs (or_zero flags) ++ 10 ∷ [])))

  abbrev pub chattr_set : Bytes → Bytes → Outcome → Shown → Shown
  chattr_set display full (fs, some e) s =
      chattr_fail o.quiet
        (codes "chattr: "
          ++ (error_text quote e ++ (codes " while setting flags on " ++ (display ++ 10 ∷ []))))
        (record s { fs = fs })
  chattr_set display full (fs, none) s =
      if o.verbose
      then record s { text = s.text ++ chattr_shown display (attrs fs full); fs = fs }
      else record s { fs = fs }

  abbrev pub chattr_node : Bytes → Bytes → Option FileInfo → ℕ → Shown → Shown
  chattr_node display full none old s = s
  chattr_node display full (some fi) old s =
      let new = new_flags o.ops old in
      if not (is_root user) && (changes_locks old new || not (same fi.owner user.name))
      then chattr_fail o.quiet
          (codes "chattr: Operation not permitted while setting flags on " ++ (display ++ 10 ∷ []))
          s
      else chattr_set display full (set_attrs full new s.fs) s

  unfoldable pub chattr_apply : Bytes → Bytes → Shown → Shown
  unfolding no_attr_path resolve attrs set_attrs error_text format_attrs same
  chattr_apply display full s =
      if no_attr_path full
      then chattr_fail o.quiet
          (codes "chattr: Inappropriate ioctl for device while reading flags on "
            ++ (display ++ 10 ∷ []))
          s
      else chattr_node display full (resolve s.fs full) (or_zero (attrs s.fs full)) s

  abbrev pub max_attr_targets : ℕ
  max_attr_targets = 5000

  -- The nodes below, collected before the first of them is changed.
  abbrev pub collect :
      Bytes → Bytes → Bytes → FileInfo → List (Bytes × Bytes) → List (Bytes × Bytes) × Bool
  collect name full rel fi targets =
      let more =
        targets ++ (trim_suffix name (codes "/") ++ (b'/' ∷ rel), join_two full rel) ∷ [] in
      (more, ltb (length more) max_attr_targets)

  unfoldable pub apply_targets : List (Bytes × Bytes) → Shown → Shown
  unfolding chattr_apply
  apply_targets [] s = s
  apply_targets ((display, full) ∷ ts) s = apply_targets ts (chattr_apply display full s)

  abbrev pub chattr_file : Bytes → Bytes → Option FileInfo → Shown → Shown
  chattr_file name full none s =
      chattr_fail o.quiet
        (codes "chattr: No such file or directory while trying to stat " ++ (name ++ 10 ∷ [])) s
  chattr_file name full (some fi) s =
      let s1 = chattr_apply name full s in
      if o.recursive && fi.is_dir
      then apply_targets (walk (collect name full) full s1.fs []).0 s1
      else s1

  unfoldable pub chattr_files : Bytes → List Bytes → Shown → Shown
  unfolding apply_targets chattr_apply walk trim_suffix join_two clean abs_path resolve
  chattr_files cwd [] s = s
  chattr_files cwd (name ∷ names) s =
      let full = clean (abs_path cwd name) in
      chattr_files cwd names (chattr_file name full (resolve s.fs full) s)

abbrev pub is_none_of : {A : Type 0} → List A → Bool
is_none_of [] = true
is_none_of (x ∷ xs) = false

abbrev pub chattr_with :
    (Bytes → Bytes) → Identity → Bytes → Option ChattrOptions → FileSystem → Shown
chattr_with quote user cwd none fs = record { code = 1; text = chattr_usage; fs = fs }
chattr_with quote user cwd (some o) fs =
    let text = if o.verbose then codes "chattr 1.46.5 (30-Dec-2021)\n" else [] in
    if is_none_of o.ops || is_none_of o.files
    then record { code = 1; text = chattr_usage; fs = fs }
    else chattr_files quote user o cwd o.files (record { code = 0; text = text; fs = fs })

abbrev pub no_options : ChattrOptions
no_options = record { ops = []; files = []; recursive = false; verbose = false; quiet = false }

unfoldable pub chattr : (Bytes → Bytes) → Identity → Bytes → List Bytes → FileSystem → Shown
unfolding chattr_options chattr_files
chattr quote user cwd args fs = chattr_with quote user cwd (chattr_options args no_options) fs
