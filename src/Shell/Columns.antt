-- ===== src/Shell/Columns.antt =====
-- The filters of `runFilter` that work inside a line: cut, tr, sed, awk and strings.
use honeypot_go.Base.{
  ℕ, zero, suc, ◌-◌, Bool, true, false, ◌||◌, ◌&&◌, not, Option, none, some, List, [], ◌∷◌, ◌++◌,
  map, if◌then◌else◌, ltb, leb, ◌==◌, Bytes, codes, same, has_prefix, contains, length, drop, split,
  get_or,
}
use honeypot_go.Shell.Text.{join, split_text, fields, replace_all, replace_first, trim_space}
use honeypot_go.Shell.Runes.{more_bytes, runes_from, index_rune, byte_rune}
use honeypot_go.Shell.Filters.{shell_atoi, is_negative, text_of}

-- cut: the delimiter and the numbers of the fields.
abbrev pub positive_numbers : List Bytes → List ℕ
positive_numbers [] = []
positive_numbers (s ∷ ss) =
    let n = shell_atoi s in
    let rest = positive_numbers ss in if ltb 0 n && not (is_negative n) then n ∷ rest else rest

unfoldable pub cut_options : List Bytes → Bytes → List ℕ → Bytes × List ℕ
unfolding same split shell_atoi
cut_options [] delim numbers = (delim, numbers)
cut_options (a ∷ []) delim numbers = (delim, numbers)
cut_options (a ∷ b ∷ rest) delim numbers =
    let with_delim = cut_options rest b numbers in
    let with_fields = cut_options rest delim (numbers ++ positive_numbers (split b',' b)) in
    let other = cut_options (b ∷ rest) delim numbers in
    if same a (codes "-d") then with_delim else if same a (codes "-f") then with_fields else other

-- The parts with the given numbers, from 1 on, that there are.
abbrev pub picked : List ℕ → List Bytes → List Bytes
picked [] parts = []
picked (n ∷ ns) parts =
    let rest = picked ns parts in
    if leb n (length parts) then get_or parts (n - 1) [] ∷ rest else rest

abbrev pub put_joined : Bytes → List Bytes → List Bytes → List Bytes
put_joined delim [] ls = ls
put_joined delim (p ∷ ps) ls = join delim (p ∷ ps) ∷ ls

unfoldable pub cut_lines : Bytes → List ℕ → List Bytes → List Bytes
unfolding join split_text
cut_lines delim numbers [] = []
cut_lines delim numbers (l ∷ ls) =
    put_joined delim (picked numbers (split_text delim l)) (cut_lines delim numbers ls)

unfoldable pub cut : List Bytes → List Bytes → Bytes
unfolding cut_options cut_lines text_of
cut args ls =
    let (delim, numbers) = cut_options args (9 ∷ []) [] in text_of (cut_lines delim numbers ls)

-- tr: whether it deletes, and its two sets.
abbrev pub set_or : Bytes → Bytes → Bytes × Bytes → Bytes × Bytes
set_or a [] (one, two) = (a, two)
set_or a (c ∷ s) (one, two) = if same two [] then (one, a) else (one, two)

unfoldable pub tr_options : List Bytes → Bool → Bytes × Bytes → Bool × (Bytes × Bytes)
unfolding same has_prefix
tr_options [] delete_mode sets = (delete_mode, sets)
tr_options (a ∷ rest) delete_mode sets =
    if same a (codes "-d") || same a (codes "--delete")
    then tr_options rest true sets
    else if has_prefix a (codes "-")
    then tr_options rest delete_mode sets
    else tr_options rest delete_mode (set_or a sets.0 sets)

abbrev pub member : ℕ → Bytes → Bool
member c [] = false
member c (x ∷ s) = x == c || member c s

-- A rune, as the bytes that it is written in, behind tr.
abbrev pub tr_place : Bytes → Bytes → Option ℕ → Bytes
tr_place two r none = r
tr_place two r (some i) = if ltb i (length two) then byte_rune (get_or two i 0) else r

abbrev pub keep_absent : Bytes → Option ℕ → Bytes
keep_absent r none = r
keep_absent r (some i) = []

unfoldable pub tr_rune : Bool → Bytes × Bytes → Bytes → Bytes
unfolding index_rune
tr_rune true (one, two) r = keep_absent r (index_rune 0 0 one r)
tr_rune false (one, two) r = tr_place two r (index_rune 0 0 one r)

unfoldable pub tr_runes : Bool → Bytes × Bytes → List Bytes → Bytes
unfolding tr_rune
tr_runes delete_mode sets [] = []
tr_runes delete_mode sets (r ∷ rs) = tr_rune delete_mode sets r ++ tr_runes delete_mode sets rs

unfoldable pub tr_line : Bool → Bytes × Bytes → Bytes → Bytes
unfolding tr_runes runes_from
tr_line delete_mode sets l = tr_runes delete_mode sets (runes_from 0 l)

unfoldable pub tr : List Bytes → List Bytes → Bytes
unfolding tr_options tr_line text_of
tr args ls =
    let (delete_mode, sets) = tr_options args false ([], []) in
    text_of (map (tr_line delete_mode sets) ls)

-- sed with "s/old/new/flags": the first argument of that form.
abbrev pub sed_line : Bytes → Bytes → Bool → Bytes → Bytes
sed_line old rep true l = replace_all old rep l
sed_line old rep false l = replace_first old rep l

abbrev pub is_global : List Bytes → Bool
is_global (flags ∷ []) = same flags (codes "g")
is_global _ = false

abbrev pub sed_script : List Bytes → Option (Bytes × (Bytes × Bool))
sed_script (old ∷ rep ∷ flags) = some (old, (rep, is_global flags))
sed_script _ = none

abbrev pub or_script :
    Option (Bytes × (Bytes × Bool))
    → Option (Bytes × (Bytes × Bool))
    → Option (Bytes × (Bytes × Bool))
or_script none b = b
or_script (some a) b = some a

unfoldable pub sed_scripts : List Bytes → Option (Bytes × (Bytes × Bool))
unfolding same has_prefix split
sed_scripts [] = none
sed_scripts (a ∷ rest) =
    let others = sed_scripts rest in
    if has_prefix a (codes "s/")
    then or_script (sed_script (split b'/' (drop 2 a))) others
    else others

abbrev pub sed_with : Option (Bytes × (Bytes × Bool)) → Bytes → List Bytes → Bytes
sed_with none input ls = input
sed_with (some (old, (rep, global))) input ls = text_of (map (sed_line old rep global) ls)

unfoldable pub sed : List Bytes → Bytes → List Bytes → Bytes
unfolding sed_scripts replace_all replace_first text_of
sed args input ls = sed_with (sed_scripts args) input ls

-- awk: the delimiter and the program, then the fields that the program names.
unfoldable pub awk_options : List Bytes → Bytes → Bytes → Bytes × Bytes
unfolding same has_prefix
awk_options [] delim program = (delim, program)
awk_options (a ∷ []) delim program =
    if has_prefix a (codes "-F") && ltb 2 (length a)
    then (drop 2 a, program)
    else if has_prefix a (codes "{")
    then (delim, a)
    else (delim, program)
awk_options (a ∷ b ∷ rest) delim program =
    let next = awk_options rest b program in
    let joined = awk_options (b ∷ rest) (drop 2 a) program in
    let code = awk_options (b ∷ rest) delim a in
    let other = awk_options (b ∷ rest) delim program in
    if same a (codes "-F")
    then next
    else if has_prefix a (codes "-F") && ltb 2 (length a)
    then joined
    else if has_prefix a (codes "{")
    then code
    else other

abbrev pub is_awk_mark : ℕ → Bool
is_awk_mark c = c == b'{' || (c == b'}' || c == 32)

-- strings.Trim(s, "{} ")
unfoldable pub trim_marks_left : Bytes → Bytes
trim_marks_left [] = []
trim_marks_left (c ∷ s) = let rest = trim_marks_left s in if is_awk_mark c then rest else c ∷ s

abbrev pub keep_unless_mark : ℕ → Bytes → Bytes
keep_unless_mark c [] = if is_awk_mark c then [] else c ∷ []
keep_unless_mark c (x ∷ s) = c ∷ x ∷ s

unfoldable pub trim_marks_right : Bytes → Bytes
trim_marks_right [] = []
trim_marks_right (c ∷ s) = keep_unless_mark c (trim_marks_right s)

abbrev pub awk_picked : List Bytes → List Bytes → List Bytes
awk_picked [] parts = []
awk_picked (f ∷ fs) parts =
    let rest = awk_picked fs parts in
    let n = shell_atoi (drop 1 f) in
    if has_prefix f (codes "$") && (ltb 1 (length f) && (ltb 0 n && leb n (length parts)))
    then get_or parts (n - 1) [] ∷ rest
    else rest

abbrev pub put_last : List Bytes → List Bytes → List Bytes
put_last [] ls = ls
put_last (p ∷ []) ls = p ∷ ls
put_last (p ∷ q ∷ ps) ls = put_last (q ∷ ps) ls

unfoldable pub awk_lines : Bytes → Bytes → List Bytes → List Bytes
unfolding contains split_text fields trim_marks_left trim_marks_right shell_atoi has_prefix join
awk_lines delim program [] = []
awk_lines delim program (l ∷ ls) =
    let rest = awk_lines delim program ls in
    let parts = split_text delim l in
    if contains program (codes "$NF")
    then put_last parts rest
    else put_joined (32 ∷ [])
        (awk_picked (fields (trim_marks_right (trim_marks_left program))) parts) rest

unfoldable pub awk : List Bytes → List Bytes → Bytes
unfolding awk_options awk_lines text_of
awk args ls =
    let (delim, program) = awk_options args (32 ∷ []) [] in text_of (awk_lines delim program ls)

-- strings: `printableOnly`, and the lines of 4 characters and more.
abbrev pub printable : ℕ → ℕ
printable c = if leb 32 c && leb c 126 then c else 32

unfoldable pub printable_from : ℕ → Bytes → Bytes
printable_from skip [] = []
printable_from zero (c ∷ s) = printable c ∷ printable_from (more_bytes (c ∷ s)) s
printable_from (suc skip) (c ∷ s) = printable_from skip s

unfoldable pub printable_only : Bytes → Bytes
unfolding trim_space printable_from
printable_only s = trim_space (printable_from 0 s)

unfoldable pub strings_lines : List Bytes → List Bytes
unfolding printable_only same
strings_lines [] = []
strings_lines (l ∷ ls) =
    let rest = strings_lines ls in
    let clean = printable_only l in
    if not (same l []) && leb 4 (length clean) then clean ∷ rest else rest
