-- ===== src/Shell/Filters.antt =====
-- `runFilter` of internal/shell/parse.go: the commands that a pipeline feeds with text. Each filter
-- works on the lines of its input. The digests and base64 are the parameter `Codec`.
use honeypot_go.Base.{
  ℕ, ◌+◌, ◌-◌, ◌*◌, ◌%◌, ◌^◌, Bool, false, ◌||◌, ◌&&◌, not, Option, List, [], ◌∷◌, ◌++◌,
  if◌then◌else◌, ltb, leb, ◌==◌, Bytes, codes, same, has_prefix, contains, contains_str, length,
  take, drop, split, trim_right, decimal,
}
use honeypot_go.Base.Order.{sort_by}
use honeypot_go.Shell.Text.{join, fields}

-- Packages encoding/base64, crypto/sha256 and crypto/md5; the digests as hexadecimal digits.
pub record Codec : Type 0 where
  pub base64_encode : Bytes → Bytes
  pub base64_decode : Bytes → Option Bytes
  pub sha256 : Bytes → Bytes
  pub md5 : Bytes → Bytes

-- The first lines of `runFilter`.
unfoldable pub lines_of : Bytes → List Bytes
unfolding trim_right split same
lines_of input = let text = trim_right 10 input in if same text [] then [] else split 10 text

-- `maybeNL`
abbrev pub maybe_newline : List Bytes → Bytes
maybe_newline [] = []
maybe_newline (l ∷ []) = if same l [] then [] else 10 ∷ []
maybe_newline (l ∷ m ∷ ls) = maybe_newline (m ∷ ls)

unfoldable pub text_of : List Bytes → Bytes
unfolding join same
text_of ls = join (10 ∷ []) ls ++ maybe_newline ls

-- `atoi`, on 64 bits: a number from 2 ^ 63 on stands for a negative one.
abbrev pub shell_digits : ℕ → Bytes → ℕ
shell_digits n [] = n
shell_digits n (c ∷ s) =
    let rest = shell_digits ((n * 10 + (c - b'0')) % 2 ^ 64) s in
    if leb b'0' c && leb c b'9' then rest else 0

unfoldable pub shell_atoi : Bytes → ℕ
shell_atoi s = shell_digits 0 s

abbrev pub is_negative : ℕ → Bool
is_negative n = leb (2 ^ 63) n

-- grep
abbrev pub grep_pattern : List Bytes → Bytes → Bytes
grep_pattern [] pat = pat
grep_pattern (a ∷ rest) pat =
    if same a (codes "-v") || same a (codes "-c") || has_prefix a (codes "-") || not (same pat [])
    then grep_pattern rest pat
    else grep_pattern rest a

unfoldable pub grep_lines : Bytes → Bool → List Bytes → List Bytes
unfolding contains
grep_lines pat invert [] = []
grep_lines pat invert (l ∷ ls) =
    let rest = grep_lines pat invert ls in
    let hit = contains l pat in if (if invert then not hit else hit) then l ∷ rest else rest

unfoldable pub grep : List Bytes → List Bytes → Bytes
unfolding grep_lines same has_prefix contains_str text_of decimal
grep args ls =
    let matched = grep_lines (grep_pattern args []) (contains_str args (codes "-v")) ls in
    if contains_str args (codes "-c") then decimal (length matched) ++ 10 ∷ [] else text_of matched

-- head and tail: the number of lines, 10 where no option gives one.
abbrev pub is_count : Bytes → Bool
is_count (x ∷ y ∷ s) = x == b'-' && (leb b'0' y && leb y b'9')
is_count _ = false

abbrev pub is_joined_count : Bytes → Bool
is_joined_count a = has_prefix a (codes "-n") && ltb 2 (length a)

unfoldable pub line_count : List Bytes → ℕ → ℕ
unfolding same has_prefix shell_atoi
line_count [] n = n
line_count (a ∷ []) n =
    if is_joined_count a
    then shell_atoi (drop 2 a)
    else if is_count a
    then shell_atoi (drop 1 a)
    else n
line_count (a ∷ b ∷ rest) n =
    let after_value = line_count rest (shell_atoi b) in
    let joined = line_count (b ∷ rest) (shell_atoi (drop 2 a)) in
    let short = line_count (b ∷ rest) (shell_atoi (drop 1 a)) in
    let other = line_count (b ∷ rest) n in
    if same a (codes "-n")
    then after_value
    else if is_joined_count a
    then joined
    else if is_count a
    then short
    else other

-- The two limits that head and tail put on the number.
abbrev pub clamp_count : ℕ → ℕ → ℕ
clamp_count n lines = if is_negative n then 0 else if ltb lines n then lines else n

unfoldable pub head_lines : ℕ → List Bytes → List Bytes
head_lines n ls = take (clamp_count n (length ls)) ls

unfoldable pub tail_lines : ℕ → List Bytes → List Bytes
tail_lines n ls = drop (length ls - clamp_count n (length ls)) ls

-- wc
abbrev pub word_count : List Bytes → ℕ
word_count [] = 0
word_count (l ∷ ls) = length (fields l) + word_count ls

abbrev pub char_count : List Bytes → ℕ
char_count [] = 0
char_count (l ∷ ls) = length l + 1 + char_count ls

unfoldable pub wc : List Bytes → List Bytes → Bytes
unfolding contains_str decimal fields
wc args ls =
    if contains_str args (codes "-l")
    then decimal (length ls) ++ 10 ∷ []
    else if contains_str args (codes "-w")
    then decimal (word_count ls) ++ 10 ∷ []
    else if contains_str args (codes "-c")
    then decimal (char_count ls) ++ 10 ∷ []
    else decimal (length ls)
      ++ (32 ∷ decimal (word_count ls) ++ (32 ∷ decimal (char_count ls) ++ 10 ∷ []))

-- sort and uniq
unfoldable pub sort_lines : List Bytes → List Bytes
unfolding sort_by
sort_lines ls = sort_by (λ (l : Bytes). l) ls

-- `last` is the line kept last.
unfoldable pub uniq_from : Bytes → List Bytes → List Bytes
unfolding same
uniq_from last [] = []
uniq_from last (l ∷ ls) =
    let skip = uniq_from last ls in
    let keep = uniq_from l ls in if same last l then skip else l ∷ keep

unfoldable pub uniq_lines : List Bytes → List Bytes
unfolding uniq_from
uniq_lines [] = []
uniq_lines (l ∷ ls) = l ∷ uniq_from l ls
