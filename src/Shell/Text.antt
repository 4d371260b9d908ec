-- ===== src/Shell/Text.antt =====
-- The functions of package strings that internal/shell calls. Text is read byte by byte: what
-- the package says of runes is said of ASCII here.
use honeypot_go.Base.{
  ℕ, zero, suc, ◌-◌, Bool, ◌||◌, ◌&&◌, List, [], ◌∷◌, ◌++◌, if◌then◌else◌, leb, ◌==◌, Bytes, same,
  has_prefix, length, take, drop, push_front,
}

-- strings.Join
unfoldable pub join : Bytes → List Bytes → Bytes
join sep [] = []
join sep (s ∷ []) = s
join sep (s ∷ t ∷ ss) = s ++ (sep ++ join sep (t ∷ ss))

-- strings.Split with a text as separator. `skip` bytes are left of a separator that is passed.
unfoldable pub split_from : ℕ → Bytes → Bytes → List Bytes
unfolding has_prefix
split_from skip sep [] = [] ∷ []
split_from (suc skip) sep (c ∷ s) = split_from skip sep s
split_from zero sep (c ∷ s) =
    let rest = split_from zero sep s in
    let next = split_from (length sep - 1) sep s in
    if has_prefix (c ∷ s) sep then [] ∷ next else push_front c rest

-- The bytes of a text, as texts: a split at the empty separator.
abbrev pub each_byte : Bytes → List Bytes
each_byte [] = []
each_byte (c ∷ s) = (c ∷ []) ∷ each_byte s

unfoldable pub split_text : Bytes → Bytes → List Bytes
unfolding split_from
split_text [] s = each_byte s
split_text (x ∷ sep) s = split_from zero (x ∷ sep) s

abbrev pub is_space : ℕ → Bool
is_space c = c == 32 || (leb 9 c && leb c 13)

-- strings.TrimSpace
unfoldable pub trim_space_left : Bytes → Bytes
trim_space_left [] = []
trim_space_left (c ∷ s) = let rest = trim_space_left s in if is_space c then rest else c ∷ s

abbrev pub keep_unless_space : ℕ → Bytes → Bytes
keep_unless_space c [] = if is_space c then [] else c ∷ []
keep_unless_space c (x ∷ s) = c ∷ x ∷ s

unfoldable pub trim_space_right : Bytes → Bytes
trim_space_right [] = []
trim_space_right (c ∷ s) = keep_unless_space c (trim_space_right s)

unfoldable pub trim_space : Bytes → Bytes
unfolding trim_space_left trim_space_right
trim_space s = trim_space_right (trim_space_left s)

-- strings.Fields: `word` is the field that the bytes before have begun.
abbrev pub close_word : Bytes → List Bytes → List Bytes
close_word [] ws = ws
close_word (c ∷ s) ws = (c ∷ s) ∷ ws

unfoldable pub fields_from : Bytes → Bytes → List Bytes
fields_from word [] = close_word word []
fields_from word (c ∷ s) =
    let closed = close_word word (fields_from [] s) in
    let longer = fields_from (word ++ c ∷ []) s in if is_space c then closed else longer

unfoldable pub fields : Bytes → List Bytes
unfolding fields_from
fields s = fields_from [] s

-- strings.ReplaceAll, and strings.Replace with the count 1.
abbrev pub between_bytes : Bytes → Bytes → Bytes
between_bytes rep [] = rep
between_bytes rep (c ∷ s) = rep ++ (c ∷ between_bytes rep s)

unfoldable pub replace_all : Bytes → Bytes → Bytes → Bytes
unfolding join split_from
replace_all [] rep s = between_bytes rep s
replace_all (x ∷ old) rep s = join rep (split_from zero (x ∷ old) s)

unfoldable pub replace_first : Bytes → Bytes → Bytes → Bytes
unfolding has_prefix
replace_first old rep [] = if same old [] then rep else []
replace_first old rep (c ∷ s) =
    let rest = replace_first old rep s in
    if has_prefix (c ∷ s) old then rep ++ drop (length old) (c ∷ s) else c ∷ rest

-- strings.HasSuffix and TrimSuffix
unfoldable pub has_suffix : Bytes → Bytes → Bool
unfolding same
has_suffix s suffix =
    leb (length suffix) (length s) && same (drop (length s - length suffix) s) suffix

unfoldable pub trim_suffix : Bytes → Bytes → Bytes
unfolding has_suffix
trim_suffix s suffix = if has_suffix s suffix then take (length s - length suffix) s else s

-- strings.Repeat of a blank, as the verbs %5d and %-8s pad.
abbrev pub blanks : ℕ → Bytes
blanks zero = []
blanks (suc n) = 32 ∷ blanks n

abbrev pub pad_left : ℕ → Bytes → Bytes
pad_left width s = blanks (width - length s) ++ s

abbrev pub pad_right : ℕ → Bytes → Bytes
pad_right width s = s ++ blanks (width - length s)
