-- ===== src/Shell/Glob.antt =====
-- `globMatch` of internal/shell/executor.go. A position in the pattern or in the text is the text from
-- there on.
use honeypot_go.Base.{
  ℕ, zero, suc, ◌+◌, ◌/◌, ◌%◌, Bool, true, false, ◌||◌, Option, none, some, [], ◌∷◌, if◌then◌else◌,
  ltb, ◌==◌, Bytes, length, contains,
}
use honeypot_go.Shell.Columns.{member}

-- The bytes up to the next ']' and what stands behind it.
unfoldable pub class_end : Bytes → Option (Bytes × Bytes)
class_end [] = none
class_end (c ∷ p) =
    let rest = class_end p in
    if c == b']' then some ([], p) else elim rest [ none ↦ none | some r ↦ some (c ∷ r.0, r.1) ]

-- The tries of '*' at each place of the text, by what matches behind it.
unfoldable pub some_suffix : (Bytes → Bool) → Bytes → Bool
some_suffix matches [] = matches []
some_suffix matches (c ∷ s) = let rest = some_suffix matches s in matches (c ∷ s) || rest

-- `strings.ContainsRune` for a byte as a rune: above 127 it is written in two bytes.
abbrev pub contains_rune : Bytes → ℕ → Bool
contains_rune set x =
    if ltb x 128 then member x set else contains set ((192 + x / 64) ∷ (128 + x % 64) ∷ [])

-- `[…]` and one byte.
abbrev pub in_class : (Bytes → Bytes → Bool) → Option (Bytes × Bytes) → Bytes → Bool
in_class matches none s = false
in_class matches (some r) [] = false
in_class matches (some r) (x ∷ s) = if contains_rune r.0 x then matches r.1 s else false

abbrev pub any_one : (Bytes → Bytes → Bool) → Bytes → Bytes → Bool
any_one matches p [] = false
any_one matches p (x ∷ s) = matches p s

abbrev pub that_one : (Bytes → Bytes → Bool) → ℕ → Bytes → Bytes → Bool
that_one matches c p [] = false
that_one matches c p (x ∷ s) = if c == x then matches p s else false

abbrev pub is_empty : Bytes → Bool
is_empty [] = true
is_empty (c ∷ s) = false

-- Each round takes a byte of the pattern: its length is fuel enough.
unfoldable pub glob_on : ℕ → Bytes → Bytes → Bool
unfolding class_end some_suffix
glob_on fuel [] s = is_empty s
glob_on zero (c ∷ p) s = false
glob_on (suc fuel) (c ∷ p) s =
    if c == b'*'
    then (if is_empty p then true else some_suffix (glob_on fuel p) s)
    else if c == b'?'
    then any_one (glob_on fuel) p s
    else if c == b'['
    then in_class (glob_on fuel) (class_end p) s
    else that_one (glob_on fuel) c p s

unfoldable pub glob_match : Bytes → Bytes → Bool
unfolding glob_on
glob_match pattern s = glob_on (length pattern) pattern s
