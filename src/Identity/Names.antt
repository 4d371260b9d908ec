-- ===== src/Identity/Names.antt =====
-- What a client can choose by its user name: the name and the numbers of its session.
use honeypot_go.Base.{
  ℕ, ◌+◌, ◌≤◌, ◌≡◌, refl, true, false, ◌||◌, none, [], ◌∷◌, leb, ◌==◌, Bytes, codes, same, length,
  All, arith, Bool-cases, inl, inr,
}
use honeypot_go.Vfs.State.{FileSystem}
use honeypot_go.Vfs.Proc.{ProcClock}
use honeypot_go.Vfs.Read.{read_file}
use honeypot_go.Identity.Defs.{
  pos, is_name_char, keep_chars, trim_marks, or_user, sanitize_username, passwd_entry, resolve_user,
  synth_identity,
}

abbrev pub IsNameChar : ℕ → Type 0
IsNameChar c = is_name_char c ≡ true

-- A text that does not begin with a dot or a dash.
abbrev pub IsUnmarked : Bytes → Type 0
IsUnmarked [] = Unit {0}
IsUnmarked (c ∷ s) = (c == b'.' || c == b'-') ≡ false

-- One to 32 characters out of A-Z, a-z, 0-9, dot, dash and underscore, the first no dot or dash.
pub record IsSafeName (name : Bytes) : Type 0 where
  pub chars : All IsNameChar name
  pub short : length name ≤ 32
  pub some_char : 1 ≤ length name
  pub unmarked : IsUnmarked name

keep_chars-short : (n : ℕ) (s : Bytes) → n ≤ 32 → length (keep_chars n s) + n ≤ 32
unfolding keep_chars
keep_chars-short n [] h = omega (arith, h)
keep_chars-short n (c ∷ s) h = elim (Bool-cases (leb 32 n)) [
  | inl t ↦ rw t (omega (arith, h))
  | inr t ↦ elim (Bool-cases (is_name_char c)) [
    | inl u ↦ rw (t, u) (omega (arith, keep_chars-short (n + 1) s (ground (arith, t))))
    | inr u ↦ rw (t, u) (keep_chars-short n s h)
  ]
]

keep_chars-IsNameChar : (n : ℕ) (s : Bytes) → All IsNameChar (keep_chars n s)
unfolding keep_chars
keep_chars-IsNameChar n [] = tt
keep_chars-IsNameChar n (c ∷ s) = elim (Bool-cases (leb 32 n)) [
  | inl t ↦ rw t tt
  | inr t ↦ elim (Bool-cases (is_name_char c)) [
    | inl u ↦ rw (t, u) (u, keep_chars-IsNameChar (n + 1) s)
    | inr u ↦ rw (t, u) (keep_chars-IsNameChar n s)
  ]
]

trim_marks-short : (s : Bytes) → length (trim_marks s) ≤ length s
unfolding trim_marks
trim_marks-short [] = omega arith
trim_marks-short (c ∷ s) = elim (Bool-cases (c == b'.' || c == b'-')) [
  | inl t ↦ rw t (omega (arith, trim_marks-short s))
  | inr t ↦ rw t (omega arith)
]

trim_marks-IsNameChar : (s : Bytes) → All IsNameChar s → All IsNameChar (trim_marks s)
unfolding trim_marks
trim_marks-IsNameChar [] h = tt
trim_marks-IsNameChar (c ∷ s) h = elim (Bool-cases (c == b'.' || c == b'-')) [
  | inl t ↦ rw t (trim_marks-IsNameChar s h.1)
  | inr t ↦ rw t h
]

trim_marks-IsUnmarked : (s : Bytes) → IsUnmarked (trim_marks s)
unfolding trim_marks
trim_marks-IsUnmarked [] = tt
trim_marks-IsUnmarked (c ∷ s) = elim (Bool-cases (c == b'.' || c == b'-')) [
  | inl t ↦ rw t (trim_marks-IsUnmarked s)
  | inr t ↦ rw t t
]

or_user-IsSafeName :
    (s : Bytes) → All IsNameChar s → length s ≤ 32 → IsUnmarked s → IsSafeName (or_user s)
unfolding is_name_char
or_user-IsSafeName [] a b c = record {
  chars = (refl, (refl, (refl, (refl, tt))));
  short = omega arith;
  some_char = omega arith;
  unmarked = refl;
}
or_user-IsSafeName (x ∷ s) a b c = record {
  chars = a;
  short = b;
  some_char = omega arith;
  unmarked = c;
}

-- Whatever user name a client sends, SanitizeUsername makes of it a name of one to 32 characters, all
-- of them letters, digits, dots, dashes or underscores, and does not begin with a dot or a dash.
pub sanitize_username-IsSafeName : (login : Bytes) → IsSafeName (sanitize_username login)
unfolding sanitize_username
sanitize_username-IsSafeName login =
    or_user-IsSafeName (trim_marks (keep_chars 0 login))
      (trim_marks-IsNameChar (keep_chars 0 login) (keep_chars-IsNameChar 0 login))
      (omega (arith, trim_marks-short (keep_chars 0 login), keep_chars-short 0 login (omega arith)))
      (trim_marks-IsUnmarked (keep_chars 0 login))

-- A user whose sanitized name is not root and has no readable entry in /etc/passwd is not the super
-- user: its user number lies between 1100 and 51099.
pub resolve_user-stranger :
    (clock : ProcClock) (fs : FileSystem) (login : Bytes)
    → same (sanitize_username login) (codes "root") ≡ false
    → passwd_entry (read_file clock fs (codes "/etc/passwd")) (sanitize_username login) ≡ none
    → (n : ℕ) × (((resolve_user clock fs login).uid ≡ pos n) × ((1100 ≤ n) × (n ≤ 51099)))
unfolding resolve_user synth_identity
resolve_user-stranger clock fs login r e = rw (e, r) (_, (refl, (omega arith, omega arith)))
