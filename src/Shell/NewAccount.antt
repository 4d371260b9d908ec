-- ===== src/Shell/NewAccount.antt =====
-- The line that useradd of internal/shell/executor.go adds, as parsePasswdEntry of
-- internal/shell/identity.go reads it.
use honeypot_go.Base.{
  ℕ, zero, suc, ◌+◌, ◌-◌, ◌*◌, ◌/◌, ◌%◌, ◌≤◌, ◌≡◌, refl, ap, ◌∙◌, true, false, none, some, List, [],
  ◌∷◌, ◌++◌, Bytes, codes, same, same_iff, split, ltb, leb, ◌==◌, arith, Bool-cases, inl, inr, All,
  append_assoc, decimal, digits, read_from, read_from-decimal,
}
use honeypot_go.Identity.Defs.{
  Identity, pos, is_digit, digits_from, atoi, groups_string, entry_in_line, entry_in_lines,
  parse_passwd_entry, sanitize_username, resolve_user,
}
use honeypot_go.Vfs.State.{FileSystem}
use honeypot_go.Vfs.Proc.{ProcClock}
use honeypot_go.Vfs.Read.{ok, read_file}
use honeypot_go.Shell.Lines.{IsLine}
use honeypot_go.Shell.Files.{before_colon}
use honeypot_go.Shell.Accounts.{is_name_in, user_line}
use honeypot_go.Shell.AccountLaws.{ended, split-ended}

-- No newline and no ':' in it.
abbrev pub IsField : Bytes → Type 0
IsField f = All (λ c. ((c == 10) ≡ false) × ((c == b':') ≡ false)) f

IsField-IsLine : (f : Bytes) → IsField f → IsLine f
IsField-IsLine [] v = tt
IsField-IsLine (c ∷ f) v = (v.0.0, IsField-IsLine f v.1)

IsLine-append : (a b : Bytes) → IsLine a → IsLine b → IsLine (a ++ b)
IsLine-append [] b v w = w
IsLine-append (c ∷ a) b v w = (v.0, IsLine-append a b v.1 w)

split-field : (f s : Bytes) → IsField f → split b':' (f ++ b':' ∷ s) ≡ f ∷ split b':' s
unfolding split
split-field [] s v = refl
split-field (c ∷ f) s v = rw (v.0.1, split-field f s v.1) refl

-- Decimal numbers.
abbrev AllDigits : Bytes → Type 0
AllDigits s = All (λ c. is_digit c ≡ true) s

digits-append : (a : Bytes) (c : ℕ) → AllDigits a → is_digit c ≡ true → AllDigits (a ++ c ∷ [])
digits-append [] c v h = (h, tt)
digits-append (x ∷ a) c v h = (v.0, digits-append a c v.1 h)

digits-AllDigits : (fuel n : ℕ) → n ≤ fuel → AllDigits (digits fuel n)
unfolding digits
digits-AllDigits zero n h = (ground (arith, h), tt)
digits-AllDigits (suc fuel) n h = elim (Bool-cases (ltb n 10)) [
  | inl t ↦ rw t (ground (arith, t), tt)
  | inr t ↦ rw t (
      digits-append (digits fuel (n / 10)) (b'0' + n % 10)
        (digits-AllDigits fuel (n / 10) (smaller t)) last_digit)
]
  where
    smaller : ltb n 10 ≡ false → n / 10 ≤ fuel
    smaller t = let k : 10 ≤ n = ground (arith, t) in omega (arith, h, k)

    last_digit : is_digit (b'0' + n % 10) ≡ true
    last_digit = ground arith

decimal-AllDigits : (n : ℕ) → AllDigits (decimal n)
unfolding decimal
decimal-AllDigits n = digits-AllDigits n n (omega arith)

digits_from-AllDigits :
    (acc : ℕ) (s : Bytes) → AllDigits s → digits_from acc s ≡ some (read_from acc s)
digits_from-AllDigits acc [] v = refl
digits_from-AllDigits acc (c ∷ s) v = rw (v.0) (digits_from-AllDigits (acc * 10 + (c - b'0')) s v.1)

AllDigits-IsField : (s : Bytes) → AllDigits s → IsField s
AllDigits-IsField [] v = tt
AllDigits-IsField (c ∷ s) v = ((ground (arith, v.0), ground (arith, v.0)), AllDigits-IsField s v.1)

-- A text of digits for a number up to the highest int reads as that number.
atoi-AllDigits :
    (s : Bytes) (n : ℕ)
    → AllDigits s
    → digits_from 0 s ≡ some n
    → (s ≡ [] → ⊥)
    → n ≤ 9223372036854775807
    → atoi s ≡ some (pos n)
unfolding atoi
atoi-AllDigits [] n v e f h = absurd (f refl)
atoi-AllDigits (c ∷ s) n v e f h =
    let minus : (c == b'-') ≡ false = ground (arith, v.0) in
    let plus : (c == b'+') ≡ false = ground (arith, v.0) in
    let fits : leb n 9223372036854775807 ≡ true = ground (arith, h) in
    rw (minus, plus) (rw e (rw fits refl))

end_nonempty : (a : Bytes) (c : ℕ) → a ++ c ∷ [] ≡ [] → ⊥
end_nonempty [] c e = cc
end_nonempty (x ∷ a) c e = cc

digits_nonempty : (fuel n : ℕ) → digits fuel n ≡ [] → ⊥
unfolding digits
digits_nonempty zero n e = cc
digits_nonempty (suc fuel) n e = elim (Bool-cases (ltb n 10)) [
  | inl t ↦ cons_nil (rw t at e)
  | inr t ↦ end_nonempty (digits fuel (n / 10)) (b'0' + n % 10) (rw t at e)
]
  where
    cons_nil : (b'0' + n) ∷ [] ≡ [] → ⊥
    cons_nil h = cc

decimal_nonempty : (n : ℕ) → decimal n ≡ [] → ⊥
unfolding decimal
decimal_nonempty n e = digits_nonempty n n e

atoi-decimal : (n : ℕ) → n ≤ 9223372036854775807 → atoi (decimal n) ≡ some (pos n)
atoi-decimal n h =
    atoi-AllDigits (decimal n) n (decimal-AllDigits n)
      (digits_from-AllDigits 0 (decimal n) (decimal-AllDigits n)
        ∙ ap (λ (m : ℕ). some m) (read_from-decimal n))
      (decimal_nonempty n) h

split-head : (l : Bytes) → (rest : List Bytes) × (split b':' l ≡ before_colon l ∷ rest)
unfolding split
split-head [] = ([], refl)
split-head (c ∷ l) = elim (Bool-cases (c == b':')) [
  | inl t ↦ (split b':' l, rw t refl)
  | inr t ↦ let (rest, e) = split-head l in (rest, rw (t, e) refl)
]

entry_in_line-other :
    (name user : Bytes) (rest : List Bytes)
    → same user name ≡ false
    → entry_in_line name (user ∷ rest) ≡ none
entry_in_line-other name user [] h = refl
entry_in_line-other name user (a ∷ []) h = refl
entry_in_line-other name user (a ∷ b ∷ []) h = refl
entry_in_line-other name user (a ∷ b ∷ c ∷ []) h = refl
entry_in_line-other name user (a ∷ b ∷ c ∷ d ∷ []) h = refl
entry_in_line-other name user (a ∷ b ∷ c ∷ d ∷ e ∷ rest) h = rw h refl

-- Lines that do not begin with the name are passed.
entry_in_lines-absent :
    (name : Bytes) (ls more : List Bytes)
    → is_name_in name ls ≡ false
    → entry_in_lines name (ls ++ more) ≡ entry_in_lines name more
unfolding entry_in_lines is_name_in
entry_in_lines-absent name [] more h = refl
entry_in_lines-absent name (l ∷ ls) more h =
    let (rest, e) = split-head l in
    let first : same (before_colon l) name ≡ false = ground (arith, h) in
    let others : is_name_in name ls ≡ false = ground (arith, h) in
    rw (e, entry_in_line-other name (before_colon l) rest first)
      (entry_in_lines-absent name ls more others)

same_refl : (s : Bytes) → same s s ≡ true
same_refl s = (same_iff s s).1 refl

ended-append : (ls : List Bytes) (l : Bytes) → ended ls ++ (l ++ 10 ∷ []) ≡ ended (ls ++ l ∷ [])
ended-append [] l = refl
ended-append (k ∷ ls) l =
    append_assoc k (10 ∷ ended ls) (l ++ 10 ∷ [])
    ∙ ap (λ (s : Bytes). k ++ 10 ∷ s) (ended-append ls l)

All-end : (ls : List Bytes) (l : Bytes) → All IsLine ls → IsLine l → All IsLine (ls ++ l ∷ [])
All-end [] l v w = (w, tt)
All-end (k ∷ ls) l v w = (v.0, All-end ls l v.1 w)

module _ (name home shell : Bytes) (n : ℕ) where
  abbrev pub added_identity : Identity
  added_identity = record {
    name = name;
    uid = pos n;
    gid = pos n;
    home = home;
    groups = groups_string name (pos n) (pos n);
  }

  split-user_line :
      IsField name
      → IsField home
      → split b':' (user_line name (pos n) home shell)
        ≡ name ∷ codes "x" ∷ decimal n ∷ decimal n ∷ name ∷ home ∷ split b':' shell
  split-user_line v w =
      let d = AllDigits-IsField (decimal n) (decimal-AllDigits n) in
      let t5 = home ++ b':' ∷ shell in
      let t4 = name ++ b':' ∷ t5 in
      let t3 = decimal n ++ b':' ∷ t4 in
      let t2 = decimal n ++ b':' ∷ t3 in
      rw
        (
          split-field name (b'x' ∷ b':' ∷ t2) v,
          split-field (b'x' ∷ []) t2 ((refl, refl), tt),
          split-field (decimal n) t3 d,
          split-field (decimal n) t4 d,
          split-field name t5 v,
          split-field home shell w,
        )
        refl

  user_line-IsLine :
      IsField name → IsField home → IsLine shell → IsLine (user_line name (pos n) home shell)
  user_line-IsLine v w u =
      let d = IsField-IsLine (decimal n) (AllDigits-IsField (decimal n) (decimal-AllDigits n)) in
      let t5 = IsLine-append home (b':' ∷ shell) (IsField-IsLine home w) (refl, u) in
      let t4 =
        IsLine-append name (b':' ∷ home ++ b':' ∷ shell) (IsField-IsLine name v) (refl, t5) in
      let t3 = IsLine-append (decimal n) _ d (refl, t4) in
      IsLine-append name _ (IsField-IsLine name v)
        (refl, (refl, (refl, IsLine-append (decimal n) _ d (refl, t3))))

  -- The entry of a name that no other line begins with, behind any lines.
  entry_in_lines-added :
      (ls : List Bytes)
      → IsField name
      → IsField home
      → n ≤ 9223372036854775807
      → is_name_in name ls ≡ false
      → entry_in_lines name (ls ++ user_line name (pos n) home shell ∷ [] ∷ [])
        ≡ some added_identity
  unfolding entry_in_lines
  entry_in_lines-added ls v w h absent =
      entry_in_lines-absent name ls (user_line name (pos n) home shell ∷ [] ∷ []) absent ∙ found
    where
      found :
          entry_in_lines name (user_line name (pos n) home shell ∷ [] ∷ []) ≡ some added_identity
      found = rw (split-user_line v w, same_refl name, atoi-decimal n h) refl

  -- What parsePasswdEntry reads of the line behind lines of which none begins with the name.
  pub parse_passwd_entry-user_line :
      (ls : List Bytes)
      → All IsLine ls
      → IsField name
      → IsField home
      → IsLine shell
      → n ≤ 9223372036854775807
      → is_name_in name ls ≡ false
      → parse_passwd_entry (ended ls ++ (user_line name (pos n) home shell ++ 10 ∷ [])) name
        ≡ some added_identity
  unfolding parse_passwd_entry
  parse_passwd_entry-user_line ls lines v w u h absent =
      let line = user_line name (pos n) home shell in
      ap (entry_in_lines name) (
        ap (split 10) (ended-append ls line)
        ∙ (split-ended (ls ++ line ∷ []) (All-end ls line lines (user_line-IsLine v w u))
            ∙ append_assoc ls (line ∷ []) ([] ∷ [])))
      ∙ entry_in_lines-added ls v w h absent

  -- If /etc/passwd ends with the line that useradd adds for a name, no line before begins with the
  -- name, neither name nor home holds ':' or a newline, the shell holds no newline, and the number
  -- fits into an int, then ResolveUser gives every login whose sanitized user name is that name the
  -- number as user and group, and the home directory, of the line.
  pub resolve_user-user_line :
      (clock : ProcClock) (fs : FileSystem) (login : Bytes) (ls : List Bytes)
      → sanitize_username login ≡ name
      → read_file clock fs (codes "/etc/passwd")
        ≡ ok (ended ls ++ (user_line name (pos n) home shell ++ 10 ∷ []))
      → All IsLine ls
      → IsField name
      → IsField home
      → IsLine shell
      → n ≤ 9223372036854775807
      → is_name_in name ls ≡ false
      → resolve_user clock fs login ≡ added_identity
  unfolding resolve_user
  resolve_user-user_line clock fs login ls safe held lines v w u h absent =
      rw (safe, held, parse_passwd_entry-user_line ls lines v w u h absent) refl
