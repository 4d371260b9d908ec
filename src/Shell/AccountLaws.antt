-- ===== src/Shell/AccountLaws.antt =====
-- What filterPasswdLines and nextUID of internal/shell/executor.go do to the lines of /etc/passwd.
use honeypot_go.Base.{
  ℕ, ◌+◌, ◌-◌, ◌^◌, ◌≤◌, ◌<◌, ◌≡◌, ◌≢◌, ◌⊎◌, refl, sym, ap, ◌∙◌, Bool, true, false, ◌||◌, ◌&&◌, not,
  Option, none, some, List, [], ◌∷◌, ◌++◌, Bytes, same, same_iff, split, ◌==◌, arith, Bool-cases,
  inl, inr, All, push_front, append_assoc,
}
use honeypot_go.Identity.Defs.{ℤ, pos, negsuc}
use honeypot_go.Shell.Text.{join}
use honeypot_go.Shell.Lines.{IsLine, split-append}
use honeypot_go.Shell.Files.{before_colon}
use honeypot_go.Shell.Accounts.{
  is_name_in, user_exists, keep_lines, joined_lines, filter_lines, uid_of_line, or_higher,
  highest_uid, next_int, next_uid,
}

push_front-IsLine :
    (c : ℕ) (ls : List Bytes) → (c == 10) ≡ false → All IsLine ls → All IsLine (push_front c ls)
push_front-IsLine c [] h v = ((h, tt), tt)
push_front-IsLine c (l ∷ ls) h v = ((h, v.0), v.1)

pub split-IsLine : (s : Bytes) → All IsLine (split 10 s)
unfolding split
split-IsLine [] = (tt, tt)
split-IsLine (c ∷ s) = elim (Bool-cases (c == 10)) [
  | inl t ↦ rw t (tt, split-IsLine s)
  | inr t ↦ rw t (push_front-IsLine c (split 10 s) t (split-IsLine s))
]

keep_lines-IsLine :
    (name : Bytes) (ls : List Bytes) → All IsLine ls → All IsLine (keep_lines name ls)
unfolding keep_lines
keep_lines-IsLine name [] v = tt
keep_lines-IsLine name (l ∷ ls) v = elim (Bool-cases (same l [] || same (before_colon l) name)) [
  | inl t ↦ rw t (keep_lines-IsLine name ls v.1)
  | inr t ↦ rw t (v.0, keep_lines-IsLine name ls v.1)
]

-- Lines that each end with a newline.
abbrev pub ended : List Bytes → Bytes
ended [] = []
ended (l ∷ ls) = l ++ 10 ∷ ended ls

joined_lines-ended : (ls : List Bytes) → joined_lines ls ≡ ended ls
unfolding join
joined_lines-ended [] = refl
joined_lines-ended (l ∷ []) = refl
joined_lines-ended (l ∷ m ∷ ls) =
    append_assoc l (10 ∷ join (10 ∷ []) (m ∷ ls)) (10 ∷ [])
    ∙ ap (λ (s : Bytes). l ++ 10 ∷ s) (joined_lines-ended (m ∷ ls))

split-nil : split 10 [] ≡ [] ∷ []
unfolding split
split-nil = refl

pub split-ended : (ls : List Bytes) → All IsLine ls → split 10 (ended ls) ≡ ls ++ [] ∷ []
split-ended [] v = split-nil
split-ended (l ∷ ls) v =
    split-append l (ended ls) v.0 ∙ ap (λ (ms : List Bytes). l ∷ ms) (split-ended ls v.1)

is_name_in-end :
    (name : Bytes) (ls : List Bytes)
    → same [] name ≡ false
    → is_name_in name (ls ++ [] ∷ []) ≡ is_name_in name ls
unfolding is_name_in
is_name_in-end name [] h = rw h refl
is_name_in-end name (l ∷ ls) h = rw (is_name_in-end name ls h) refl

same-sym : (a b : Bytes) → same a b ≡ same b a
same-sym a b = elim (Bool-cases (same a b)) [
  | inl t ↦ t ∙ sym ((same_iff b a).1 (sym ((same_iff a b).0 t)))
  | inr t ↦ elim (Bool-cases (same b a)) [
    | inl u ↦ absurd (true_false (sym ((same_iff a b).1 (sym ((same_iff b a).0 u))) ∙ t))
    | inr u ↦ t ∙ sym u
  ]
]
  where
    true_false : true ≡ false → ⊥
    true_false e = cc

-- A line that is left out is empty or of the name.
is_name_in-keep_lines :
    (name other : Bytes) (ls : List Bytes)
    → same [] other ≡ false
    → is_name_in other (keep_lines name ls) ≡ (not (same other name) && is_name_in other ls)
unfolding is_name_in keep_lines
is_name_in-keep_lines name other [] h = ground arith
is_name_in-keep_lines name other (l ∷ ls) h =
    let ih = is_name_in-keep_lines name other ls h in
    elim (Bool-cases (same l [])) [
      | inl t ↦ let e = (same_iff l []).0 t in rw t (rw (e, h) ih)
      | inr t ↦ elim (Bool-cases (same (before_colon l) name)) [
        | inl u ↦
            rw (t, u, (same_iff (before_colon l) name).0 u, same-sym name other)
              (skipped (same other name) (is_name_in other ls) _ ih)
        | inr u ↦ rw (t, u, ih) (kept (Bool-cases (same (before_colon l) other)) u)
      ]
    ]
  where
    skipped : (b x y : Bool) → y ≡ (not b && x) → y ≡ (not b && (b || x))
    skipped true x y e = e
    skipped false x y e = e

    kept :
        (same (before_colon l) other ≡ true) ⊎ (same (before_colon l) other ≡ false)
        → same (before_colon l) name ≡ false
        → (same (before_colon l) other || (not (same other name) && is_name_in other ls))
          ≡ (not (same other name) && (same (before_colon l) other || is_name_in other ls))
    kept (inl t) u = rw (t, ← (same_iff (before_colon l) other).0 t, u) refl
    kept (inr t) u = rw t refl

-- After the lines of a user are filtered out of /etc/passwd, that user is gone, and any other user is
-- there as before, whatever the file holds.
pub user_exists-filter_lines :
    (content name other : Bytes)
    → same [] other ≡ false
    → user_exists (filter_lines content name) other
      ≡ (not (same other name) && user_exists content other)
unfolding user_exists filter_lines
user_exists-filter_lines content name other h =
    let ls = keep_lines name (split 10 content) in
    rw
      (
        joined_lines-ended ls,
        split-ended ls (keep_lines-IsLine name (split 10 content) (split-IsLine content)),
        is_name_in-end other ls h,
      )
      (is_name_in-keep_lines name other (split 10 content) h)

-- The numbers of the lines are at most the highest one.
highest_uid-start : (high : ℕ) (ls : List Bytes) → high ≤ highest_uid high ls
unfolding highest_uid
highest_uid-start high [] = omega arith
highest_uid-start high (l ∷ ls) =
    omega (arith, raised (uid_of_line l), highest_uid-start (or_higher high (uid_of_line l)) ls)
  where
    raised : (o : Option ℤ) → high ≤ or_higher high o
    raised none = omega arith
    raised (some (pos n)) = ground arith
    raised (some (negsuc n)) = omega arith

abbrev pub IsAtMost : ℕ → Option ℤ → Type 0
IsAtMost high (some (pos n)) = n ≤ high
IsAtMost high _ = Unit {0}

highest_uid-IsAtMost :
    (high : ℕ) (ls : List Bytes) → All (λ l. IsAtMost (highest_uid high ls) (uid_of_line l)) ls
unfolding highest_uid
highest_uid-IsAtMost high [] = tt
highest_uid-IsAtMost high (l ∷ ls) = (
  first (uid_of_line l) (highest_uid-start (or_higher high (uid_of_line l)) ls),
  highest_uid-IsAtMost (or_higher high (uid_of_line l)) ls,
)
  where
    first :
        (o : Option ℤ)
        → or_higher high o ≤ highest_uid (or_higher high (uid_of_line l)) ls
        → IsAtMost (highest_uid (or_higher high (uid_of_line l)) ls) o
    first none k = tt
    first (some (pos n)) k = ground (arith, k)
    first (some (negsuc n)) k = tt

next_int-pos : (high : ℕ) → high < 2 ^ 63 - 1 → next_int high ≡ pos (high + 1)
next_int-pos high k = let b : (high == 2 ^ 63 - 1) ≡ false = ground (arith, k) in rw b refl

not_above : (high n : ℕ) → n ≤ high → ◌≡◌ {A = Option ℤ} (some (pos n)) (some (pos (high + 1))) → ⊥
not_above high n p e = let q : n ≡ high + 1 = cc in omega (arith, p, q)

not_negative : (high n : ℕ) → ◌≡◌ {A = Option ℤ} (some (negsuc n)) (some (pos (high + 1))) → ⊥
not_negative high n e = cc

-- The number that useradd gives to a new user is at least 1000 and stands in no line of /etc/passwd,
-- if no line has the highest number that an int holds.
pub next_uid-fresh :
    (content : Bytes)
    → highest_uid 999 (split 10 content) < 2 ^ 63 - 1
    → ((n : ℕ) × (next_uid content ≡ pos n) × (1000 ≤ n))
      × All (λ l. uid_of_line l ≢ some (next_uid content)) (split 10 content)
unfolding next_uid
next_uid-fresh content h = (
  (
    highest_uid 999 (split 10 content) + 1,
    next_int-pos (highest_uid 999 (split 10 content)) h,
    omega (arith, highest_uid-start 999 (split 10 content)),
  ),
  fresh (highest_uid 999 (split 10 content)) h (split 10 content)
      (highest_uid-IsAtMost 999 (split 10 content)),
)
  where
    fresh :
        (high : ℕ)
        → high < 2 ^ 63 - 1
        → (ls : List Bytes) → All (λ l. IsAtMost high (uid_of_line l)) ls
        → All (λ l. uid_of_line l ≢ some (next_int high)) ls
    fresh high k [] v = tt
    fresh high k (l ∷ ls) v = (other (uid_of_line l) v.0, fresh high k ls v.1)
      where
        other : (o : Option ℤ) → IsAtMost high o → o ≢ some (next_int high)
        other none p e = cc
        other (some (pos n)) p e = not_above high n p (rw (next_int-pos high k) at e)
        other (some (negsuc n)) p e = not_negative high n (rw (next_int-pos high k) at e)
