-- ===== src/Shell/Modes.antt =====
-- `octalToPerm` and `chmodCmd`'s mode of internal/shell/executor.go.
use honeypot_go.Base.{
  ℕ, ◌+◌, ◌-◌, ◌*◌, ◌/◌, ◌%◌, ◌≡◌, refl, false, ◌||◌, ◌&&◌, Option, none, some, [], ◌∷◌, ◌++◌, bind,
  if◌then◌else◌, leb, ltb, ◌==◌, Bytes, codes, has_prefix, contains, length, drop, arith, bit_and,
  Bool-cases, inl, inr,
}
use honeypot_go.Vfs.Tree.{perm_writable, immutable, Ptr, Node, meta, deref, alter, with_meta}
use honeypot_go.Vfs.Change.{with_mode, chmod}
use honeypot_go.Vfs.State.{
  FileSystem, FsError, Outcome, fail, done, edit, not_permitted, invalid_mode,
}
use honeypot_go.Vfs.Laws.{deref_of_find, find-alter_self}
use honeypot_go.Vfs.Reach.{IsAt, walk_path-IsAt}
use honeypot_go.Vfs.Walk.{walk_path}

-- The digits of a mode, read in base 8; none for a byte that is no octal digit. The source keeps the
-- number in an int: three digits at most are read.
abbrev pub octal_from : ℕ → Bytes → Option ℕ
octal_from n [] = some n
octal_from n (c ∷ s) =
    let rest = octal_from (n * 8 + (c - b'0')) s in if leb b'0' c && leb c b'7' then rest else none

abbrev pub permission_bit : ℕ → ℕ → ℕ → ℕ
permission_bit digit mask letter = if bit_and digit mask == 0 then b'-' else letter

abbrev pub digit_letters : ℕ → Bytes
digit_letters d = permission_bit d 4 b'r' ∷ permission_bit d 2 b'w' ∷ permission_bit d 1 b'x' ∷ []

abbrev pub octal_letters : ℕ → Bytes
octal_letters n = digit_letters (n / 64 % 8) ++ (digit_letters (n / 8 % 8) ++ digit_letters (n % 8))

-- `octalToPerm`; the empty text of the source is none.
unfoldable pub octal_to_perm : Bytes → Option Bytes
octal_to_perm mode =
    let last = if ltb 3 (length mode) then drop (length mode - 3) mode else mode in
    bind (octal_from 0 last) (λ n. some (octal_letters n))

-- The permissions of `chmodCmd` for its first argument.
unfoldable pub chmod_perm : Bytes → Option Bytes
unfolding octal_to_perm has_prefix contains
chmod_perm mode =
    if has_prefix mode (codes "+") || has_prefix mode (codes "-")
    then some (if contains mode (codes "x") then codes "-rwxr-xr-x" else codes "-rw-r--r--")
    else octal_to_perm mode

-- The places that `permWritable` looks at hold the letters for execution.
writable_letters : (old : Bytes) (n : ℕ) → perm_writable (with_mode old (octal_letters n)) ≡ false
unfolding perm_writable
writable_letters old n = rw (no_w (n / 64 % 8), no_w (n / 8 % 8), no_w (n % 8)) refl
  where
    no_w : (d : ℕ) → (permission_bit d 1 b'x' == b'w') ≡ false
    no_w d = elim (Bool-cases (bit_and d 1 == 0)) [ inl t ↦ rw t refl | inr t ↦ rw t refl ]

octal_to_perm-closed :
    (mode perm old : Bytes)
    → octal_to_perm mode ≡ some perm
    → perm_writable (with_mode old perm) ≡ false
unfolding octal_to_perm
octal_to_perm-closed mode perm old e =
    closed (octal_from 0 (if ltb 3 (length mode) then drop (length mode - 3) mode else mode)) e
  where
    closed :
        (o : Option ℕ)
        → bind o (λ n. some (octal_letters n)) ≡ some perm
        → perm_writable (with_mode old perm) ≡ false
    closed none q = absurd (none_some q)
      where
        none_some : ◌≡◌ {A = Option Bytes} none (some perm) → ⊥
        none_some r = cc
    closed (some n) q =
        let r : octal_letters n ≡ perm = ground (arith, q) in rw (← r) (writable_letters old n)

abbrev mode_edit : Bytes → Node → Node
mode_edit perm = with_meta (λ m. record m { perm = with_mode m.perm perm })

-- The rest of `Chmod` behind a path that leads to `at`.
abbrev chmod_at : Bytes → FileSystem → Ptr → Outcome
chmod_at perm fs at =
    if immutable (meta (deref fs.root at))
    then fail fs not_permitted
    else if ltb (length perm) 9
    then fail fs invalid_mode
    else done (edit (mode_edit perm) at fs)

chmod_at-closed :
    (mode perm : Bytes) (fs : FileSystem) (at : Ptr)
    → octal_to_perm mode ≡ some perm
    → IsAt fs.root at
    → (chmod_at perm fs at).1 ≡ none
    → perm_writable (meta (deref (chmod_at perm fs at).0.root at)).perm ≡ false
chmod_at-closed mode perm fs at o (d, e) h =
    elim (Bool-cases (immutable (meta (deref fs.root at)))) [
      | inl t ↦ absurd (some_none (rw t at h))
      | inr t ↦ elim (Bool-cases (ltb (length perm) 9)) [
        | inl u ↦ absurd (some_none (rw (t, u) at h))
        | inr u ↦
            rw
              (
                t,
                u,
                deref_of_find at (alter (mode_edit perm) at fs.root) (mode_edit perm d)
                    (find-alter_self (mode_edit perm) at fs.root d e),
              )
              (octal_to_perm-closed mode perm (meta d).perm o)
      ]
    ]
  where
    some_none : {x : FsError} → some x ≡ none → ⊥
    some_none q = cc

-- After a chmod with any octal mode, 777 among them, that gives no error, the test by which writes
-- are permitted fails on the permissions of the node that the path led to.
pub chmod-octal_to_perm :
    (path mode perm : Bytes) (fs : FileSystem) (at : Ptr)
    → octal_to_perm mode ≡ some perm
    → walk_path fs.root path ≡ some at
    → (chmod path perm fs).1 ≡ none
    → perm_writable (meta (deref (chmod path perm fs).0.root at)).perm ≡ false
unfolding chmod
chmod-octal_to_perm path mode perm fs at o w h =
    rw w (chmod_at-closed mode perm fs at o (walk_path-IsAt fs.root path at w) (rw w at h))
