-- ===== src/Shell/GlobLaws.antt =====
-- What the patterns of `globMatch` of internal/shell/executor.go mean.
use honeypot_go.Base.{
  ℕ, zero, suc, ◌+◌, ◌-◌, ◌*◌, ◌≤◌, ◌<◌, ◌≡◌, refl, ap, ◌∙◌, Bool, true, false, ◌||◌, Option, none,
  some, [], ◌∷◌, ◌++◌, inl, inr, ◌↔◌, if◌then◌else◌, ◌==◌, ==_iff, Bytes, length, arith, Bool-cases,
  Option-cases, subst, append-nil, contains, has_prefix, ltb, ◌/◌, ◌%◌, All,
}
use honeypot_go.Shell.Columns.{member}
use honeypot_go.Shell.Glob.{
  class_end, some_suffix, contains_rune, in_class, any_one, that_one, is_empty, glob_on, glob_match,
}

-- The bytes of the character with the number x, which is below 2048, in UTF-8.
abbrev pub Encodes : ℕ → Bytes → Type 0
Encodes x [] = ⊥
Encodes x (c ∷ []) = (x < 128) × (c ≡ x)
Encodes x (c ∷ d ∷ []) =
    (128 ≤ x) × (192 ≤ c) × (128 ≤ d) × (d < 192) × (x ≡ (c - 192) * 64 + (d - 128))
Encodes x (c ∷ d ∷ e ∷ s) = ⊥

abbrev pub Holds : Bytes → ℕ → Type 0
Holds set x = (a : Bytes) × ((r : Bytes) × ((b : Bytes) × ((set ≡ a ++ (r ++ b)) × Encodes x r)))

-- The set is what stands before the first ']'.
abbrev pub EndsSet : Bytes → Bytes → Bytes → Type 0
EndsSet p set rest = (p ≡ set ++ b']' ∷ rest) × All (λ c. (c == b']') ≡ false) set

-- The meaning of a pattern.
pub data Matches : Bytes → Bytes → Type 0 where
  end : Matches [] []
  star : {p s : Bytes} (t : Bytes) → Matches p s → Matches (b'*' ∷ p) (t ++ s)
  one : {p s : Bytes} (x : ℕ) → Matches p s → Matches (b'?' ∷ p) (x ∷ s)
  class :
      {p rest s : Bytes} (set : Bytes) (x : ℕ)
      → EndsSet p set rest
      → Holds set x
      → Matches rest s
      → Matches (b'[' ∷ p) (x ∷ s)
  byte :
      {p s : Bytes} (c : ℕ)
      → (c == b'*') ≡ false
      → (c == b'?') ≡ false
      → (c == b'[') ≡ false
      → Matches p s
      → Matches (c ∷ p) (c ∷ s)

class_end-append :
    (set rest : Bytes)
    → All (λ c. (c == b']') ≡ false) set
    → class_end (set ++ b']' ∷ rest) ≡ some (set, rest)
unfolding class_end
class_end-append [] rest v = refl
class_end-append (c ∷ set) rest v = rw (v.0, class_end-append set rest v.1) refl

class_end-inv : (p set rest : Bytes) → class_end p ≡ some (set, rest) → EndsSet p set rest
unfolding class_end
class_end-inv [] set rest e = absurd cc
class_end-inv (c ∷ p) set rest e = elim (Bool-cases (c == b']')) [
  | inl t ↦
      let q : p ≡ rest = ground (arith, e, t) in
      let n : [] ≡ set = ground (arith, e, t) in rw (← n, ← q, (==_iff c b']').0 t) (refl, tt)
  | inr t ↦ elim (Option-cases (class_end p)) [
    | inl n ↦ absurd (ground (arith, e, t, n))
    | inr ((a, b), n) ↦
        let q : b ≡ rest = ground (arith, e, t, n) in
        let w : c ∷ a ≡ set = ground (arith, e, t, n) in
        let (f, v) = class_end-inv p a b n in rw (← q, ← w) (ap (λ (z : Bytes). c ∷ z) f, (t, v))
  ]
]

has_prefix-append : (r b : Bytes) → has_prefix (r ++ b) r ≡ true
unfolding has_prefix
has_prefix-append [] b = refl
has_prefix-append (c ∷ r) b = rw ((==_iff c c).1 refl, has_prefix-append r b) refl

has_prefix-inv : (s r : Bytes) → has_prefix s r ≡ true → (b : Bytes) × (s ≡ r ++ b)
unfolding has_prefix
has_prefix-inv s [] h = (s, refl)
has_prefix-inv [] (c ∷ r) h = absurd cc
has_prefix-inv (d ∷ s) (c ∷ r) h =
    let q : d ≡ c = ground (arith, h) in
    let (b, e) = has_prefix-inv s r (ground (arith, h)) in
    (b, ap (λ (x : ℕ). x ∷ s) q ∙ ap (λ (z : Bytes). c ∷ z) e)

contains-append : (a r b : Bytes) → contains (a ++ (r ++ b)) r ≡ true
unfolding contains
contains-append [] r b = at_start (r ++ b) r (has_prefix-append r b)
  where
    at_start : (s p : Bytes) → has_prefix s p ≡ true → contains s p ≡ true
    at_start [] p h = h
    at_start (c ∷ s) p h = rw h refl
contains-append (c ∷ a) r b = rw (contains-append a r b) (or_true _)
  where
    or_true : (x : Bool) → (x || true) ≡ true
    or_true true = refl
    or_true false = refl

contains-inv :
    (s r : Bytes) → contains s r ≡ true → (a : Bytes) × ((b : Bytes) × (s ≡ a ++ (r ++ b)))
unfolding contains
contains-inv [] r h = let (b, e) = has_prefix-inv [] r h in ([], (b, e))
contains-inv (c ∷ s) r h = elim (Bool-cases (has_prefix (c ∷ s) r)) [
  | inl t ↦ let (b, e) = has_prefix-inv (c ∷ s) r t in ([], (b, e))
  | inr t ↦
      let (a, (b, e)) = contains-inv s r (rw t at h) in (c ∷ a, (b, ap (λ (z : Bytes). c ∷ z) e))
]

member-inv :
    (s : Bytes) (x : ℕ) → member x s ≡ true → (a : Bytes) × ((b : Bytes) × (s ≡ a ++ x ∷ b))
member-inv [] x h = absurd cc
member-inv (c ∷ s) x h = elim (Bool-cases (c == x)) [
  | inl t ↦ ([], (s, ap (λ (d : ℕ). d ∷ s) ((==_iff c x).0 t)))
  | inr t ↦
      let (a, (b, e)) = member-inv s x (rw t at h) in (c ∷ a, (b, ap (λ (z : Bytes). c ∷ z) e))
]

member-append : (a b : Bytes) (x : ℕ) → member x (a ++ x ∷ b) ≡ true
member-append [] b x = rw ((==_iff x x).1 refl) refl
member-append (c ∷ a) b x = rw (member-append a b x) (or_true (c == x))
  where
    or_true : (y : Bool) → (y || true) ≡ true
    or_true true = refl
    or_true false = refl

contains_rune-Holds : (set : Bytes) (x : ℕ) → contains_rune set x ≡ true → Holds set x
contains_rune-Holds set x h = elim (Bool-cases (ltb x 128)) [
  | inl t ↦
      let (a, (b, e)) = member-inv set x (rw t at h) in
      (a, (x ∷ [], (b, (e, (ground (arith, t), refl)))))
  | inr t ↦
      let (a, (b, e)) = contains-inv set ((192 + x / 64) ∷ (128 + x % 64) ∷ []) (rw t at h) in
      let k : 128 ≤ x = ground (arith, t) in
      (
        a,
        (
          (192 + x / 64) ∷ (128 + x % 64) ∷ [],
          (b, (e, (k, omega arith, omega arith, omega arith, omega arith))),
        ),
      )
]

Encodes-contains_rune :
    (a r b : Bytes) (x : ℕ) → Encodes x r → contains_rune (a ++ (r ++ b)) x ≡ true
Encodes-contains_rune a [] b x h = absurd h
Encodes-contains_rune a (c ∷ []) b x h =
    let t : ltb x 128 ≡ true = ground (arith, h.0) in rw (t, h.1) (member-append a b x)
Encodes-contains_rune a (c ∷ d ∷ []) b x h =
    let t : ltb x 128 ≡ false = ground (arith, h.0) in
    let p : 192 + x / 64 ≡ c = omega (arith, h.1, h.2, h.3, h.4) in
    let q : 128 + x % 64 ≡ d = omega (arith, h.1, h.2, h.3, h.4) in
    rw (t, p, q) (contains-append a (c ∷ d ∷ []) b)
Encodes-contains_rune a (c ∷ d ∷ e ∷ s) b x h = absurd h

contains_rune-of : (set : Bytes) (x : ℕ) → Holds set x → contains_rune set x ≡ true
contains_rune-of set x (a, (r, (b, (e, h)))) = rw e (Encodes-contains_rune a r b x h)

class_end-length :
    (p set rest : Bytes) → class_end p ≡ some (set, rest) → suc (length rest) ≤ length p
unfolding class_end
class_end-length [] set rest e = cc
class_end-length (c ∷ p) set rest e = elim (Bool-cases (c == b']')) [
  | inl t ↦ let q : p ≡ rest = ground (arith, e, t) in rw (← q) (omega arith)
  | inr t ↦ elim (Option-cases (class_end p)) [
    | inl n ↦ absurd (ground (arith, e, t, n))
    | inr (r, n) ↦
        let q : r.1 ≡ rest = ground (arith, e, t, n) in
        let k = class_end-length p r.0 r.1 n in rw (← q) (omega (arith, k))
  ]
]

some_suffix-append : (f : Bytes → Bool) (t s : Bytes) → f s ≡ true → some_suffix f (t ++ s) ≡ true
unfolding some_suffix
some_suffix-append f [] [] h = h
some_suffix-append f [] (c ∷ s) h = ground (arith, h)
some_suffix-append f (x ∷ t) s h = ground (arith, some_suffix-append f t s h)

some_suffix-inv :
    (f : Bytes → Bool) (s : Bytes)
    → some_suffix f s ≡ true
    → (t : Bytes) × ((u : Bytes) × ((s ≡ t ++ u) × (f u ≡ true)))
unfolding some_suffix
some_suffix-inv f [] h = ([], ([], (refl, h)))
some_suffix-inv f (c ∷ s) h = elim (Bool-cases (f (c ∷ s))) [
  | inl t ↦ ([], (c ∷ s, (refl, t)))
  | inr t ↦
      let (a, (u, (e, k))) = some_suffix-inv f s (rw t at h) in
      (c ∷ a, (u, (ap (λ (x : Bytes). c ∷ x) e, k)))
]

some_suffix-true : (f : Bytes → Bool) (s : Bytes) → f [] ≡ true → some_suffix f s ≡ true
unfolding some_suffix
some_suffix-true f [] h = h
some_suffix-true f (c ∷ s) h = ground (arith, some_suffix-true f s h)

no_fuel : {A : Type 0} (n : ℕ) → suc n ≤ 0 → A
no_fuel n h = absurd (omega (arith, h))

-- Complete: on enough fuel what the pattern means is matched.
glob_on_complete :
    {p s : Bytes} → Matches p s → (fuel : ℕ) → length p ≤ fuel → glob_on fuel p s ≡ true
unfolding glob_on
glob_on_complete end fuel h = refl
glob_on_complete (star {p} t m) zero h = no_fuel (length p) h
glob_on_complete (one {p} x m) zero h = no_fuel (length p) h
glob_on_complete (class {p} set x e k m) zero h = no_fuel (length p) h
glob_on_complete (byte {p} c a b d m) zero h = no_fuel (length p) h
glob_on_complete (star {p} {s} t m) (suc fuel) h = elim (Bool-cases (is_empty p)) [
  | inl e ↦ rw e refl
  | inr e ↦
      rw e (some_suffix-append (glob_on fuel p) t s (glob_on_complete m fuel (omega (arith, h))))
]
glob_on_complete (one x m) (suc fuel) h = glob_on_complete m fuel (omega (arith, h))
glob_on_complete (class {p} {rest} set x e k m) (suc fuel) h =
    let d : class_end p ≡ some (set, rest) = ap class_end e.0 ∙ class_end-append set rest e.1 in
    let l = class_end-length p set rest d in
    rw (d, contains_rune-of set x k) (glob_on_complete m fuel (omega (arith, h, l)))
glob_on_complete (byte c a b d m) (suc fuel) h =
    rw (a, b, d, (==_iff c c).1 refl) (glob_on_complete m fuel (omega (arith, h)))

false_true : {A : Type 0} → false ≡ true → A
false_true q = absurd cc

is_empty-nil : (s : Bytes) → is_empty s ≡ true → s ≡ []
is_empty-nil [] e = refl
is_empty-nil (c ∷ s) e = false_true e

-- Sound: what is matched is what the pattern means, if that is so of the rest of the pattern.
module _ (run : Bytes → Bytes → Bool) (ih : (q z : Bytes) → run q z ≡ true → Matches q z) where
  star-Matches :
      (p s : Bytes)
      → (if is_empty p then true else some_suffix (run p) s) ≡ true
      → Matches (b'*' ∷ p) s
  star-Matches [] s h = subst (λ z. Matches (b'*' ∷ []) z) (append-nil s) (star s end)
  star-Matches (c ∷ p) s h =
      let (t, (u, (e, k))) = some_suffix-inv (run (c ∷ p)) s h in rw e (star t (ih (c ∷ p) u k))

  one-Matches : (p s : Bytes) → any_one run p s ≡ true → Matches (b'?' ∷ p) s
  one-Matches p [] h = false_true h
  one-Matches p (x ∷ s) h = one x (ih p s h)

  class-Matches :
      (p s : Bytes) (o : Option (Bytes × Bytes))
      → class_end p ≡ o
      → in_class run o s ≡ true
      → Matches (b'[' ∷ p) s
  class-Matches p s none e h = false_true h
  class-Matches p [] (some r) e h = false_true h
  class-Matches p (x ∷ s) (some r) e h = elim (Bool-cases (contains_rune r.0 x)) [
    | inl t ↦
        class r.0 x (class_end-inv p r.0 r.1 e) (contains_rune-Holds r.0 x t) (ih r.1 s (rw t at h))
    | inr t ↦ false_true (rw t at h)
  ]

  byte-Matches :
      (c : ℕ) (p s : Bytes)
      → (c == b'*') ≡ false
      → (c == b'?') ≡ false
      → (c == b'[') ≡ false
      → that_one run c p s ≡ true
      → Matches (c ∷ p) s
  byte-Matches c p [] a b d h = false_true h
  byte-Matches c p (x ∷ s) a b d h = elim (Bool-cases (c == x)) [
    | inl t ↦ rw (← (==_iff c x).0 t) (byte c a b d (ih p s (rw t at h)))
    | inr t ↦ false_true (rw t at h)
  ]

glob_on_sound : (fuel : ℕ) (p s : Bytes) → glob_on fuel p s ≡ true → Matches p s
unfolding glob_on
glob_on_sound zero [] s h = rw (is_empty-nil s h) end
glob_on_sound (suc fuel) [] s h = rw (is_empty-nil s h) end
glob_on_sound zero (c ∷ p) s h = false_true h
glob_on_sound (suc fuel) (c ∷ p) s h =
    let ih = glob_on_sound fuel in
    elim (Bool-cases (c == b'*')) [
      | inl t ↦ rw ((==_iff c b'*').0 t) (star-Matches (glob_on fuel) ih p s (rw t at h))
      | inr t ↦ elim (Bool-cases (c == b'?')) [
        | inl u ↦ rw ((==_iff c b'?').0 u) (one-Matches (glob_on fuel) ih p s (rw (t, u) at h))
        | inr u ↦ elim (Bool-cases (c == b'[')) [
          | inl v ↦
              rw ((==_iff c b'[').0 v)
                (class-Matches (glob_on fuel) ih p s (class_end p) refl (rw (t, u, v) at h))
          | inr v ↦ byte-Matches (glob_on fuel) ih c p s t u v (rw (t, u, v) at h)
        ]
      ]
    ]

≤-self : (n : ℕ) → n ≤ n
≤-self n = omega arith

-- The matching of find -name answers true exactly for the texts that the pattern means, where '*'
-- is any text, '?' any byte, "[…]" one byte that the bytes up to the next ']' hold, and another
-- byte itself. Bytes hold a byte below 128 if it stands among them, and a byte from 128 on if the
-- character of that number, in the two bytes of UTF-8, stands among them.
pub glob_match-Matches : (p s : Bytes) → (glob_match p s ≡ true) ↔ Matches p s
unfolding glob_match
glob_match-Matches p s =
    (glob_on_sound (length p) p s, λ m. glob_on_complete m (length p) (≤-self (length p)))
