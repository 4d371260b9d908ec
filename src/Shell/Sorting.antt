-- ===== src/Shell/Sorting.antt =====
-- The order of the lines behind sort and uniq.
use honeypot_go.Base.{
  ℕ, ◌+◌, ◌≡◌, refl, sym, subst, ◌∙◌, true, false, ◌||◌, List, [], ◌∷◌, if◌then◌else◌, Bytes, same,
  same_iff, contains_str, arith, Bool-cases, inl, inr,
}
use honeypot_go.Base.Order.{bytes_lt, insert_by, sort_by}
use honeypot_go.Shell.Filters.{sort_lines, uniq_from, uniq_lines}

pub bytes_lt-asym : (a b : Bytes) → bytes_lt a b ≡ true → bytes_lt b a ≡ false
unfolding bytes_lt
bytes_lt-asym a [] h = cc
bytes_lt-asym [] (y ∷ b) h = refl
bytes_lt-asym (x ∷ a) (y ∷ b) h = ground (arith, h, bytes_lt-asym a b)

-- Of two different lines one is before the other.
bytes_lt-total : (a b : Bytes) → bytes_lt a b ≡ false → bytes_lt b a ≡ false → a ≡ b
unfolding bytes_lt
bytes_lt-total [] [] h k = refl
bytes_lt-total [] (y ∷ b) h k = cc
bytes_lt-total (x ∷ a) [] h k = cc
bytes_lt-total (x ∷ a) (y ∷ b) h k = ground (arith, h, k, bytes_lt-total a b)

-- No line is before the one that stands in front of it.
abbrev pub IsOrdered : List Bytes → Type 0
IsOrdered [] = Unit {0}
IsOrdered (l ∷ []) = Unit {0}
IsOrdered (l ∷ m ∷ ls) = (bytes_lt m l ≡ false) × IsOrdered (m ∷ ls)

-- Each line is before the next one.
abbrev pub IsIncreasing : List Bytes → Type 0
IsIncreasing [] = Unit {0}
IsIncreasing (l ∷ []) = Unit {0}
IsIncreasing (l ∷ m ∷ ls) = (bytes_lt l m ≡ true) × IsIncreasing (m ∷ ls)

-- How often a line occurs.
abbrev pub occurrences : Bytes → List Bytes → ℕ
occurrences l [] = 0
occurrences l (m ∷ ls) = (if same m l then 1 else 0) + occurrences l ls

abbrev pub line_key : Bytes → Bytes
line_key l = l

insert_by-IsOrdered :
    (l : Bytes) (ls : List Bytes) → IsOrdered ls → IsOrdered (insert_by line_key l ls)
unfolding insert_by
insert_by-IsOrdered l [] h = tt
insert_by-IsOrdered l (m ∷ []) h = elim (Bool-cases (bytes_lt m l)) [
  | inl t ↦ rw t (bytes_lt-asym m l t, tt)
  | inr t ↦ rw t (t, tt)
]
insert_by-IsOrdered l (m ∷ n ∷ ls) h = elim (Bool-cases (bytes_lt m l)) [
  | inr t ↦ rw t (t, h)
  | inl t ↦ elim (Bool-cases (bytes_lt n l)) [
    | inl u ↦ rw (t, u) (let r = insert_by-IsOrdered l (n ∷ ls) h.1 in (h.0, rw u at r))
    | inr u ↦ rw (t, u) (bytes_lt-asym m l t, (u, h.1))
  ]
]

sort_by-IsOrdered : (ls : List Bytes) → IsOrdered (sort_by line_key ls)
unfolding sort_by
sort_by-IsOrdered [] = tt
sort_by-IsOrdered (l ∷ ls) = insert_by-IsOrdered l (sort_by line_key ls) (sort_by-IsOrdered ls)

occurrences-insert_by :
    (k l : Bytes) (ls : List Bytes)
    → occurrences k (insert_by line_key l ls) ≡ (if same l k then 1 else 0) + occurrences k ls
unfolding insert_by
occurrences-insert_by k l [] = refl
occurrences-insert_by k l (m ∷ ls) = elim (Bool-cases (bytes_lt m l)) [
  | inl t ↦ rw t (omega (arith, occurrences-insert_by k l ls))
  | inr t ↦ rw t refl
]

occurrences-sort_by :
    (k : Bytes) (ls : List Bytes) → occurrences k (sort_by line_key ls) ≡ occurrences k ls
unfolding sort_by
occurrences-sort_by k [] = refl
occurrences-sort_by k (l ∷ ls) =
    omega (arith, occurrences-insert_by k l (sort_by line_key ls), occurrences-sort_by k ls)

-- The filter sort gives its lines in order, and each line as often as it was there.
pub sort_lines-IsOrdered :
    (ls : List Bytes)
    → IsOrdered (sort_lines ls) × ((l : Bytes) → occurrences l (sort_lines ls) ≡ occurrences l ls)
unfolding sort_lines
sort_lines-IsOrdered ls = (sort_by-IsOrdered ls, λ l. occurrences-sort_by l ls)

uniq_from-IsIncreasing :
    (l : Bytes) (ls : List Bytes) → IsOrdered (l ∷ ls) → IsIncreasing (l ∷ uniq_from l ls)
unfolding uniq_from
uniq_from-IsIncreasing l [] h = tt
uniq_from-IsIncreasing l (m ∷ ls) h = elim (Bool-cases (same l m)) [
  | inl t ↦ rw t (
      let e : l ≡ m = (same_iff l m).0 t in
      uniq_from-IsIncreasing l ls (subst (λ (x : Bytes). IsOrdered (x ∷ ls)) (sym e) h.1))
  | inr t ↦ rw t (elim (Bool-cases (bytes_lt l m)) [
    | inl u ↦ (u, uniq_from-IsIncreasing m ls h.1)
    | inr u ↦ absurd (ground (arith, t, same_iff l m, bytes_lt-total l m u h.0))
  ])
]

uniq_lines-IsIncreasing : (ls : List Bytes) → IsOrdered ls → IsIncreasing (uniq_lines ls)
unfolding uniq_lines
uniq_lines-IsIncreasing [] h = tt
uniq_lines-IsIncreasing (l ∷ ls) h = uniq_from-IsIncreasing l ls h

contains_str-uniq_from :
    (l k : Bytes) (ls : List Bytes)
    → (same l k || contains_str (uniq_from l ls) k) ≡ (same l k || contains_str ls k)
unfolding uniq_from contains_str
contains_str-uniq_from l k [] = refl
contains_str-uniq_from l k (m ∷ ls) = elim (Bool-cases (same l m)) [
  | inl t ↦ rw t (
      let e : l ≡ m = (same_iff l m).0 t in
      ground (arith, contains_str-uniq_from l k ls, same_iff l k, same_iff m k, e))
  | inr t ↦ rw t (ground (arith, contains_str-uniq_from m k ls))
]

contains_str-uniq_lines :
    (ls : List Bytes) (k : Bytes) → contains_str (uniq_lines ls) k ≡ contains_str ls k
unfolding uniq_lines contains_str
contains_str-uniq_lines [] k = refl
contains_str-uniq_lines (l ∷ ls) k = contains_str-uniq_from l k ls

contains_str-insert_by :
    (l k : Bytes) (ls : List Bytes)
    → contains_str (insert_by line_key l ls) k ≡ (same l k || contains_str ls k)
unfolding insert_by contains_str
contains_str-insert_by l k [] = refl
contains_str-insert_by l k (m ∷ ls) = elim (Bool-cases (bytes_lt m l)) [
  | inl t ↦ rw t (ground (arith, contains_str-insert_by l k ls))
  | inr t ↦ rw t refl
]

pub contains_str-sort_by :
    (ls : List Bytes) (k : Bytes) → contains_str (sort_by line_key ls) k ≡ contains_str ls k
unfolding sort_by contains_str
contains_str-sort_by [] k = refl
contains_str-sort_by (l ∷ ls) k =
    ground (arith, contains_str-insert_by l k (sort_by line_key ls), contains_str-sort_by ls k)

-- uniq behind sort gives each of the lines once and no other, in increasing order.
pub uniq_lines-sort_lines :
    (ls : List Bytes)
    → IsIncreasing (uniq_lines (sort_lines ls))
      × ((l : Bytes) → contains_str (uniq_lines (sort_lines ls)) l ≡ contains_str ls l)
unfolding sort_lines
uniq_lines-sort_lines ls = (
  uniq_lines-IsIncreasing (sort_by line_key ls) (sort_by-IsOrdered ls),
  λ l. contains_str-uniq_lines (sort_by line_key ls) l ∙ contains_str-sort_by ls l,
)
