-- ===== src/Shell/Lines.antt =====
-- The lines of a text, and the filters grep, head and tail on them.
use honeypot_go.Base.{
  ℕ, zero, suc, ◌+◌, ◌-◌, ◌^◌, ◌≤◌, ◌<◌, ◌≡◌, refl, sym, ap, ◌∙◌, true, false, List, [], ◌∷◌, ◌++◌,
  ◌==◌, Bytes, same, contains, length, take, drop, split, trim_right, arith, Bool-cases, inl, inr,
  All, append_assoc,
}
use honeypot_go.Shell.Text.{join}
use honeypot_go.Shell.Filters.{
  lines_of, maybe_newline, text_of, grep_lines, clamp_count, head_lines, tail_lines,
}
use honeypot_go.Shell.Sorting.{occurrences}

-- No newline in it.
abbrev pub IsLine : Bytes → Type 0
IsLine l = All (λ c. (c == 10) ≡ false) l

-- Lines of which the last is not empty.
abbrev pub EndsFull : List Bytes → Type 0
EndsFull [] = Unit {0}
EndsFull (l ∷ []) = same l [] ≡ false
EndsFull (l ∷ m ∷ ls) = EndsFull (m ∷ ls)

push_front-line :
    (c : ℕ) (s : Bytes) (l : Bytes) (ls : List Bytes)
    → (c == 10) ≡ false
    → split 10 s ≡ l ∷ ls
    → split 10 (c ∷ s) ≡ (c ∷ l) ∷ ls
unfolding split
push_front-line c s l ls h e = rw (h, e) refl

pub split-line : (l : Bytes) → IsLine l → split 10 l ≡ l ∷ []
unfolding split
split-line [] h = refl
split-line (c ∷ l) h = rw (h.0, split-line l h.1) refl

pub split-append : (l s : Bytes) → IsLine l → split 10 (l ++ 10 ∷ s) ≡ l ∷ split 10 s
unfolding split
split-append [] s h = refl
split-append (c ∷ l) s h = rw (h.0, split-append l s h.1) refl

split-join :
    (l : Bytes) (ls : List Bytes)
    → All IsLine (l ∷ ls)
    → split 10 (join (10 ∷ []) (l ∷ ls)) ≡ l ∷ ls
unfolding join
split-join l [] h = split-line l h.0
split-join l (m ∷ ls) h =
    rw (split-append l (join (10 ∷ []) (m ∷ ls)) h.0, split-join m ls h.1) refl

trim_right-keeps :
    (c x y : ℕ) (s t : Bytes) → trim_right c s ≡ y ∷ t → trim_right c (x ∷ s) ≡ x ∷ y ∷ t
unfolding trim_right
trim_right-keeps c x y s t h = rw h refl

-- A text that the trimming leaves begun keeps what stands before it.
trim_right-append :
    (l s : Bytes) (y : ℕ) (t : Bytes)
    → trim_right 10 s ≡ y ∷ t
    → trim_right 10 (l ++ s) ≡ l ++ y ∷ t
trim_right-append [] s y t h = h
trim_right-append (c ∷ []) s y t h = trim_right-keeps 10 c y s t h
trim_right-append (c ∷ d ∷ l) s y t h =
    trim_right-keeps 10 c d (d ∷ l ++ s) (l ++ y ∷ t) (trim_right-append (d ∷ l) s y t h)

trim_right-line : (l : Bytes) → IsLine l → trim_right 10 (l ++ 10 ∷ []) ≡ l
unfolding trim_right
trim_right-line [] h = refl
trim_right-line (c ∷ []) h = rw h.0 refl
trim_right-line (c ∷ d ∷ l) h = rw (trim_right-line (d ∷ l) h.1) refl

join-nonempty :
    (l : Bytes) (ls : List Bytes)
    → EndsFull (l ∷ ls)
    → (y : ℕ) × ((t : Bytes) × (join (10 ∷ []) (l ∷ ls) ≡ y ∷ t))
unfolding join same
join-nonempty [] [] h = absurd (true_false h)
  where
    true_false : true ≡ false → ⊥
    true_false e = cc
join-nonempty [] (m ∷ ls) h = (10, (join (10 ∷ []) (m ∷ ls), refl))
join-nonempty (c ∷ l) [] h = (c, (l, refl))
join-nonempty (c ∷ l) (m ∷ ls) h = (c, (l ++ (10 ∷ join (10 ∷ []) (m ∷ ls)), refl))

trim_right-text_of :
    (l : Bytes) (ls : List Bytes)
    → All IsLine (l ∷ ls)
    → EndsFull (l ∷ ls)
    → trim_right 10 (text_of (l ∷ ls)) ≡ join (10 ∷ []) (l ∷ ls)
unfolding text_of join
trim_right-text_of l [] h f = rw f (trim_right-line l h.0)
trim_right-text_of l (m ∷ ls) h f =
    let (y, (t, e)) = join-nonempty m ls f in
    let ih = trim_right-text_of m ls h.1 f in
    rw (append_assoc l (10 ∷ join (10 ∷ []) (m ∷ ls)) (maybe_newline (m ∷ ls))) (
      trim_right-append l (10 ∷ text_of (m ∷ ls)) 10 (y ∷ t)
        (trim_right-keeps 10 10 y (text_of (m ∷ ls)) t (ih ∙ e))
      ∙ ap (λ (s : Bytes). l ++ 10 ∷ s) (sym e))

join-same :
    (l : Bytes) (ls : List Bytes) → EndsFull (l ∷ ls) → same (join (10 ∷ []) (l ∷ ls)) [] ≡ false
unfolding same
join-same l ls f = let (y, (t, e)) = join-nonempty l ls f in rw e refl

lines_of-none : lines_of (text_of []) ≡ []
unfolding lines_of text_of
lines_of-none = refl

-- The lines that a filter writes are the lines that the next filter of the pipeline reads, if there
-- is no newline inside a line and the last line is not empty.
pub lines_of-text_of : (ls : List Bytes) → All IsLine ls → EndsFull ls → lines_of (text_of ls) ≡ ls
unfolding lines_of
lines_of-text_of [] h f = lines_of-none
lines_of-text_of (l ∷ ls) h f =
    rw (trim_right-text_of l ls h f, join-same l ls f) (split-join l ls h)

-- grep.
grep-partition :
    (pat l : Bytes) (ls : List Bytes)
    → occurrences l (grep_lines pat false ls) + occurrences l (grep_lines pat true ls)
      ≡ occurrences l ls
unfolding grep_lines
grep-partition pat l [] = refl
grep-partition pat l (m ∷ ls) = elim (Bool-cases (contains m pat)) [
  | inl t ↦ rw t (omega (arith, grep-partition pat l ls))
  | inr t ↦ rw t (omega (arith, grep-partition pat l ls))
]

grep-hits :
    (pat : Bytes) (ls : List Bytes) → All (λ l. contains l pat ≡ true) (grep_lines pat false ls)
unfolding grep_lines
grep-hits pat [] = tt
grep-hits pat (m ∷ ls) = elim (Bool-cases (contains m pat)) [
  | inl t ↦ rw t (t, grep-hits pat ls)
  | inr t ↦ rw t (grep-hits pat ls)
]

grep-misses :
    (pat : Bytes) (ls : List Bytes) → All (λ l. contains l pat ≡ false) (grep_lines pat true ls)
unfolding grep_lines
grep-misses pat [] = tt
grep-misses pat (m ∷ ls) = elim (Bool-cases (contains m pat)) [
  | inl t ↦ rw t (grep-misses pat ls)
  | inr t ↦ rw t (t, grep-misses pat ls)
]

-- grep keeps lines that contain the pattern, grep -v lines that do not, and each line of the input is
-- kept by the two together as often as it is there.
pub grep_lines-partition :
    (pat : Bytes) (ls : List Bytes)
    → All (λ l. contains l pat ≡ true) (grep_lines pat false ls)
      × All (λ l. contains l pat ≡ false) (grep_lines pat true ls)
      × ((l : Bytes)
          → occurrences l (grep_lines pat false ls) + occurrences l (grep_lines pat true ls)
            ≡ occurrences l ls)
grep_lines-partition pat ls = (grep-hits pat ls, grep-misses pat ls, λ l. grep-partition pat l ls)

take-drop : (n : ℕ) (ls : List Bytes) → take n ls ++ drop n ls ≡ ls
take-drop zero ls = refl
take-drop (suc n) [] = refl
take-drop (suc n) (l ∷ ls) = ap (λ (ms : List Bytes). l ∷ ms) (take-drop n ls)

-- The first n lines of head and the others of tail make up the input, for every n up to the number
-- of lines, as long as that number fits into an int.
pub head_lines-tail_lines :
    (n : ℕ) (ls : List Bytes)
    → n ≤ length ls
    → length ls < 2 ^ 63
    → head_lines n ls ++ tail_lines (length ls - n) ls ≡ ls
unfolding head_lines tail_lines
head_lines-tail_lines n ls h k =
    rw (clamp n (length ls) h k, clamp (length ls - n) (length ls) (omega arith) k, back)
      (take-drop n ls)
  where
    clamp : (a b : ℕ) → a ≤ b → b < 2 ^ 63 → clamp_count a b ≡ a
    clamp a b p q = ground arith

    back : length ls - (length ls - n) ≡ n
    back = omega (arith, h)
