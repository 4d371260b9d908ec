-- ===== src/Shell/SortUniq.antt =====
-- The pipeline "sort | uniq", by `runFilter` of internal/shell/parse.go.
use honeypot_go.Base.{
  ◌≡◌, refl, sym, subst, ◌∙◌, true, false, List, [], ◌∷◌, Bytes, same, same_iff, contains_str, All,
  trim_right, arith, Bool-cases, inl, inr,
}
use honeypot_go.Base.Order.{bytes_lt, insert_by, sort_by}
use honeypot_go.Shell.Filters.{Codec, lines_of, sort_lines, uniq_from, uniq_lines}
use honeypot_go.Shell.Dispatch.{filter_output, sort_filter, uniq_filter}
use honeypot_go.Shell.Sorting.{
  contains_str-sort_by, line_key, IsOrdered, IsIncreasing, bytes_lt-asym, sort_lines-IsOrdered,
  uniq_lines-sort_lines,
}
use honeypot_go.Shell.Lines.{IsLine, EndsFull, lines_of-text_of}
use honeypot_go.Shell.AccountLaws.{split-IsLine}

-- Only the empty line is before no line.
nil-bytes_lt : (l m : Bytes) → bytes_lt m l ≡ false → same l [] ≡ false → same m [] ≡ false
unfolding bytes_lt same
nil-bytes_lt l (y ∷ m) h k = refl
nil-bytes_lt [] [] h k = k
nil-bytes_lt (x ∷ l) [] h k = absurd cc

-- Lines in order, one of which is not empty, do not end with an empty line.
IsOrdered-EndsFull :
    (ls : List Bytes) (k : Bytes)
    → IsOrdered ls
    → same k [] ≡ false
    → contains_str ls k ≡ true
    → EndsFull ls
unfolding contains_str
IsOrdered-EndsFull [] k o h c = absurd cc
IsOrdered-EndsFull (l ∷ []) k o h c =
    let e : l ≡ k = (same_iff l k).0 (ground (arith, c)) in
    subst (λ (x : Bytes). same x [] ≡ false) (sym e) h
IsOrdered-EndsFull (l ∷ m ∷ ls) k o h c = elim (Bool-cases (same l k)) [
  | inr t ↦ IsOrdered-EndsFull (m ∷ ls) k o.1 h (rw t at c)
  | inl t ↦
      let f : same l [] ≡ false =
        subst (λ (x : Bytes). same x [] ≡ false) (sym ((same_iff l k).0 t)) h in
      IsOrdered-EndsFull (m ∷ ls) m o.1 (nil-bytes_lt l m o.0 f) (ground (arith, same_iff m m))
]

IsIncreasing-IsOrdered : (ls : List Bytes) → IsIncreasing ls → IsOrdered ls
IsIncreasing-IsOrdered [] h = tt
IsIncreasing-IsOrdered (l ∷ []) h = tt
IsIncreasing-IsOrdered (l ∷ m ∷ ls) h = (bytes_lt-asym l m h.0, IsIncreasing-IsOrdered (m ∷ ls) h.1)

-- sort and uniq put no newline into a line.
insert_by-IsLine :
    (l : Bytes) (ls : List Bytes) → IsLine l → All IsLine ls → All IsLine (insert_by line_key l ls)
unfolding insert_by
insert_by-IsLine l [] h v = (h, tt)
insert_by-IsLine l (m ∷ ls) h v = elim (Bool-cases (bytes_lt m l)) [
  | inl t ↦ rw t (v.0, insert_by-IsLine l ls h v.1)
  | inr t ↦ rw t (h, v)
]

sort_by-IsLine : (ls : List Bytes) → All IsLine ls → All IsLine (sort_by line_key ls)
unfolding sort_by
sort_by-IsLine [] v = tt
sort_by-IsLine (l ∷ ls) v = insert_by-IsLine l (sort_by line_key ls) v.0 (sort_by-IsLine ls v.1)

uniq_from-IsLine : (l : Bytes) (ls : List Bytes) → All IsLine ls → All IsLine (uniq_from l ls)
unfolding uniq_from
uniq_from-IsLine l [] v = tt
uniq_from-IsLine l (m ∷ ls) v = elim (Bool-cases (same l m)) [
  | inl t ↦ rw t (uniq_from-IsLine l ls v.1)
  | inr t ↦ rw t (v.0, uniq_from-IsLine m ls v.1)
]

uniq_lines-IsLine : (ls : List Bytes) → All IsLine ls → All IsLine (uniq_lines ls)
unfolding uniq_lines
uniq_lines-IsLine [] v = tt
uniq_lines-IsLine (l ∷ ls) v = (v.0, uniq_from-IsLine l ls v.1)

sort_lines-IsLine : (ls : List Bytes) → All IsLine ls → All IsLine (sort_lines ls)
unfolding sort_lines
sort_lines-IsLine ls v = sort_by-IsLine ls v

lines_of-IsLine : (s : Bytes) → All IsLine (lines_of s)
unfolding lines_of
lines_of-IsLine s = elim (Bool-cases (same (trim_right 10 s) [])) [
  | inl t ↦ rw t tt
  | inr t ↦ rw t (split-IsLine (trim_right 10 s))
]

contains_str-sort_lines :
    (ls : List Bytes) (k : Bytes) → contains_str (sort_lines ls) k ≡ contains_str ls k
unfolding sort_lines
contains_str-sort_lines ls k = contains_str-sort_by ls k

-- The pipeline "sort | uniq", whatever the arguments of the two, gives a text whose lines are in
-- increasing order, each there once, and are exactly the lines of its input, if one of these is not
-- empty. The lines of a text are those that the next filter reads: without the empty ones at its end.
pub sort_uniq-IsIncreasing :
    (codec : Codec) (args more : List Bytes) (input k : Bytes)
    → contains_str (lines_of input) k ≡ true
    → same k [] ≡ false
    → let out = filter_output codec uniq_filter more (filter_output codec sort_filter args input) in
      IsIncreasing (lines_of out)
      × ((l : Bytes) → contains_str (lines_of out) l ≡ contains_str (lines_of input) l)
unfolding filter_output
sort_uniq-IsIncreasing codec args more input k c h =
    rw
      (
        lines_of-text_of (sort_lines ls) lines sorted,
        lines_of-text_of (uniq_lines (sort_lines ls)) (uniq_lines-IsLine (sort_lines ls) lines)
            full,
      )
      law
  where
    ls : List Bytes
    ls = lines_of input

    law :
        IsIncreasing (uniq_lines (sort_lines ls))
        × ((l : Bytes) → contains_str (uniq_lines (sort_lines ls)) l ≡ contains_str ls l)
    law = uniq_lines-sort_lines ls

    lines : All IsLine (sort_lines ls)
    lines = sort_lines-IsLine ls (lines_of-IsLine input)

    sorted : EndsFull (sort_lines ls)
    sorted =
        IsOrdered-EndsFull (sort_lines ls) k (sort_lines-IsOrdered ls).0 h
          (contains_str-sort_lines ls k ∙ c)

    full : EndsFull (uniq_lines (sort_lines ls))
    full =
        IsOrdered-EndsFull (uniq_lines (sort_lines ls)) k (IsIncreasing-IsOrdered _ law.0) h
          (law.1 k ∙ c)
