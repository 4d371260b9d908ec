-- ===== src/Shell/Runes.antt =====
-- The characters of a text in UTF-8, as Go reads and writes them: each is the bytes that it is written
-- in, and a byte that begins no character is read as U+FFFD.
use honeypot_go.Base.{
  ℕ, zero, suc, ◌+◌, ◌/◌, ◌%◌, Bool, true, false, ◌&&◌, Option, none, some, List, [], ◌∷◌,
  if◌then◌else◌, leb, ltb, ◌==◌, Bytes, same, take,
}

-- The bytes of the rune that a text begins with, less the first: those of UTF-8, or none where the
-- bytes are no such rune.
abbrev pub is_between : ℕ → ℕ → ℕ → Bool
is_between low high c = leb low c && leb c high

abbrev pub second_in : ℕ → ℕ → Bool
second_in c low =
    if c == 224
    then is_between 160 191 low
    else if c == 237
    then is_between 128 159 low
    else if c == 240
    then is_between 144 191 low
    else if c == 244
    then is_between 128 143 low
    else is_between 128 191 low

abbrev pub more_bytes : Bytes → ℕ
more_bytes (c ∷ x ∷ s) =
    if is_between 194 223 c && is_between 128 191 x
    then 1
    else if is_between 224 239 c && (second_in c x && tail_bytes 1 s)
    then 2
    else if is_between 240 244 c && (second_in c x && tail_bytes 2 s)
    then 3
    else 0
  where
    tail_bytes : ℕ → Bytes → Bool
    tail_bytes zero s = true
    tail_bytes (suc n) [] = false
    tail_bytes (suc n) (c ∷ s) = is_between 128 191 c && tail_bytes n s
more_bytes _ = 0

-- One character for each rune; `skip` bytes belong to the rune before.
unfoldable pub rune_at : Bytes → Bytes
rune_at [] = []
rune_at (c ∷ s) =
    let more = more_bytes (c ∷ s) in
    if ltb c 128
    then c ∷ []
    else if more == 0
    then 239 ∷ 191 ∷ 189 ∷ []
    else take (suc more) (c ∷ s)

-- The loop of range over a text, behind `skip` bytes that belong to the character before.
unfoldable pub runes_from : ℕ → Bytes → List Bytes
unfolding rune_at
runes_from skip [] = []
runes_from (suc skip) (c ∷ s) = runes_from skip s
runes_from zero (c ∷ s) = rune_at (c ∷ s) ∷ runes_from (more_bytes (c ∷ s)) s

-- strings.IndexRune, from the place i on.
unfoldable pub index_rune : ℕ → ℕ → Bytes → Bytes → Option ℕ
unfolding rune_at same
index_rune i skip [] r = none
index_rune i (suc skip) (c ∷ s) r = index_rune (suc i) skip s r
index_rune i zero (c ∷ s) r =
    let rest = index_rune (suc i) (more_bytes (c ∷ s)) s r in
    if same (rune_at (c ∷ s)) r then some i else rest

-- A byte as the number of a character.
abbrev pub byte_rune : ℕ → Bytes
byte_rune b = if ltb b 128 then b ∷ [] else (192 + b / 64) ∷ (128 + b % 64) ∷ []
