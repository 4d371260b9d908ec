-- ===== src/Base/Decimal.antt =====
-- The decimal form of a number, as `strconv.Itoa` and the verb `%d` print it, and its reading.
use Prim.Native.Nat.{ℕ, zero, suc, ◌+◌, ◌*◌, ◌/◌, ◌%◌, ◌-◌, ◌≤◌}
use mathlib.Core.Path.{◌≡◌, refl}
use mathlib.Core.Bool.{false}
use mathlib.Core.Logic.{inl, inr}
use mathlib.Core.List.{[], ◌∷◌, ◌++◌}
use native.Mathlib.Omega.{arith}
use honeypot_go.Base.Tests.{ltb, Bool-cases, if◌then◌else◌}
use honeypot_go.Base.Text.{Bytes}

-- `n` steps suffice for `n`, since a division by 10 makes a positive number smaller.
unfoldable pub digits : ℕ → ℕ → Bytes
digits zero n = (b'0' + n) ∷ []
digits (suc fuel) n =
    let rest = digits fuel (n / 10) in
    if ltb n 10 then (b'0' + n) ∷ [] else rest ++ ((b'0' + n % 10) ∷ [])

unfoldable pub decimal : ℕ → Bytes
unfolding digits
decimal n = digits n n

-- The number that a text of digits stands for, read from the left behind `acc`.
abbrev pub read_from : ℕ → Bytes → ℕ
read_from acc [] = acc
read_from acc (c ∷ s) = read_from (acc * 10 + (c - b'0')) s

read_from-append : (acc : ℕ) (s t : Bytes) → read_from acc (s ++ t) ≡ read_from (read_from acc s) t
read_from-append acc [] t = refl
read_from-append acc (c ∷ s) t = read_from-append (acc * 10 + (c - b'0')) s t

read_from-digits : (fuel n : ℕ) → n ≤ fuel → read_from 0 (digits fuel n) ≡ n
unfolding digits
read_from-digits zero n h = omega arith
read_from-digits (suc fuel) n h = elim (Bool-cases (ltb n 10)) [
  | inl t ↦ rw t (omega arith)
  | inr t ↦ rw t (
      let small : n / 10 ≤ fuel = omega (arith, h, ten t) in
      rw
        (
          read_from-append 0 (digits fuel (n / 10)) ((b'0' + n % 10) ∷ []),
          read_from-digits fuel (n / 10) small,
        )
        (omega arith))
]
  where
    ten : ltb n 10 ≡ false → 10 ≤ n
    ten t = ground arith

-- The decimal form of a number reads back as the number: the fuel is enough.
pub read_from-decimal : (n : ℕ) → read_from 0 (decimal n) ≡ n
unfolding decimal
read_from-decimal n = read_from-digits n n (omega arith)
