-- ===== src/Base/Order.antt =====
-- The order of Go strings, byte by byte, and insertion sort by a key. `sort.Slice` and
-- `sort.Strings` are called on distinct keys, where the sorted order is the only one.
use mathlib.Core.Bool.{Bool, true, false}
use mathlib.Core.List.{List, [], ◌∷◌}
use honeypot_go.Base.Tests.{ltb, if◌then◌else◌}
use honeypot_go.Base.Text.{Bytes}

-- `a < b` on strings
unfoldable pub bytes_lt : Bytes → Bytes → Bool
bytes_lt a [] = false
bytes_lt [] (y ∷ b) = true
bytes_lt (x ∷ a) (y ∷ b) =
    let rest = bytes_lt a b in if ltb x y then true else if ltb y x then false else rest

module _ {ℓ} {A : Type ℓ} (key : A → Bytes) where
  unfoldable pub insert_by : A → List A → List A
  unfolding bytes_lt
  insert_by a [] = a ∷ []
  insert_by a (x ∷ xs) =
      let rest = insert_by a xs in if bytes_lt (key x) (key a) then x ∷ rest else a ∷ x ∷ xs

  unfoldable pub sort_by : List A → List A
  unfolding insert_by
  sort_by [] = []
  sort_by (x ∷ xs) = insert_by x (sort_by xs)
