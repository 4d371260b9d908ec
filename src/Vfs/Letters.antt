-- ===== src/Vfs/Letters.antt =====
-- `AttrBit`, `FormatAttrs` and `AttrNames` of internal/vfs/attr.go: the attributes as letters.
use honeypot_go.Base.{
  ℕ, ◌+◌, ◌^◌, ◌≡◌, refl, Bool, false, Option, none, some, List, [], ◌∷◌, if◌then◌else◌, ◌==◌, not,
  Bytes, codes, length, arith, Bool-cases, inl, inr, bit_and,
}

abbrev pub attr_letters : Bytes
attr_letters = codes "suSDiadAcEjItTeCxFNPVm"

abbrev pub attr_names : List Bytes
attr_names =
    codes "Secure_Deletion"
    ∷ codes "Undelete"
    ∷ codes "Synchronous_Updates"
    ∷ codes "Synchronous_Directory_Updates"
    ∷ codes "Immutable"
    ∷ codes "Append_Only"
    ∷ codes "No_Dump"
    ∷ codes "No_Atime"
    ∷ codes "Compression_Requested"
    ∷ codes "Encrypted"
    ∷ codes "Journaled_Data"
    ∷ codes "Indexed_directory"
    ∷ codes "No_Tailmerging"
    ∷ codes "Top_of_Directory_Hierarchies"
    ∷ codes "Extents"
    ∷ codes "No_COW"
    ∷ codes "DAX"
    ∷ codes "Casefold"
    ∷ codes "Inline_Data"
    ∷ codes "Project_Hierarchy"
    ∷ codes "Verity"
    ∷ codes "Dont_Compress"
    ∷ []

-- The loops below carry the index `i` of the source. `bit_set` is flags & (1 << i) != 0.
abbrev pub bit_set : ℕ → ℕ → Bool
bit_set flags i = not (bit_and flags (2 ^ i) == 0)

unfoldable pub attr_bit_from : ℕ → Bytes → ℕ → Option ℕ
attr_bit_from i [] letter = none
attr_bit_from i (c ∷ cs) letter =
    let rest = attr_bit_from (i + 1) cs letter in if c == letter then some (2 ^ i) else rest

-- `AttrBit`
unfoldable pub attr_bit : ℕ → Option ℕ
unfolding attr_bit_from
attr_bit letter = attr_bit_from 0 attr_letters letter

unfoldable pub format_from : ℕ → Bytes → ℕ → Bytes
format_from i [] flags = []
format_from i (c ∷ cs) flags =
    let rest = format_from (i + 1) cs flags in (if bit_set flags i then c else b'-') ∷ rest

-- `FormatAttrs`
unfoldable pub format_attrs : ℕ → Bytes
unfolding format_from
format_attrs flags = format_from 0 attr_letters flags

unfoldable pub names_from : ℕ → List Bytes → ℕ → List Bytes
names_from i [] flags = []
names_from i (n ∷ ns) flags =
    let rest = names_from (i + 1) ns flags in if bit_set flags i then n ∷ rest else rest

-- `AttrNames`
unfoldable pub attr_names_of : ℕ → List Bytes
unfolding names_from
attr_names_of flags = names_from 0 attr_names flags

-- The letters of a text that are no dashes.
abbrev pub set_letters : Bytes → Bytes
set_letters [] = []
set_letters (c ∷ s) = let rest = set_letters s in if c == b'-' then rest else c ∷ rest

abbrev NoDash : Bytes → Type 0
NoDash [] = Unit {0}
NoDash (c ∷ cs) = ((c == b'-') ≡ false) × NoDash cs

format-names :
    (i : ℕ) (cs : Bytes) (ns : List Bytes) (flags : ℕ)
    → length cs ≡ length ns
    → NoDash cs
    → length (set_letters (format_from i cs flags)) ≡ length (names_from i ns flags)
unfolding format_from names_from
format-names i [] [] flags e d = refl
format-names i [] (n ∷ ns) flags e d = absurd (omega (arith, e))
format-names i (c ∷ cs) [] flags e d = absurd (omega (arith, e))
format-names i (c ∷ cs) (n ∷ ns) flags e d = elim (Bool-cases (bit_set flags i)) [
  | inl t ↦ rw (t, d.0) (omega (arith, format-names (i + 1) cs ns flags (omega (arith, e)) d.1))
  | inr t ↦ rw t (format-names (i + 1) cs ns flags (omega (arith, e)) d.1)
]

-- The letters that FormatAttrs shows for some flags and the names that AttrNames lists for them are
-- equally many, and FormatAttrs always gives 22 characters.
pub format_attrs-attr_names_of :
    (flags : ℕ)
    → (length (set_letters (format_attrs flags)) ≡ length (attr_names_of flags))
      × (length (format_attrs flags) ≡ 22)
unfolding format_attrs attr_names_of format_from
format_attrs-attr_names_of flags = (format-names 0 attr_letters attr_names flags refl letters, refl)
  where
    letters : NoDash attr_letters
    letters = (
      refl,
      (
        refl,
        (
          refl,
          (
            refl,
            (
              refl,
              (
                refl,
                (
                  refl,
                  (
                    refl,
                    (
                      refl,
                      (
                        refl,
                        (
                          refl,
                          (
                            refl,
                            (
                              refl,
                              (
                                refl,
                                (refl, (refl, (refl, (refl, (refl, (refl, (refl, (refl, tt)))))))),
                              ),
                            ),
                          ),
                        ),
                      ),
                    ),
                  ),
                ),
              ),
            ),
          ),
        ),
      ),
    )

-- Each letter of a list is what FormatAttrs shows for the bit of its index.
abbrev Shown : ℕ → Bytes → Type 0
Shown i [] = Unit {0}
Shown i (c ∷ cs) = (set_letters (format_attrs (2 ^ i)) ≡ c ∷ []) × Shown (i + 1) cs

letters-Shown : Shown 0 attr_letters
unfolding format_attrs
letters-Shown = (
  refl,
  (
    refl,
    (
      refl,
      (
        refl,
        (
          refl,
          (
            refl,
            (
              refl,
              (
                refl,
                (
                  refl,
                  (
                    refl,
                    (
                      refl,
                      (
                        refl,
                        (
                          refl,
                          (
                            refl,
                            (refl, (refl, (refl, (refl, (refl, (refl, (refl, (refl, tt)))))))),
                          ),
                        ),
                      ),
                    ),
                  ),
                ),
              ),
            ),
          ),
        ),
      ),
    ),
  ),
)

Shown-attr_bit_from :
    (i : ℕ) (cs : Bytes) (letter bit : ℕ)
    → Shown i cs
    → attr_bit_from i cs letter ≡ some bit
    → set_letters (format_attrs bit) ≡ letter ∷ []
unfolding attr_bit_from
Shown-attr_bit_from i [] letter bit h e = absurd (none_some e)
  where
    none_some : none ≡ some bit → ⊥
    none_some q = cc
Shown-attr_bit_from i (c ∷ cs) letter bit h e = elim (Bool-cases (c == letter)) [
  | inl t ↦
      let q : 2 ^ i ≡ bit = ground (arith, e, t) in
      let l : c ≡ letter = ground (arith, t) in rw (← q, ← l) h.0
  | inr t ↦ Shown-attr_bit_from (i + 1) cs letter bit h.1 (rw t at e)
]

-- Wherever AttrBit knows a letter, FormatAttrs shows the bit that it gives as that letter and no
-- other.
pub format_attrs-attr_bit :
    (letter bit : ℕ) → attr_bit letter ≡ some bit → set_letters (format_attrs bit) ≡ letter ∷ []
unfolding attr_bit
format_attrs-attr_bit letter bit e = Shown-attr_bit_from 0 attr_letters letter bit letters-Shown e
