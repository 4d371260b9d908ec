-- ===== src/Shell/SudoLaws.antt =====
-- The end of the loop of `stripLeadingSudo` of internal/shell/executor.go.
use honeypot_go.Base.{
  ℕ, zero, suc, ◌+◌, ◌-◌, ◌≤◌, ◌<◌, ◌≡◌, ◌⊎◌, refl, true, false, some, sym, ap, ◌∙◌, [], ◌∷◌, Bytes,
  codes, drop, length, same, has_prefix, Bool-cases, inl, inr, arith,
}
use honeypot_go.Shell.Text.{
  is_space, trim_space, trim_space_left, trim_space_right, keep_unless_space,
}
use honeypot_go.Shell.Tools.{strip_sudo, strip_leading_sudo}

length-trim_space_left : (s : Bytes) → length (trim_space_left s) ≤ length s
unfolding trim_space_left
length-trim_space_left [] = omega arith
length-trim_space_left (c ∷ s) = elim (Bool-cases (is_space c)) [
  | inl t ↦ rw t (omega (arith, length-trim_space_left s))
  | inr t ↦ rw t (omega arith)
]

length-keep_unless_space : (c : ℕ) (s : Bytes) → length (keep_unless_space c s) ≤ suc (length s)
length-keep_unless_space c [] = elim (Bool-cases (is_space c)) [
  | inl t ↦ rw t (omega arith)
  | inr t ↦ rw t (omega arith)
]
length-keep_unless_space c (x ∷ s) = omega arith

length-trim_space_right : (s : Bytes) → length (trim_space_right s) ≤ length s
unfolding trim_space_right
length-trim_space_right [] = omega arith
length-trim_space_right (c ∷ s) =
    omega (arith, length-keep_unless_space c (trim_space_right s), length-trim_space_right s)

length-trim_space : (s : Bytes) → length (trim_space s) ≤ length s
unfolding trim_space
length-trim_space s =
    omega (arith, length-trim_space_right (trim_space_left s), length-trim_space_left s)

length-drop : (n : ℕ) (s : Bytes) → length (drop n s) ≡ length s - n
length-drop zero s = omega arith
length-drop (suc n) [] = omega arith
length-drop (suc n) (c ∷ s) = omega (arith, length-drop n s)

-- No leading "sudo" is left but one whose options stay.
abbrev pub IsStripped : Bytes → Type 0
IsStripped t =
    (has_prefix t (codes "sudo ") ≡ false) ⊎ (has_prefix (trim_space (drop 5 t)) (codes "-") ≡ true)

abbrev pub EndsAt : ℕ → Bytes → Bytes → Type 0
EndsAt fuel s t = (strip_sudo fuel s ≡ some t) × IsStripped t

begun : (t : Bytes) → has_prefix t (codes "sudo ") ≡ true → 1 ≤ length t
unfolding has_prefix
begun [] b = cc
begun (c ∷ t) b = omega arith

strip_sudo-EndsAt : (fuel : ℕ) (s : Bytes) → length s < fuel → (t : Bytes) × EndsAt fuel s t
unfolding strip_sudo
strip_sudo-EndsAt zero s h = absurd (omega (arith, h))
strip_sudo-EndsAt (suc fuel) s h =
    let t = trim_space s in
    let rest = trim_space (drop 5 t) in
    elim (Bool-cases (same t (codes "sudo"))) [
      | inl a ↦ ([], (rw a refl, inl empty))
      | inr a ↦ elim (Bool-cases (has_prefix t (codes "sudo "))) [
        | inr b ↦ (t, (rw (a, b) refl, inl b))
        | inl b ↦ elim (Bool-cases (same rest [])) [
          | inl c ↦ ([], (rw (a, b, c) refl, inl empty))
          | inr c ↦ elim (Bool-cases (has_prefix rest (codes "-"))) [
            | inl d ↦ (t, (rw (a, b, c, d) refl, inr d))
            | inr d ↦
                let (u, (e, k)) = strip_sudo-EndsAt fuel rest (shorter b) in
                (u, (rw (a, b, c, d) e, k))
          ]
        ]
      ]
    ]
  where
    empty : has_prefix [] (codes "sudo ") ≡ false
    empty = refl

    shorter :
        has_prefix (trim_space s) (codes "sudo ") ≡ true
        → length (trim_space (drop 5 (trim_space s))) < fuel
    shorter b = omega (
      arith,
      h,
      begun (trim_space s) b,
      length-trim_space s,
      length-trim_space (drop 5 (trim_space s)),
      length-drop 5 (trim_space s),
    )

strip_sudo_more :
    (fuel : ℕ) (s : Bytes) → length s < fuel → strip_sudo (suc fuel) s ≡ strip_sudo fuel s
unfolding strip_sudo
strip_sudo_more zero s h = absurd (omega (arith, h))
strip_sudo_more (suc fuel) s h = elim (Bool-cases (has_prefix (trim_space s) (codes "sudo "))) [
  | inr b ↦ rw b refl
  | inl b ↦
      let t = trim_space s in
      let rest = trim_space (drop 5 t) in
      let k : length rest < fuel =
        omega (
          arith,
          h,
          begun t b,
          length-trim_space s,
          length-trim_space (drop 5 t),
          length-drop 5 t,
        ) in
      rw (strip_sudo_more fuel rest k) refl
]

strip_sudo_from :
    (s : Bytes) (more fuel : ℕ)
    → fuel ≡ more + suc (length s)
    → strip_sudo fuel s ≡ strip_leading_sudo s
unfolding strip_leading_sudo
strip_sudo_from s zero fuel e =
    let q : fuel ≡ suc (length s) = omega (arith, e) in ap (λ (n : ℕ). strip_sudo n s) q
strip_sudo_from s (suc more) zero e = absurd (omega (arith, e))
strip_sudo_from s (suc more) (suc fuel) e =
    strip_sudo_more fuel s (omega (arith, e)) ∙ strip_sudo_from s more fuel (omega (arith, e))

-- The loop that strips "sudo" comes to its end for every text, after at most one round more than the
-- text has bytes: with that many rounds or more it gives one and the same text, which does not begin
-- with "sudo " unless an option follows it.
pub strip_sudo-strip_leading_sudo :
    (s : Bytes)
    → (t : Bytes) × (strip_leading_sudo s ≡ some t)
      × ((fuel : ℕ) → length s < fuel → strip_sudo fuel s ≡ some t)
      × IsStripped t
strip_sudo-strip_leading_sudo s =
    let (t, (e, k)) = strip_sudo-EndsAt (suc (length s)) s (omega arith) in
    let first = strip_sudo_from s 0 (suc (length s)) (omega arith) in
    (
      t,
      sym first ∙ e,
      λ fuel h. strip_sudo_from s (fuel - suc (length s)) fuel (omega (arith, h)) ∙ (sym first ∙ e),
      k,
    )
