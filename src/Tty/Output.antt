-- ===== src/Tty/Output.antt =====
-- The output of an `exec` request on its way to the recorder: `limitOutput` of
-- internal/shell/executor.go and `nl2crlf` of internal/ssh/server.go.
use honeypot_go.Base.{
  ℕ, suc, ◌+◌, ◌*◌, ◌/◌, ◌%◌, ◌^◌, ◌≤◌, ◌≡◌, refl, Bool, true, false, not, ◌&&◌, some, [], ◌∷◌,
  ◌++◌, take, length, if◌then◌else◌, leb, ltb, ◌==◌, Bytes, same, codes, arith, Bool-cases, inl,
  inr, any_of,
}
use honeypot_go.Tty.Defs.{
  max_frame_len, new_recorder, read_frames, read_loop, err, frame_too_large, record_frame,
}
use honeypot_go.Tty.RoundTrip.{Call, record_call, contents}

abbrev pub max_output_size : ℕ
max_output_size = 8 * 2 ^ 20

abbrev pub trunc_suffix : Bytes
trunc_suffix = codes "\n...(output truncated)\n"

unfoldable pub limit_output : Bytes → Bytes
limit_output out =
    if leb (length out) max_output_size then out else take max_output_size out ++ trunc_suffix

-- The loop of `nl2crlf`; `after_cr` is whether the byte before is a carriage return.
unfoldable pub crlf_from : Bool → Bytes → Bytes
crlf_from after_cr [] = []
crlf_from after_cr (c ∷ s) =
    let rest = crlf_from (c == 13) s in if c == 10 && not after_cr then 13 ∷ c ∷ rest else c ∷ rest

unfoldable pub nl2crlf : Bytes → Bytes
unfolding crlf_from
nl2crlf b = if any_of (λ c. c == 10) b then crlf_from false b else b

-- Each newline has a carriage return before it.
abbrev pub IsCrlf : Bool → Bytes → Type 0
IsCrlf after_cr [] = Unit {0}
IsCrlf after_cr (c ∷ s) = (c ≡ 10 → after_cr ≡ true) × IsCrlf (c == 13) s

crlf_from-IsCrlf : (after_cr : Bool) (b : Bytes) → IsCrlf after_cr (crlf_from after_cr b)
unfolding crlf_from
crlf_from-IsCrlf after_cr [] = tt
crlf_from-IsCrlf after_cr (c ∷ s) = elim (Bool-cases (c == 10 && not after_cr)) [
  | inl t ↦ rw t (λ e. absurd (omega (arith, e)), (λ e. refl, crlf_from-IsCrlf (c == 13) s))
  | inr t ↦ rw t (λ e. ground (arith, t, e), crlf_from-IsCrlf (c == 13) s)
]

no_newline-IsCrlf :
    (after_cr : Bool) (b : Bytes) → any_of (λ c. c == 10) b ≡ false → IsCrlf after_cr b
no_newline-IsCrlf after_cr [] h = tt
no_newline-IsCrlf after_cr (c ∷ s) h =
    (λ e. absurd (ground (arith, h, e)), no_newline-IsCrlf (c == 13) s (ground (arith, h)))

-- In what nl2crlf returns each newline has a carriage return before it.
pub nl2crlf-IsCrlf : (b : Bytes) → IsCrlf false (nl2crlf b)
unfolding nl2crlf
nl2crlf-IsCrlf b = elim (Bool-cases (any_of (λ c. c == 10) b)) [
  | inl t ↦ rw t (crlf_from-IsCrlf false b)
  | inr t ↦ rw t (no_newline-IsCrlf false b t)
]

-- The newlines that have no carriage return before them.
abbrev pub bare_newlines : Bool → Bytes → ℕ
bare_newlines after_cr [] = 0
bare_newlines after_cr (c ∷ s) =
    (if c == 10 && not after_cr then 1 else 0) + bare_newlines (c == 13) s

length-crlf_from-bare :
    (after_cr : Bool) (b : Bytes)
    → length (crlf_from after_cr b) ≡ length b + bare_newlines after_cr b
unfolding crlf_from
length-crlf_from-bare after_cr [] = refl
length-crlf_from-bare after_cr (c ∷ s) = elim (Bool-cases (c == 10 && not after_cr)) [
  | inl t ↦ rw t (omega (arith, length-crlf_from-bare (c == 13) s))
  | inr t ↦ rw t (omega (arith, length-crlf_from-bare (c == 13) s))
]

no_bare_newlines :
    (after_cr : Bool) (b : Bytes) → any_of (λ c. c == 10) b ≡ false → bare_newlines after_cr b ≡ 0
no_bare_newlines after_cr [] h = refl
no_bare_newlines after_cr (c ∷ s) h =
    let n : (c == 10) ≡ false = ground (arith, h) in
    rw n (omega (arith, no_bare_newlines (c == 13) s (ground (arith, h))))

pub length-nl2crlf : (b : Bytes) → length (nl2crlf b) ≡ length b + bare_newlines false b
unfolding nl2crlf
length-nl2crlf b = elim (Bool-cases (any_of (λ c. c == 10) b)) [
  | inl t ↦ rw t (length-crlf_from-bare false b)
  | inr t ↦ rw t (omega (arith, no_bare_newlines false b t))
]

pub bare_newlines-le : (after_cr : Bool) (b : Bytes) → bare_newlines after_cr b ≤ length b
bare_newlines-le after_cr [] = omega arith
bare_newlines-le after_cr (c ∷ s) = elim (Bool-cases (c == 10 && not after_cr)) [
  | inl t ↦ rw t (omega (arith, bare_newlines-le (c == 13) s))
  | inr t ↦ rw t (omega (arith, bare_newlines-le (c == 13) s))
]

nonempty : (b : Bytes) → 1 ≤ length b → same b [] ≡ false
unfolding same
nonempty [] h = absurd (omega (arith, h))
nonempty (x ∷ b) h = refl

-- A recording that consists of one frame of more than 8 MiB, whose length fits into 32 bits, is
-- refused by the reader.
pub read_frames-too_large :
    (c : Call)
    → suc max_frame_len ≤ length c.bytes
    → length c.bytes ≤ 4294967295
    → (read_frames (contents (record_call c (new_recorder (some []))).w)).0 ≡ err frame_too_large
unfolding read_frames record_frame read_loop
read_frames-too_large c h k =
    rw (nonempty c.bytes (omega (arith, h)), marked, len_eq, whole, large) refl
  where
    l : ℕ
    l = length c.bytes

    marked :
        leb 4 (
          suc (
            suc (
              suc (
                suc (
                  suc (
                    suc (
                      suc (
                        suc (
                          suc (
                            suc (suc (suc (suc (suc (suc (suc (suc (length c.bytes))))))))))))))))))
        ≡ true
    marked = ground arith

    len_eq :
        l % 256
          + 256 * (l / 256 % 256)
          + 65536 * (l / 65536 % 256)
          + 16777216 * (l / 16777216 % 256)
        ≡ l
    len_eq = omega (arith, k)

    whole :
        ltb
          (suc (
            suc (suc (suc (suc (suc (suc (suc (suc (suc (suc (suc (suc (length c.bytes))))))))))))))
          13
        ≡ false
    whole = ground arith

    large : ltb max_frame_len l ≡ true
    large = ground (arith, h)
