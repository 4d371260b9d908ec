-- ===== src/Shell/BigOutput.antt =====
-- The way of a command's output of 8 MiB and more from capOut and limitOutput of
-- internal/shell/executor.go over nl2crlf of internal/ssh/server.go to the recording.
use honeypot_go.Base.{
  ℕ, ◌+◌, ◌≤◌, ◌≡◌, refl, false, true, some, [], length, leb, Bytes, arith, Bool-cases, inl, inr,
  length-take,
}
use honeypot_go.Tty.Defs.{new_recorder, read_frames, err, frame_too_large}
use honeypot_go.Tty.RoundTrip.{Call, record_call, contents}
use honeypot_go.Tty.Output.{
  max_output_size, limit_output, nl2crlf, bare_newlines, length-nl2crlf, bare_newlines-le,
  read_frames-too_large,
}
use honeypot_go.Shell.Eval.{cap_out}

length-cap_out :
    (out : Bytes) → max_output_size ≤ length out → length (cap_out out) ≡ max_output_size
unfolding cap_out
length-cap_out out h = elim (Bool-cases (leb (length out) max_output_size)) [
  | inl t ↦ rw t (ground (arith, t, h))
  | inr t ↦ rw t (omega (arith, length-take max_output_size out, h))
]

limit_output-small : (out : Bytes) → length out ≤ max_output_size → limit_output out ≡ out
unfolding limit_output
limit_output-small out h =
    let t : leb (length out) max_output_size ≡ true = ground (arith, h) in rw t refl

-- What the server records of a command's output.
abbrev pub recorded : ℕ → ℕ → Bytes → Call
recorded sec nsec out = record {
  sec = sec;
  nsec = nsec;
  bytes = nl2crlf (limit_output (cap_out out));
  input = false;
}

-- If a command puts out 8 MiB or more, with a newline that has no carriage return before it in the
-- first 8 MiB, then what the server makes of them, the output cut to 8 MiB and with a carriage return
-- for each such newline, is a frame that the reader refuses, as the first one of a new recording.
pub read_frames-recorded :
    (sec nsec : ℕ) (out : Bytes)
    → max_output_size ≤ length out
    → 1 ≤ bare_newlines false (cap_out out)
    → (read_frames (contents (record_call (recorded sec nsec out) (new_recorder (some []))).w)).0
      ≡ err frame_too_large
read_frames-recorded sec nsec out h k =
    read_frames-too_large (recorded sec nsec out) (omega (arith, long, k))
      (omega (arith, long, bare_newlines-le false (cap_out out), length-cap_out out h))
  where
    cut : length (cap_out out) ≤ max_output_size
    cut = omega (arith, length-cap_out out h)

    long :
        length (nl2crlf (limit_output (cap_out out)))
        ≡ max_output_size + bare_newlines false (cap_out out)
    long =
        rw (limit_output-small (cap_out out) cut)
          (omega (arith, length-nl2crlf (cap_out out), length-cap_out out h))
