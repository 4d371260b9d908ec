-- ===== src/Tty/Tests.antt =====
-- A short recording, and the theorems of the recorder at it.
use honeypot_go.Base.{
  ℕ, zero, suc, ◌*◌, ◌^◌, Bytes, ◌+◌, ◌≤◌, ◌≡◌, refl, true, false, some, List, [], ◌∷◌, map, All,
  length, codes, arith,
}
use honeypot_go.Tty.Defs.{
  record_frame, new_recorder, read_frames, ok, err, frame_too_large, max_recording_bytes,
  max_frame_len,
}
use honeypot_go.Tty.RoundTrip.{
  Call, record_call, IsShort, record_all, contents, frame_of, kept, read_frames-record_all,
  record_all-bound,
}
use honeypot_go.Tty.Output.{nl2crlf, read_frames-too_large}

abbrev calls : List Call
calls =
    record { sec = 1700000000; nsec = 5000000; bytes = codes "ls"; input = true }
    ∷ record { sec = 1700000000; nsec = 6000000; bytes = []; input = false }
    ∷ record { sec = 1700000001; nsec = 0; bytes = codes "bin"; input = false }
    ∷ []

calls-IsShort : All IsShort calls
calls-IsShort = (omega arith, (omega arith, (omega arith, tt)))

read_frames-record_all_example :
    (read_frames (contents (record_all calls (new_recorder (some []))).w)).0
    ≡ ok (map frame_of (kept calls []))
read_frames-record_all_example = read_frames-record_all calls calls-IsShort

record_all-bound_example :
    length (contents (record_all calls (new_recorder (some []))).w)
    ≤ max_recording_bytes + max_frame_len + 17
record_all-bound_example = record_all-bound calls calls-IsShort

file_size : length (contents (record_all calls (new_recorder (some []))).w) ≡ 35
unfolding record_frame
file_size = refl

crlf_example : nl2crlf (codes "a\nb\r\n") ≡ codes "a\r\nb\r\n"
unfolding nl2crlf
crlf_example = refl

zeros : ℕ → Bytes
zeros zero = []
zeros (suc n) = 0 ∷ zeros n

length-zeros : (n : ℕ) → length (zeros n) ≡ n
unfolding zeros
length-zeros zero = refl
length-zeros (suc n) = omega (arith, length-zeros n)

abbrev huge : Call
huge = record { sec = 1; nsec = 0; bytes = zeros (9 * 2 ^ 20); input = false }

read_frames-too_large_example :
    (read_frames (contents (record_call huge (new_recorder (some []))).w)).0 ≡ err frame_too_large
read_frames-too_large_example =
    read_frames-too_large huge (omega (arith, length-zeros (9 * 2 ^ 20)))
      (omega (arith, length-zeros (9 * 2 ^ 20)))
