-- ===== src/Tty/RoundTrip.antt =====
-- `readFrames` of cmd/ttyshow on the files of the recorder of internal/tty, and their size.
use honeypot_go.Base.{
  ℕ, zero, suc, ◌+◌, ◌*◌, ◌/◌, ◌%◌, ◌^◌, ◌≤◌, ◌≡◌, refl, sym, ap, Bool, true, false, ◌&&◌, ◌||◌,
  Option, none, some, List, [], ◌∷◌, ◌++◌, take, drop, if◌then◌else◌, ltb, leb, ◌==◌, Bytes, same,
  arith, All, Bool-cases, inl, inr, append_assoc, append-nil, map, length, length-append,
}
use honeypot_go.Tty.Defs.{
  Direction, dir_output, dir_input, Recorder, new_recorder, put_uint32, uint32_at, header, dir_byte,
  record_frame, magic, max_recording_bytes, max_frame_len, Frame, ok, ahead, read_loop, read_frames,
}

-- A call of `record`: the clock, the bytes and the direction.
pub record Call : Type 0 where
  pub sec : ℕ
  pub nsec : ℕ
  pub bytes : Bytes
  pub input : Bool

abbrev pub direction : Bool → Direction
direction true = dir_input
direction false = dir_output

abbrev pub frame_of : Call → Frame
frame_of c = record {
  sec = c.sec % 2 ^ 32;
  usec = c.nsec / 1000 % 2 ^ 32;
  dir = direction c.input;
  bytes = c.bytes;
}

abbrev pub record_call : Call → Recorder → Recorder
record_call c r = record_frame c.sec c.nsec c.bytes (direction c.input) r

abbrev pub record_all : List Call → Recorder → Recorder
record_all [] r = r
record_all (c ∷ cs) r = record_all cs (record_call c r)

abbrev pub encoded : Call → Bytes
encoded c = header c.sec c.nsec c.bytes (direction c.input) ++ c.bytes

abbrev pub all_encoded : List Call → Bytes
all_encoded [] = []
all_encoded (c ∷ cs) = encoded c ++ all_encoded cs

abbrev pub IsShort : Call → Type 0
IsShort c = length c.bytes ≤ max_frame_len

uint32_lem :
    (v : ℕ)
    → v % 256 + 256 * (v / 256 % 256) + 65536 * (v / 65536 % 256) + 16777216 * (v / 16777216 % 256)
      ≡ v % 2 ^ 32
uint32_lem v = omega arith

drop-length : (p tail : Bytes) → drop (length p) (p ++ tail) ≡ tail
drop-length [] tail = refl
drop-length (x ∷ p) tail = drop-length p tail

take-length : (p tail : Bytes) → take (length p) (p ++ tail) ≡ p
take-length [] [] = refl
take-length [] (y ∷ tail) = refl
take-length (x ∷ p) tail = ap (λ (s : Bytes). x ∷ s) (take-length p tail)

read_loop-encoded :
    (fuel : ℕ) (c : Call) (tail : Bytes)
    → IsShort c
    → read_loop (suc fuel) true (encoded c ++ tail) ≡ ahead (frame_of c) (read_loop fuel true tail)
unfolding read_loop header put_uint32 uint32_at
read_loop-encoded fuel c tail h =
    rw
      (
        len_eq,
        uint32_lem c.sec,
        uint32_lem (c.nsec / 1000),
        whole,
        small,
        all_there,
        take-length c.bytes tail,
        drop-length c.bytes tail,
        direction_read c.input,
      )
      refl
  where
    l : ℕ
    l = length c.bytes

    len_eq :
        l % 256
          + 256 * (l / 256 % 256)
          + 65536 * (l / 65536 % 256)
          + 16777216 * (l / 16777216 % 256)
        ≡ l
    len_eq = omega (arith, h)

    whole :
        ltb
          (suc (
            suc (
              suc (
                suc (
                  suc
                    (suc (suc (suc (suc (suc (suc (suc (suc (length (c.bytes ++ tail)))))))))))))))
          13
        ≡ false
    whole = ground arith

    small : ltb max_frame_len l ≡ false
    small = ground (arith, h)

    all_there : ltb (length (c.bytes ++ tail)) l ≡ false
    all_there = ground (arith, length-append c.bytes tail)

    direction_read :
        (b : Bool) → (if dir_byte (direction b) == 1 then dir_input else dir_output) ≡ direction b
    direction_read true = refl
    direction_read false = refl

read_loop-all_encoded :
    (ks : List Call) (fuel : ℕ)
    → length ks ≤ fuel
    → All IsShort ks
    → read_loop fuel true (all_encoded ks) ≡ ok (map frame_of ks)
unfolding read_loop
read_loop-all_encoded [] zero f h = refl
read_loop-all_encoded [] (suc fuel) f h = refl
read_loop-all_encoded (c ∷ ks) zero f h = absurd (omega (arith, f))
read_loop-all_encoded (c ∷ ks) (suc fuel) f h =
    rw
      (
        read_loop-encoded fuel c (all_encoded ks) h.0,
        read_loop-all_encoded ks fuel (omega (arith, f)) h.1,
      )
      refl

-- The file of a recorder that has kept some calls, and its state.
abbrev pub file_of : List Call → Bytes
file_of [] = []
file_of (c ∷ cs) = magic ++ all_encoded (c ∷ cs)

abbrev pub state_of : List Call → Recorder
state_of [] = new_recorder (some [])
state_of (c ∷ cs) = record {
  w = some (file_of (c ∷ cs));
  written = length (file_of (c ∷ cs));
  wrote_magic = true;
}

-- The calls that are kept: those with bytes that come before the file has reached its limit.
abbrev pub keep : Call → List Call → List Call
keep c ks =
    if same c.bytes [] || leb max_recording_bytes (length (file_of ks)) then ks else ks ++ c ∷ []

abbrev pub kept : List Call → List Call → List Call
kept [] ks = ks
kept (c ∷ cs) ks = kept cs (keep c ks)

all_encoded-append :
    (ks : List Call) (c : Call) → all_encoded (ks ++ c ∷ []) ≡ all_encoded ks ++ encoded c
all_encoded-append [] c = append-nil (encoded c)
all_encoded-append (k ∷ ks) c =
    rw (all_encoded-append ks c) (sym (append_assoc (encoded k) (all_encoded ks) (encoded c)))

length-encoded : (c : Call) → length (encoded c) ≡ 13 + length c.bytes
unfolding header put_uint32
length-encoded c = omega arith

abbrev recording : Bytes → ℕ → Recorder
recording file n = record { w = some file; written = n; wrote_magic = true }

recording-cong : (f g : Bytes) (m n : ℕ) → f ≡ g → m ≡ n → recording f m ≡ recording g n
recording-cong f g m n e q = rw (e, q) refl

length-file_of_append :
    (k : Call) (ks : List Call) (c : Call)
    → length (file_of (k ∷ ks ++ c ∷ [])) ≡ length (file_of (k ∷ ks)) + (13 + length c.bytes)
length-file_of_append k ks c =
    rw (all_encoded-append (k ∷ ks) c)
      (omega (arith, length-append (all_encoded (k ∷ ks)) (encoded c), length-encoded c))

record_call-keeps : (c : Call) (ks : List Call) → record_call c (state_of ks) ≡ state_of (keep c ks)
unfolding record_frame
record_call-keeps c [] = elim (Bool-cases (same c.bytes [])) [
  | inl t ↦ rw t refl
  | inr t ↦ rw t (
      recording-cong _ _ _ _ (ap (λ (s : Bytes). magic ++ s) (sym (append-nil (encoded c))))
        (rw (append-nil c.bytes) (omega arith)))
]
record_call-keeps c (k ∷ ks) =
    elim (Bool-cases (same c.bytes [] || leb max_recording_bytes (length (file_of (k ∷ ks))))) [
      | inl t ↦ rw t refl
      | inr t ↦ rw t (
          recording-cong _ _ _ _
            (ap (λ (s : Bytes). magic ++ s) (sym (all_encoded-append (k ∷ ks) c)))
            (sym (length-file_of_append k ks c)))
    ]

record_all-keeps : (cs ks : List Call) → record_all cs (state_of ks) ≡ state_of (kept cs ks)
record_all-keeps [] ks = refl
record_all-keeps (c ∷ cs) ks = rw (record_call-keeps c ks) (record_all-keeps cs (keep c ks))

All-append : (ks : List Call) (c : Call) → All IsShort ks → IsShort c → All IsShort (ks ++ c ∷ [])
All-append [] c h s = (s, tt)
All-append (k ∷ ks) c h s = (h.0, All-append ks c h.1 s)

keep-IsShort : (c : Call) (ks : List Call) → IsShort c → All IsShort ks → All IsShort (keep c ks)
keep-IsShort c ks s h =
    elim (Bool-cases (same c.bytes [] || leb max_recording_bytes (length (file_of ks)))) [
      | inl t ↦ rw t h
      | inr t ↦ rw t (All-append ks c h s)
    ]

kept-IsShort : (cs ks : List Call) → All IsShort cs → All IsShort ks → All IsShort (kept cs ks)
kept-IsShort [] ks s h = h
kept-IsShort (c ∷ cs) ks s h = kept-IsShort cs (keep c ks) s.1 (keep-IsShort c ks s.0 h)

length-all_encoded : (ks : List Call) → length ks ≤ length (all_encoded ks)
length-all_encoded [] = omega arith
length-all_encoded (c ∷ ks) =
    omega
      (arith, length-all_encoded ks, length-append (encoded c) (all_encoded ks), length-encoded c)

abbrev is_some_call : List Call → Bool
is_some_call [] = false
is_some_call (c ∷ cs) = true

read_frames-file_of :
    (ks : List Call)
    → All IsShort ks
    → read_frames (file_of ks) ≡ (ok (map frame_of ks), is_some_call ks)
unfolding read_frames same
read_frames-file_of [] h = refl
read_frames-file_of (c ∷ ks) h =
    let file = file_of (c ∷ ks) in
    let marked : (leb 4 (length file) && same (take 4 file) magic) ≡ true =
      rw (ge_4 (length (all_encoded (c ∷ ks)))) refl in
    rw
      (
        marked,
        read_loop-all_encoded (c ∷ ks) (length file) (omega (arith, length-all_encoded (c ∷ ks))) h,
      )
      refl
  where
    ge_4 : (n : ℕ) → leb 4 (suc (suc (suc (suc n)))) ≡ true
    ge_4 n = ground arith

abbrev pub contents : Option Bytes → Bytes
contents none = []
contents (some file) = file

contents-state_of : (ks : List Call) → contents (state_of ks).w ≡ file_of ks
contents-state_of [] = refl
contents-state_of (k ∷ ks) = refl

-- Reading the file of a new recorder after any calls with at most 8 MiB each gives no error but
-- exactly the frames of the calls that had bytes and came before the file reached its limit, in
-- their order, each with its direction, its bytes, and its seconds and microseconds modulo 2 ^ 32.
pub read_frames-record_all :
    (cs : List Call)
    → All IsShort cs
    → (read_frames (contents (record_all cs (new_recorder (some []))).w)).0
      ≡ ok (map frame_of (kept cs []))
read_frames-record_all cs h =
    rw
      (
        record_all-keeps cs [],
        contents-state_of (kept cs []),
        read_frames-file_of (kept cs []) (kept-IsShort cs [] h tt),
      )
      refl

abbrev file_limit : ℕ
file_limit = max_recording_bytes + max_frame_len + 17

keep-bound :
    (c : Call) (ks : List Call)
    → IsShort c
    → length (file_of ks) ≤ file_limit
    → length (file_of (keep c ks)) ≤ file_limit
keep-bound c ks s h =
    elim (Bool-cases (same c.bytes [] || leb max_recording_bytes (length (file_of ks)))) [
      | inl t ↦ rw t h
      | inr t ↦ rw t (room ks (below t))
    ]
  where
    below :
        (same c.bytes [] || leb max_recording_bytes (length (file_of ks))) ≡ false
        → length (file_of ks) ≤ max_recording_bytes
    below t = ground arith

    room :
        (js : List Call)
        → length (file_of js) ≤ max_recording_bytes
        → length (file_of (js ++ c ∷ [])) ≤ file_limit
    room [] b = omega (arith, length-append (encoded c) [], length-encoded c, s)
    room (j ∷ js) b = omega (arith, length-file_of_append j js c, b, s)

kept-bound :
    (cs ks : List Call)
    → All IsShort cs
    → length (file_of ks) ≤ file_limit
    → length (file_of (kept cs ks)) ≤ file_limit
kept-bound [] ks s h = h
kept-bound (c ∷ cs) ks s h = kept-bound cs (keep c ks) s.1 (keep-bound c ks s.0 h)

-- After any calls with at most 8 MiB each the file of a new recorder has at most 64 MiB and one
-- frame more, with its header and the magic bytes.
pub record_all-bound :
    (cs : List Call)
    → All IsShort cs
    → length (contents (record_all cs (new_recorder (some []))).w)
      ≤ max_recording_bytes + max_frame_len + 17
record_all-bound cs h =
    rw (record_all-keeps cs [], contents-state_of (kept cs [])) (kept-bound cs [] h (omega arith))
