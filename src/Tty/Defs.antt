-- ===== src/Tty/Defs.antt =====
-- internal/tty/recorder.go, and `readFrames` of cmd/ttyshow/main.go, which reads the recordings.
use honeypot_go.Base.{
  ℕ, zero, suc, ◌+◌, ◌*◌, ◌/◌, ◌%◌, ◌^◌, Bool, true, false, ◌&&◌, ◌||◌, Option, none, some, List,
  [], ◌∷◌, ◌++◌, length, take, drop, if◌then◌else◌, ltb, leb, ◌==◌, Bytes, same, get_or, codes,
}

abbrev pub max_recording_bytes : ℕ
max_recording_bytes = 64 * 2 ^ 20

-- `Direction`, and `dirUnknown` of the reader
pub data Direction : Type 0 where
  dir_output dir_input dir_unknown : Direction

abbrev pub magic : Bytes
magic = codes "HTR2"

-- `w` holds what the recorder has written to its file, if it has one.
pub record Recorder : Type 0 where
  pub w : Option Bytes
  pub written : ℕ  -- int64
  pub wrote_magic : Bool

abbrev pub new_recorder : Option Bytes → Recorder
new_recorder w = record { w = w; written = 0; wrote_magic = false }

-- binary.LittleEndian.PutUint32 of `uint32(v)`, and Uint32
unfoldable pub put_uint32 : ℕ → Bytes
put_uint32 v = v % 256 ∷ v / 256 % 256 ∷ v / 65536 % 256 ∷ v / 16777216 % 256 ∷ []

unfoldable pub uint32_at : ℕ → Bytes → ℕ
uint32_at i b =
    get_or b i 0
    + 256 * get_or b (i + 1) 0
    + 65536 * get_or b (i + 2) 0
    + 16777216 * get_or b (i + 3) 0

abbrev pub dir_byte : Direction → ℕ
dir_byte dir_input = 1
dir_byte _ = 0

-- The 13 bytes of the header. `sec` and `nsec` are the seconds and the nanoseconds of the clock.
unfoldable pub header : ℕ → ℕ → Bytes → Direction → Bytes
unfolding put_uint32
header sec nsec p dir =
    put_uint32 sec ++ (put_uint32 (nsec / 1000) ++ (put_uint32 (length p) ++ (dir_byte dir ∷ [])))

abbrev pub start_file : Recorder → Bytes → Bool → Recorder
start_file r file true = record r { w = some file }
start_file r file false = record {
  w = some (file ++ magic);
  written = r.written + 4;
  wrote_magic = true;
}

abbrev pub append_frame : Option Bytes → Bytes → Bytes → Recorder → Recorder
append_frame none hdr p r = r
append_frame (some file) hdr p r = record r {
  w = some (file ++ (hdr ++ p));
  written = r.written + (13 + length p);
}

abbrev pub record_to : Option Bytes → ℕ → ℕ → Bytes → Direction → Recorder → Recorder
record_to none sec nsec p dir r = r
record_to (some file) sec nsec p dir r =
    if same p [] || leb max_recording_bytes r.written
    then r
    else let r' = start_file r file r.wrote_magic in append_frame r'.w (header sec nsec p dir) p r'

-- `record`, that `RecordOutput` and `RecordInput` call with their direction.
unfoldable pub record_frame : ℕ → ℕ → Bytes → Direction → Recorder → Recorder
unfolding same header
record_frame sec nsec p dir r = record_to r.w sec nsec p dir r

pub record Frame : Type 0 where
  pub sec : ℕ
  pub usec : ℕ
  pub dir : Direction
  pub bytes : Bytes

pub data ReadError : Type 0 where
  short_header frame_too_large short_data : ReadError

pub data Frames : Type 0 where
  ok : List Frame → Frames
  err : ReadError → Frames

abbrev pub ahead : Frame → Frames → Frames
ahead f (ok fs) = ok (f ∷ fs)
ahead f (err e) = err e

abbrev pub dir_of : Bool → Bytes → Direction
dir_of has_dir hdr =
    if has_dir then (if get_or hdr 12 0 == 1 then dir_input else dir_output) else dir_unknown

abbrev pub max_frame_len : ℕ
max_frame_len = 8 * 2 ^ 20

-- The loop of `readFrames`, with the bytes from `off` on for `raw`. Each frame takes at least 12
-- bytes, so that the length of the file is fuel enough.
unfoldable pub read_loop : ℕ → Bool → Bytes → Frames
unfolding uint32_at
read_loop zero has_dir raw = ok []
read_loop (suc fuel) has_dir [] = ok []
read_loop (suc fuel) has_dir (b ∷ bs) =
    let header_len = if has_dir then 13 else 12 in
    let raw = b ∷ bs in
    let ln = uint32_at 8 raw in
    let body = drop header_len raw in
    let rest = read_loop fuel has_dir (drop ln body) in
    if ltb (length raw) header_len
    then err short_header
    else if ltb max_frame_len ln
    then err frame_too_large
    else if ltb (length body) ln
    then err short_data
    else ahead
        (record {
          sec = uint32_at 0 raw;
          usec = uint32_at 4 raw;
          dir = dir_of has_dir raw;
          bytes = take ln body;
        })
        rest

-- `readFrames` once the file is read: the frames and whether they carry a direction.
unfoldable pub read_frames : Bytes → Frames × Bool
unfolding same read_loop
read_frames raw =
    let has_dir = leb 4 (length raw) && same (take 4 raw) magic in
    (read_loop (length raw) has_dir (if has_dir then drop 4 raw else raw), has_dir)
