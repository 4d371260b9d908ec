-- ===== src/Shell/Archives.antt =====
-- stripArchiveExt, tarCmd and gzipCmd of internal/shell/executor.go.
use honeypot_go.Base.{
  ℕ, Bool, true, false, ◌||◌, ◌&&◌, not, none, some, List, [], ◌∷◌, ◌++◌, if◌then◌else◌, Bytes,
  codes, same, has_prefix, drop, any_of, ◌==◌,
}
use honeypot_go.Vfs.State.{FileSystem, FsError, Outcome}
use honeypot_go.Vfs.Messages.{error_text}
use honeypot_go.Vfs.Write.{write_file}
use honeypot_go.Vfs.Remove.{remove}
use honeypot_go.Vfs.Proc.{ProcClock}
use honeypot_go.Vfs.Read.{Result, ok, err, resolve, read_file}
use honeypot_go.Shell.Text.{has_suffix, trim_suffix}
use honeypot_go.Shell.Dispatch.{abs_path}
use honeypot_go.Shell.Paths.{base_of, join_two}
use honeypot_go.Shell.Files.{Said, for_each, targets_of, report, has_node}

abbrev pub archive_endings : List Bytes
archive_endings =
    codes ".tar.gz"
    ∷ codes ".tar.bz2"
    ∷ codes ".tar.xz"
    ∷ codes ".tgz"
    ∷ codes ".tbz2"
    ∷ codes ".txz"
    ∷ codes ".tar"
    ∷ codes ".gz"
    ∷ codes ".bz2"
    ∷ codes ".xz"
    ∷ []

unfoldable pub strip_ending : List Bytes → Bytes → Bytes
unfolding has_suffix trim_suffix same
strip_ending [] name = name
strip_ending (e ∷ endings) name =
    let rest = strip_ending endings name in
    let trimmed = trim_suffix name e in
    if has_suffix name e && not (same trimmed []) then trimmed else rest

unfoldable pub strip_archive_ext : Bytes → Bytes
unfolding strip_ending
strip_archive_ext name = strip_ending archive_endings name

pub data TarMode : Type 0 where
  no_mode extract create list_names : TarMode

pub record TarOptions : Type 0 where
  pub mode : TarMode
  pub file : Bytes
  pub change_dir : Bytes
  pub verbose : Bool
  pub operands : List Bytes

-- A cluster of letters; the last mode stands.
abbrev pub with_letter : ℕ → TarOptions → TarOptions
with_letter c o =
    if c == b'x'
    then record o { mode = extract }
    else if c == b'c'
    then record o { mode = create }
    else if c == b't'
    then record o { mode = list_names }
    else if c == b'v'
    then record o { verbose = true }
    else o

abbrev pub with_letters : Bytes → TarOptions → TarOptions
with_letters [] o = o
with_letters (c ∷ s) o = with_letters s (with_letter c o)

abbrev pub is_file_letter : ℕ → Bool
is_file_letter c = c == b'f'

abbrev pub either_of : Bytes → Bytes → Bytes → Bool
either_of a b s = same s a || same s b

-- One argument that takes no value behind it.
abbrev pub with_word : Bytes → TarOptions → TarOptions
with_word a o =
    if has_prefix a (codes "--file=")
    then record o { file = drop 7 a }
    else if either_of (codes "-f") (codes "--file") a
        || either_of (codes "-C") (codes "--directory") a
    then o
    else if either_of (codes "--extract") (codes "--get") a
    then record o { mode = extract }
    else if same a (codes "--create")
    then record o { mode = create }
    else if same a (codes "--list")
    then record o { mode = list_names }
    else if same a (codes "--verbose")
    then record o { verbose = true }
    else if has_prefix a (codes "-") && not (same a (codes "-"))
    then with_letters (drop 1 a) o
    else record o { operands = o.operands ++ a ∷ [] }

-- Is the argument a cluster of letters with an f, behind which the file stands?
abbrev pub is_file_cluster : Bytes → TarOptions → Bool
is_file_cluster a o =
    has_prefix a (codes "-")
    && not (same a (codes "-"))
    && not (
        same a (codes "--extract")
        || same a (codes "--get")
        || same a (codes "--create")
        || same a (codes "--list")
        || same a (codes "--verbose")
        || has_prefix a (codes "--file="))
    && any_of is_file_letter (drop 1 a)
    && same o.file []

unfoldable pub tar_options : List Bytes → TarOptions → TarOptions
unfolding same has_prefix
tar_options [] o = o
tar_options (a ∷ []) o = with_word a o
tar_options (a ∷ value ∷ rest) o =
    let with_file = tar_options rest (record o { file = value }) in
    let with_dir = tar_options rest (record o { change_dir = value }) in
    let with_cluster = tar_options rest (record (with_word a o) { file = value }) in
    let other = tar_options (value ∷ rest) (with_word a o) in
    if either_of (codes "-f") (codes "--file") a
    then with_file
    else if either_of (codes "-C") (codes "--directory") a
    then with_dir
    else if is_file_cluster a o
    then with_cluster
    else other

-- The first operand stands for a missing file.
abbrev pub first_operand : List Bytes → TarOptions → TarOptions
first_operand [] o = o
first_operand (a ∷ rest) o = if same o.file [] then record o { file = a; operands = rest } else o

abbrev pub tar_usage : Bytes
tar_usage =
    codes
      "tar: You must specify one of the '-Acdtrux', '--delete' or '--test-label' options\nTry 'tar --help' or 'tar --usage' for more information.\n"

abbrev pub each_line : List Bytes → Bytes
each_line [] = []
each_line (l ∷ ls) = l ++ 10 ∷ each_line ls

abbrev pub placeholder : Bytes
placeholder = 31 ∷ 139 ∷ 8 ∷ 0 ∷ codes "tar-sim-placeholder"

abbrev pub behind : Bytes → Said → Said
behind text (fs, more) = (fs, text ++ more)

abbrev pub gzip_name : Bool → Bytes → Bytes
gzip_name decompress t = if decompress then trim_suffix t (codes ".gz") else t ++ codes ".gz"

module _ (quote : Bytes → Bytes) (clock : ProcClock) (now : ℕ) (cwd : Bytes) where
  abbrev pub tar_text : Bytes → FsError → Bytes
  tar_text what e = codes "tar: " ++ (what ++ (codes ": " ++ (error_text quote e ++ 10 ∷ [])))

  abbrev pub tar_run : TarMode → TarOptions → FileSystem → Said
  tar_run no_mode o fs = (fs, tar_usage)
  tar_run create o fs =
      behind (if o.verbose then each_line o.operands else [])
        (report (tar_text o.file) (write_file now (abs_path cwd o.file) placeholder fs))
  tar_run list_names o fs = (fs, strip_archive_ext (base_of o.file) ++ 10 ∷ [])
  tar_run extract o fs =
      let entry = strip_archive_ext (base_of o.file) in
      let dir = if same o.change_dir [] then cwd else abs_path cwd o.change_dir in
      behind (if o.verbose then entry ++ 10 ∷ [] else [])
        (report (tar_text entry) (write_file now (join_two dir entry) [] fs))

  -- An archive that is read has to be there.
  abbrev pub reads_archive : TarMode → Bool
  reads_archive list_names = true
  reads_archive extract = true
  reads_archive _ = false

  unfoldable pub tar_with : TarOptions → FileSystem → Said
  unfolding strip_archive_ext base_of join_two abs_path resolve error_text same
  tar_with o fs =
      if same o.file []
      then (fs, tar_usage)
      else if reads_archive o.mode && not (has_node (resolve fs (abs_path cwd o.file)))
      then (
        fs,
        codes "tar (child): "
            ++ (o.file
                ++ codes
                    ": Cannot open: No such file or directory\ntar (child): Error is not recoverable: exiting now\n"),
      )
      else tar_run o.mode o fs

  unfoldable pub tar : List Bytes → FileSystem → Said
  unfolding tar_options tar_with same
  tar args fs =
      let o =
        tar_options args
          (record { mode = no_mode; file = []; change_dir = []; verbose = false; operands = [] }) in
      tar_with (first_operand o.operands o) fs

  -- The file behind the compression, and the removal of the other one.
  abbrev pub gzip_written : Bool → Bytes → Outcome → Said
  gzip_written keep src (fs, some e) = (fs, codes "gzip: " ++ (error_text quote e ++ 10 ∷ []))
  gzip_written keep src (fs, none) = if keep then (fs, []) else ((remove src fs).0, [])

  abbrev pub gzip_content : Bool → Bool → Bool → Bytes → Result Bytes → FileSystem → Said
  gzip_content keep to_stdout decompress t (err e) fs =
      (fs, codes "gzip: " ++ (t ++ codes ": No such file or directory\n"))
  gzip_content keep to_stdout decompress t (ok content) fs =
      let name = gzip_name decompress t in
      if decompress && same name t
      then (fs, codes "gzip: " ++ (t ++ codes ": unknown suffix -- ignored\n"))
      else if to_stdout
      then (fs, content)
      else gzip_written keep (abs_path cwd t) (write_file now (abs_path cwd name) content fs)

  unfoldable pub gzip_one : Bool → Bool → Bool → Bytes → FileSystem → Said
  unfolding abs_path read_file remove error_text trim_suffix same
  gzip_one keep to_stdout decompress t fs =
      gzip_content keep to_stdout decompress t (read_file clock fs (abs_path cwd t)) fs

  abbrev pub is_keep : Bytes → Bool
  is_keep a = either_of (codes "-k") (codes "--keep") a

  abbrev pub is_stdout : Bytes → Bool
  is_stdout a = same a (codes "-c") || either_of (codes "--stdout") (codes "--to-stdout") a

  abbrev pub is_decompress : Bytes → Bool
  is_decompress a = same a (codes "-d") || either_of (codes "--decompress") (codes "--uncompress") a

  abbrev pub gzip_targets : Bool → Bool → Bool → List Bytes → FileSystem → Said
  gzip_targets keep to_stdout decompress [] fs = (
    fs,
    codes
        "gzip: compressed data not written to a terminal. Use -f to force compression.\nFor help, type: gzip -h\n",
  )
  gzip_targets keep to_stdout decompress (t ∷ ts) fs =
      for_each (gzip_one keep to_stdout decompress) (t ∷ ts) fs

  unfoldable pub gzip : Bool → List Bytes → FileSystem → Said
  unfolding for_each targets_of gzip_one same
  gzip decompress args fs =
      gzip_targets (any_of is_keep args) (any_of is_stdout args)
        (decompress || any_of is_decompress args) (targets_of args) fs
