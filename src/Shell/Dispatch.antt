-- ===== src/Shell/Dispatch.antt =====
-- `isFilter`, `runFilter` and `filterCmd` of internal/shell/parse.go, and `joinPath` and `absPath`
-- of internal/shell/executor.go.
use honeypot_go.Base.{
  ℕ, Bool, Option, none, some, List, [], ◌∷◌, ◌++◌, if◌then◌else◌, Bytes, codes, same, has_prefix,
  trim_right, drop, any_of, ◌||◌,
}
use honeypot_go.Vfs.State.{FileSystem}
use honeypot_go.Vfs.Write.{write_file}
use honeypot_go.Vfs.Proc.{ProcClock}
use honeypot_go.Vfs.Read.{Result, ok, err, read_file}
use honeypot_go.Shell.Text.{trim_suffix}
use honeypot_go.Shell.Filters.{
  Codec, lines_of, text_of, grep, line_count, head_lines, tail_lines, wc, sort_lines, uniq_lines,
}
use honeypot_go.Shell.Columns.{cut, tr, sed, awk, strings_lines}

unfoldable pub join_path : Bytes → Bytes → Bytes
unfolding same has_prefix trim_suffix
join_path cwd p =
    if same p (codes ".")
    then cwd
    else let p' = if has_prefix p (codes "./") then drop 2 p else p in
      if same p' (codes "/") then codes "/" else trim_suffix cwd (codes "/") ++ (b'/' ∷ p')

unfoldable pub abs_path : Bytes → Bytes → Bytes
unfolding join_path has_prefix
abs_path cwd p = if has_prefix p (codes "/") then p else join_path cwd p

-- The names that `isFilter` knows.
pub data Filter : Type 0 where
  grep_filter head_filter tail_filter wc_filter sort_filter uniq_filter cat_filter : Filter
  awk_filter sed_filter cut_filter tr_filter base64_filter strings_filter : Filter
  tee_filter xargs_filter sha256_filter md5_filter : Filter

abbrev pub filter_names : List (Bytes × Filter)
filter_names =
    (codes "grep", grep_filter)
    ∷ (codes "egrep", grep_filter)
    ∷ (codes "fgrep", grep_filter)
    ∷ (codes "head", head_filter)
    ∷ (codes "tail", tail_filter)
    ∷ (codes "wc", wc_filter)
    ∷ (codes "sort", sort_filter)
    ∷ (codes "uniq", uniq_filter)
    ∷ (codes "cat", cat_filter)
    ∷ (codes "awk", awk_filter)
    ∷ (codes "sed", sed_filter)
    ∷ (codes "cut", cut_filter)
    ∷ (codes "tr", tr_filter)
    ∷ (codes "base64", base64_filter)
    ∷ (codes "strings", strings_filter)
    ∷ (codes "tee", tee_filter)
    ∷ (codes "xargs", xargs_filter)
    ∷ (codes "sha256sum", sha256_filter)
    ∷ (codes "md5sum", md5_filter)
    ∷ []

unfoldable pub find_filter : List (Bytes × Filter) → Bytes → Option Filter
unfolding same
find_filter [] bin = none
find_filter ((name, f) ∷ fs) bin =
    let rest = find_filter fs bin in if same name bin then some f else rest

unfoldable pub filter_of : Bytes → Option Filter
unfolding find_filter
filter_of bin = find_filter filter_names bin

-- base64 with and without -d.
abbrev pub or_input : Option Bytes → Bytes → Bytes
or_input none input = input
or_input (some raw) input = raw

abbrev pub is_decode : Bytes → Bool
is_decode a = same a (codes "-d") || (same a (codes "--decode") || same a (codes "-D"))

abbrev pub base64 : Codec → List Bytes → Bytes → Bytes
base64 codec args input =
    if any_of is_decode args
    then or_input (codec.base64_decode (trim_right 10 input)) input
    else codec.base64_encode input ++ 10 ∷ []

-- The output of a filter.
unfoldable pub filter_output : Codec → Filter → List Bytes → Bytes → Bytes
unfolding lines_of grep line_count head_lines tail_lines wc sort_lines uniq_lines text_of cut tr sed
    awk strings_lines trim_right same
filter_output codec grep_filter args input = grep args (lines_of input)
filter_output codec head_filter args input =
    text_of (head_lines (line_count args 10) (lines_of input))
filter_output codec tail_filter args input =
    text_of (tail_lines (line_count args 10) (lines_of input))
filter_output codec wc_filter args input = wc args (lines_of input)
filter_output codec sort_filter args input = text_of (sort_lines (lines_of input))
filter_output codec uniq_filter args input = text_of (uniq_lines (lines_of input))
filter_output codec cat_filter args input = input
filter_output codec awk_filter args input = awk args (lines_of input)
filter_output codec sed_filter args input = sed args input (lines_of input)
filter_output codec cut_filter args input = cut args (lines_of input)
filter_output codec tr_filter args input = tr args (lines_of input)
filter_output codec base64_filter args input = base64 codec args input
filter_output codec strings_filter args input = text_of (strings_lines (lines_of input))
filter_output codec tee_filter args input = input
filter_output codec xargs_filter args input = input
filter_output codec sha256_filter args input = codec.sha256 input ++ codes "  -\n"
filter_output codec md5_filter args input = codec.md5 input ++ codes "  -\n"

-- The files that tee writes; an error of a write is ignored.
unfoldable pub tee_files : ℕ → Bytes → List Bytes → Bytes → FileSystem → FileSystem
unfolding has_prefix abs_path
tee_files now cwd [] input fs = fs
tee_files now cwd (a ∷ rest) input fs =
    tee_files now cwd rest input
      (if has_prefix a (codes "-") then fs else (write_file now (abs_path cwd a) input fs).0)

abbrev pub filter_files : ℕ → Bytes → Filter → List Bytes → Bytes → FileSystem → FileSystem
filter_files now cwd tee_filter args input fs = tee_files now cwd args input fs
filter_files now cwd _ args input fs = fs

-- `runFilter`: a name that it does not know passes its input on.
abbrev pub run_known :
    Codec → ℕ → Bytes → Option Filter → List Bytes → Bytes → FileSystem → Bytes × FileSystem
run_known codec now cwd none args input fs = (input, fs)
run_known codec now cwd (some f) args input fs =
    (filter_output codec f args input, filter_files now cwd f args input fs)

unfoldable pub run_filter :
    Codec → ℕ → Bytes → Bytes → List Bytes → Bytes → FileSystem → Bytes × FileSystem
unfolding filter_of filter_output tee_files
run_filter codec now cwd bin args input fs = run_known codec now cwd (filter_of bin) args input fs

-- `filterCmd`: the contents of the files that the arguments name, one behind the other.
abbrev pub put_content : Result Bytes → Bytes → Bytes
put_content (err e) data_read = data_read
put_content (ok content) data_read = data_read ++ content

unfoldable pub read_all : ProcClock → Bytes → List Bytes → Bytes → FileSystem → Bytes
unfolding has_prefix abs_path read_file
read_all clock cwd [] data_read fs = data_read
read_all clock cwd (a ∷ rest) data_read fs =
    read_all clock cwd rest
      (if has_prefix a (codes "-")
        then data_read
        else put_content (read_file clock fs (abs_path cwd a)) data_read)
      fs

unfoldable pub filter_cmd :
    Codec → ProcClock → ℕ → Bytes → Bytes → List Bytes → FileSystem → Bytes × FileSystem
unfolding run_filter read_all
filter_cmd codec clock now cwd bin args fs =
    run_filter codec now cwd bin args (read_all clock cwd args [] fs) fs
