-- ===== src/Shell/Tools.antt =====
-- gitCmd, javaCmd, makeCmd, pkgCmd, iptablesCmd, ufwCmd, detectFileType and fileCmd of
-- internal/shell/executor.go, and what sudo and the interpreters run: stripLeadingSudo, interpreterCode.
use honeypot_go.Base.{
  ℕ, zero, suc, Bool, true, false, ◌||◌, ◌&&◌, not, Option, none, some, List, [], ◌∷◌, ◌++◌,
  if◌then◌else◌, Bytes, codes, same, has_prefix, contains_str, drop, ltb, length, ◌==◌,
}
use honeypot_go.Identity.Defs.{Identity, is_root}
use honeypot_go.Vfs.State.{FileSystem, Outcome}
use honeypot_go.Vfs.Write.{mkdir}
use honeypot_go.Vfs.Proc.{ProcClock}
use honeypot_go.Vfs.Read.{Result, ok, err, FileInfo, resolve, read_file}
use honeypot_go.Shell.Text.{trim_space, trim_suffix, has_suffix}
use honeypot_go.Shell.Dispatch.{abs_path}
use honeypot_go.Shell.Paths.{base_of, join_two}
use honeypot_go.Shell.Files.{Said, targets_of}
use honeypot_go.Shell.Columns.{member}

-- The loop of `stripLeadingSudo`, round by round; none means that the fuel ran out.
unfoldable pub strip_sudo : ℕ → Bytes → Option Bytes
unfolding trim_space same has_prefix
strip_sudo zero s = none
strip_sudo (suc fuel) s =
    let t = trim_space s in
    let rest = trim_space (drop 5 t) in
    let inner = strip_sudo fuel rest in
    if same t (codes "sudo")
    then some []
    else if not (has_prefix t (codes "sudo "))
    then some t
    else if same rest []
    then some []
    else if has_prefix rest (codes "-")
    then some t
    else inner

unfoldable pub strip_leading_sudo : Bytes → Option Bytes
unfolding strip_sudo
strip_leading_sudo s = strip_sudo (suc (length s)) s

abbrev pub is_code_option : Bytes → Bool
is_code_option a = same a (codes "-c") || (same a (codes "-e") || same a (codes "-E"))

abbrev pub is_joined_code : Bytes → Bool
is_joined_code a = (has_prefix a (codes "-c") || has_prefix a (codes "-e")) && ltb 2 (length a)

-- The code that an interpreter is given in its arguments; empty where there is none.
unfoldable pub interpreter_code : List Bytes → Bytes
unfolding same has_prefix
interpreter_code [] = []
interpreter_code (a ∷ []) =
    if is_code_option a then [] else if is_joined_code a then drop 2 a else []
interpreter_code (a ∷ value ∷ rest) =
    let next = interpreter_code (value ∷ rest) in
    if is_code_option a
    then value
    else if is_joined_code a
    then drop 2 a
    else if has_prefix a (codes "-")
    then next
    else []

-- git
abbrev pub first_of : List Bytes → Bytes
first_of [] = []
first_of (t ∷ ts) = t

abbrev pub cloned_text : Bytes
cloned_text =
    codes
      "remote: Enumerating objects: 42, done.\nremote: Counting objects: 100% (42/42), done.\nremote: Compressing objects: 100% (30/30), done.\nReceiving objects: 100% (42/42), 18.20 KiB | 2.60 MiB/s, done.\nResolving deltas: 100% (12/12), done.\n"

abbrev pub not_a_repo : Bytes
not_a_repo = codes "fatal: not a git repository (or any of the parent directories): .git\n"

abbrev pub repo_commands : List Bytes
repo_commands =
    codes "status"
    ∷ codes "log"
    ∷ codes "pull"
    ∷ codes "fetch"
    ∷ codes "push"
    ∷ codes "diff"
    ∷ codes "branch"
    ∷ codes "add"
    ∷ codes "commit"
    ∷ []

abbrev pub cloned : Bytes → Outcome → Said
cloned name (fs, none) = (fs, codes "Cloning into '" ++ (name ++ (codes "'...\n" ++ cloned_text)))
cloned name (fs, some e) = (
  fs,
  codes "Cloning into '"
      ++ (name
          ++ (codes "'...\nfatal: destination path '"
              ++ (name ++ codes "' already exists and is not an empty directory.\n"))),
)

abbrev pub or_repo : Bytes → Bytes
or_repo [] = codes "repo"
or_repo (c ∷ s) = c ∷ s

unfoldable pub git_clone : ℕ → Identity → Bytes → Bytes → FileSystem → Said
unfolding mkdir base_of join_two trim_suffix
git_clone now user cwd url fs =
    let name = or_repo (trim_suffix (base_of url) (codes ".git")) in
    let group = if is_root user then codes "root" else user.name in
    cloned name (mkdir now (join_two cwd name) (codes "drwxr-xr-x") user.name group fs)

unfoldable pub git : ℕ → Identity → Bytes → List Bytes → FileSystem → Said
unfolding git_clone same contains_str targets_of
git now user cwd [] fs = (fs, codes "usage: git [--version] [--help] <command> [<args>]\n")
git now user cwd (sub ∷ rest) fs =
    let url = first_of (targets_of rest) in
    if same sub (codes "--version")
    then (fs, codes "git version 2.43.0\n")
    else if same sub (codes "clone")
    then (if same url []
        then (fs, codes "usage: git clone [<options>] [--] <repo> [<dir>]\n")
        else git_clone now user cwd url fs)
    else if contains_str repo_commands sub
    then (fs, not_a_repo)
    else if same sub (codes "init")
    then (fs, codes "Initialized empty Git repository in " ++ (cwd ++ codes "/.git/\n"))
    else (fs, codes "git: '" ++ (sub ++ codes "' is not a git command. See 'git --help'.\n"))

abbrev pub is_read : Result Bytes → Bool
is_read (ok content) = true
is_read (err e) = false

-- java
abbrev pub java_version : Bytes
java_version =
    codes
      "openjdk version \"17.0.9\" 2023-10-17\nOpenJDK Runtime Environment (build 17.0.9+9-Ubuntu-122.04)\nOpenJDK 64-Bit Server VM (build 17.0.9+9-Ubuntu-122.04, mixed mode, sharing)\n"

abbrev pub java_usage : Bytes
java_usage =
    codes
      "Usage: java [options] <mainclass> [args...]\n           (to execute a class)\n   or  java [options] -jar <jarfile> [args...]\n           (to execute a jar file)\n"

unfoldable pub java_args : ProcClock → Bytes → Bytes → List Bytes → FileSystem → Bytes
unfolding same read_file abs_path
java_args clock cwd main [] fs =
    codes "Error: Could not find or load main class " ++ (main ++ 10 ∷ [])
java_args clock cwd main (a ∷ []) fs =
    if same a (codes "-version") || same a (codes "--version")
    then java_version
    else codes "Error: Could not find or load main class " ++ (main ++ 10 ∷ [])
java_args clock cwd main (a ∷ jar ∷ rest) fs =
    let next = java_args clock cwd main (jar ∷ rest) fs in
    if same a (codes "-version") || same a (codes "--version")
    then java_version
    else if same a (codes "-jar")
    then (if is_read (read_file clock fs (abs_path cwd jar))
        then codes "Error: Invalid or corrupt jarfile " ++ (jar ++ 10 ∷ [])
        else codes "Error: Unable to access jarfile " ++ (jar ++ 10 ∷ []))
    else next

abbrev pub java : ProcClock → Bytes → List Bytes → FileSystem → Bytes
java clock cwd [] fs = java_usage
java clock cwd (main ∷ rest) fs = java_args clock cwd main (main ∷ rest) fs

-- make
unfoldable pub make : ProcClock → Bytes → FileSystem → Bytes
unfolding read_file abs_path
make clock cwd fs =
    if is_read (read_file clock fs (abs_path cwd (codes "Makefile")))
      || (is_read (read_file clock fs (abs_path cwd (codes "makefile")))
          || is_read (read_file clock fs (abs_path cwd (codes "GNUmakefile"))))
    then codes "make: Nothing to be done for 'all'.\n"
    else codes "make: *** No targets specified and no makefile found.  Stop.\n"

-- file
abbrev pub is_gzip : Bytes → Bool
is_gzip (c ∷ d ∷ s) = c == 31 && d == 139
is_gzip _ = false

unfoldable pub detect_file_type : Bytes → Bytes → Bytes
unfolding has_prefix has_suffix
detect_file_type name content =
    if has_prefix content (127 ∷ codes "ELF")
    then codes "ELF 64-bit LSB executable, x86-64"
    else if is_gzip content
    then codes "gzip compressed data"
    else if has_prefix content (codes "%PDF-")
    then codes "PDF document"
    else if has_suffix name (codes ".py")
    then codes "Python script, ASCII text executable"
    else if has_suffix name (codes ".sh")
    then codes "POSIX shell script, ASCII text executable"
    else if member 0 content
    then codes "data"
    else codes "ASCII text"

abbrev pub type_of_content : Bytes → Result Bytes → Bytes
type_of_content full (err e) = codes "data"
type_of_content full (ok content) = detect_file_type full content

abbrev pub file_line : Bytes → Bytes → Option FileInfo → Result Bytes → Bytes
file_line f full none content =
    f ++ (codes ": cannot open '" ++ (f ++ codes "' (No such file or directory)\n"))
file_line f full (some fi) content =
    f
    ++ (codes ": "
        ++ ((if fi.is_dir then codes "directory" else type_of_content full content) ++ 10 ∷ []))

unfoldable pub file_lines : ProcClock → Bytes → List Bytes → FileSystem → Bytes
unfolding detect_file_type abs_path resolve read_file
file_lines clock cwd [] fs = []
file_lines clock cwd (f ∷ rest) fs =
    let full = abs_path cwd f in
    file_line f full (resolve fs full) (read_file clock fs full) ++ file_lines clock cwd rest fs

unfoldable pub file_cmd : ProcClock → Bytes → List Bytes → FileSystem → Bytes
unfolding file_lines targets_of
file_cmd clock cwd args fs = file_lines clock cwd (targets_of args) fs
