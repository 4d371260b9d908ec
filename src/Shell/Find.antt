-- ===== src/Shell/Find.antt =====
-- `findCmd` of internal/shell/executor.go.
use honeypot_go.Base.{
  ℕ, suc, Bool, true, false, ◌||◌, ◌&&◌, not, List, [], ◌∷◌, ◌++◌, if◌then◌else◌, Bytes, codes,
  same, has_prefix, leb,
}
use honeypot_go.Vfs.State.{FileSystem}
use honeypot_go.Vfs.Read.{FileInfo}
use honeypot_go.Vfs.Visits.{walk}
use honeypot_go.Shell.Dispatch.{abs_path}
use honeypot_go.Shell.Glob.{glob_match}

pub record FindOptions : Type 0 where
  pub roots : List Bytes
  pub pattern : Bytes
  pub use_type : Bytes

-- A word that takes no value: an option, or a place to start.
abbrev pub find_word : Bytes → FindOptions → FindOptions
find_word a o = if has_prefix a (codes "-") then o else record o { roots = o.roots ++ a ∷ [] }

unfoldable pub find_options : List Bytes → FindOptions → FindOptions
unfolding same has_prefix
find_options [] o = o
find_options (a ∷ []) o = find_word a o
find_options (a ∷ value ∷ rest) o =
    let named = find_options rest (record o { pattern = value }) in
    let typed = find_options rest (record o { use_type = value }) in
    let limited = find_options rest o in
    let other = find_options (value ∷ rest) (find_word a o) in
    if same a (codes "-name")
    then named
    else if same a (codes "-type")
    then typed
    else if same a (codes "-maxdepth")
    then limited
    else other

abbrev pub is_wrong_type : Bytes → Bool → Bool
is_wrong_type use_type is_dir =
    (same use_type (codes "f") && is_dir) || (same use_type (codes "d") && not is_dir)

abbrev pub shown_path : Bytes → Bytes → Bytes
shown_path prefix rel =
    let p = prefix ++ (b'/' ∷ rel) in
    if not (has_prefix p (codes "/")) && not (has_prefix p (codes "./")) then codes "./" ++ p else p

-- The number of the results and the lines printed; false ends the walk.
abbrev pub Found : Type 0
Found = ℕ × List Bytes

unfoldable pub see_entry : FindOptions → Bytes → Bytes → FileInfo → Found → Found × Bool
unfolding same has_prefix glob_match
see_entry o prefix rel fi (limit, lines) =
    if leb 500 limit
    then ((limit, lines), false)
    else if is_wrong_type o.use_type fi.is_dir
    then ((limit, lines), true)
    else if not (same o.pattern []) && not (glob_match o.pattern fi.name)
    then ((limit, lines), true)
    else ((suc limit, lines ++ shown_path prefix rel ∷ []), true)

unfoldable pub find_roots : FindOptions → Bytes → List Bytes → FileSystem → Found → Found
unfolding see_entry walk abs_path
find_roots o cwd [] fs st = st
find_roots o cwd (r ∷ rs) fs st =
    find_roots o cwd rs fs (walk (see_entry o r) (abs_path cwd r) fs st).0

abbrev pub or_here : List Bytes → List Bytes
or_here [] = codes "." ∷ []
or_here (r ∷ rs) = r ∷ rs

abbrev pub each_line : List Bytes → Bytes
each_line [] = []
each_line (l ∷ ls) = l ++ 10 ∷ each_line ls

unfoldable pub find_lines : Bytes → List Bytes → FileSystem → List Bytes
unfolding find_options find_roots
find_lines cwd args fs =
    let o = find_options args (record { roots = []; pattern = []; use_type = [] }) in
    (find_roots o cwd (or_here o.roots) fs (0, [])).1

unfoldable pub find_cmd : Bytes → List Bytes → FileSystem → Bytes
unfolding find_lines
find_cmd cwd args fs = each_line (find_lines cwd args fs)
