-- ===== src/Shell/Paths.antt =====
-- The functions of package path that internal/shell calls.
use honeypot_go.Base.{
  Bool, ◌||◌, List, [], ◌∷◌, ◌++◌, if◌then◌else◌, Bytes, codes, same, has_prefix, split, trim_right,
  ℕ, ◌==◌,
}
use honeypot_go.Shell.Text.{join}

-- The segments that are kept, the last one first.
abbrev pub clean_up : Bool → List Bytes → List Bytes
clean_up rooted [] = if rooted then [] else codes ".." ∷ []
clean_up rooted (s ∷ kept) = if same s (codes "..") then codes ".." ∷ s ∷ kept else kept

unfoldable pub clean_segments : Bool → List Bytes → List Bytes → List Bytes
unfolding same
clean_segments rooted [] kept = kept
clean_segments rooted (s ∷ segments) kept = clean_segments rooted segments (
    if same s [] || same s (codes ".")
    then kept
    else if same s (codes "..")
    then clean_up rooted kept
    else s ∷ kept)

abbrev pub backwards : List Bytes → List Bytes → List Bytes
backwards [] done = done
backwards (s ∷ ss) done = backwards ss (s ∷ done)

abbrev pub or_dot : Bytes → Bytes
or_dot [] = codes "."
or_dot (c ∷ s) = c ∷ s

-- path.Clean
unfoldable pub clean : Bytes → Bytes
unfolding has_prefix clean_segments join split
clean p =
    let rooted = has_prefix p (codes "/") in
    let text = join (codes "/") (backwards (clean_segments rooted (split b'/' p) []) []) in
    if rooted then b'/' ∷ text else or_dot text

-- The text up to the last '/' and with it.
abbrev pub dir_onto : Bytes → ℕ → Bytes
dir_onto [] c = if c == b'/' then c ∷ [] else []
dir_onto (x ∷ d) c = c ∷ x ∷ d

unfoldable pub dir_part : Bytes → Bytes
dir_part [] = []
dir_part (c ∷ s) = dir_onto (dir_part s) c

-- path.Dir
unfoldable pub dir_of : Bytes → Bytes
unfolding clean dir_part
dir_of p = clean (dir_part p)

abbrev pub last_segment : Bytes → List Bytes → Bytes
last_segment last [] = last
last_segment last (s ∷ ss) = last_segment s ss

-- path.Base
unfoldable pub base_of : Bytes → Bytes
unfolding trim_right split same
base_of p =
    let name = last_segment [] (split b'/' (trim_right b'/' p)) in
    if same p [] then codes "." else if same name [] then codes "/" else name

-- path.Join of two texts that are not both empty.
unfoldable pub join_two : Bytes → Bytes → Bytes
unfolding clean same
join_two a b = if same a [] then clean b else if same b [] then clean a else clean (a ++ (b'/' ∷ b))
