-- ===== src/Vfs/Seed.antt =====
-- `addFile`, `addDir` and `fakeMtime` of internal/vfs/vfs.go, by which `bootstrap` builds the tree.
use honeypot_go.Base.{
  ℕ, ◌+◌, ◌-◌, ◌*◌, ◌/◌, ◌%◌, ◌^◌, Bool, true, false, Option, none, some, List, [], ◌∷◌, ◌++◌,
  if◌then◌else◌, Bytes, codes, split_last, bit_xor, length,
}
use honeypot_go.Vfs.Tree.{Meta, Node, node, nil, meta, child, lookup, insert, with_kids}
use honeypot_go.Vfs.Walk.{split_path}

-- `fnv.New32a` on the bytes, by its definition: xor, then a product modulo 2 ^ 32.
unfoldable pub fnv_from : ℕ → Bytes → ℕ
fnv_from h [] = h
fnv_from h (c ∷ s) = fnv_from (bit_xor h c * 16777619 % 2 ^ 32) s

-- Nanoseconds; a day of `AddDate` has 24 hours.
abbrev pub minute : ℕ
minute = 60000000000

-- `now` is `time.Now()`.
unfoldable pub fake_mtime : ℕ → Bytes → ℕ
unfolding fnv_from
fake_mtime now path =
    let sum = fnv_from 2166136261 path in
    let days = sum % 90 in
    let hours = sum / 2 ^ 8 % 24 in
    let mins = sum / 2 ^ 16 % 60 in
    now - days * (1440 * minute) - (hours * (60 * minute) + mins * minute)

-- A node without attributes and children.
abbrev pub seeded : Bool → Bytes → Bytes → Bytes → Bytes → ℕ → Bytes → Node
seeded is_dir name perm owner group mtime content =
    let m : Meta = record {
      name = name;
      is_dir = is_dir;
      perm = perm;
      owner = owner;
      group = group;
      size = length content;
      mtime = mtime;
      content = content;
      attrs = 0;
    } in
    node m nil

abbrev pub seeded_dir : Bytes → Bytes → Bytes → ℕ → Bytes → Node
seeded_dir perm owner group mtime name = seeded true name perm owner group mtime []

-- strings.Join(parts, "/"), behind a slash
abbrev pub joined : List Bytes → Bytes
joined [] = []
joined (p ∷ ps) = b'/' ∷ p ++ joined ps

abbrev pub or_slash : Bytes → Bytes
or_slash [] = codes "/"
or_slash (c ∷ s) = c ∷ s

-- The child that a loop goes on in: the directory of that name, or a new one in its place.
abbrev pub enter_or : (Bytes → Node) → Bytes → Option Node → Node
enter_or fresh_dir p none = fresh_dir p
enter_or fresh_dir p (some n) = if (meta n).is_dir then n else fresh_dir p

-- The loops of `addFile` and `addDir`, and what is done with the directory where they end.
unfoldable pub descend : (Bytes → Node) → (Node → Node) → List Bytes → Node → Node
unfolding lookup insert
descend fresh_dir last [] d = last d
descend fresh_dir last (p ∷ ps) d =
    with_kids (insert p (descend fresh_dir last ps (enter_or fresh_dir p (child p d)))) d

abbrev pub put_file : Bytes → Node → Node → Node
put_file name file d = with_kids (insert name file) d

abbrev pub time_of_dirs : ℕ → List Bytes → ℕ
time_of_dirs now dirs = fake_mtime now (or_slash (joined dirs))

abbrev pub add_file_at :
    ℕ → Bytes → Bytes → Bytes → Bytes → Bytes → Option (List Bytes × Bytes) → Node → Node
add_file_at now path perm owner group content none root = root
add_file_at now path perm owner group content (some (dirs, name)) root =
    descend (seeded_dir (codes "drwxr-xr-x") (codes "root") (codes "root") (time_of_dirs now dirs))
      (put_file name (seeded false name perm owner group (fake_mtime now path) content)) dirs root

-- The source indexes the last part: the paths of `bootstrap` have one.
unfoldable pub add_file : ℕ → Bytes → Bytes → Bytes → Bytes → Bytes → Node → Node
unfolding split_path descend fake_mtime
add_file now path perm owner group content root =
    add_file_at now path perm owner group content (split_last (split_path path)) root

unfoldable pub add_dir : ℕ → Bytes → Bytes → Bytes → Bytes → Node → Node
unfolding split_path descend fake_mtime
add_dir now path perm owner group root =
    let parts = split_path path in
    descend (seeded_dir perm owner group (time_of_dirs now parts)) (λ d. d) parts root
