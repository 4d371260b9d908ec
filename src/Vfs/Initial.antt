-- ===== src/Vfs/Initial.antt =====
-- `New` of internal/vfs/vfs.go and the accounting invariant.
use honeypot_go.Base.{
  ℕ, suc, ◌+◌, ◌≤◌, ◌≡◌, refl, Bool, true, false, Option, none, some, List, [], ◌∷◌, arith, Bytes,
  codes, All, Option-cases, inl, inr, length, split_last,
}
use honeypot_go.Vfs.Tree.{Meta, Node, node, own_bytes}
use honeypot_go.Vfs.State.{max_file_size, max_total_bytes, max_total_nodes, recount_usage}
use honeypot_go.Vfs.Walk.{split_path}
use honeypot_go.Vfs.Weight.{weight, one, subtree_nodes-weight, subtree_bytes-weight}
use honeypot_go.Vfs.Account.{IsAccounted}
use honeypot_go.Vfs.Seed.{
  seeded, seeded_dir, time_of_dirs, fake_mtime, put_file, add_file_at, add_file, add_dir,
}
use honeypot_go.Vfs.Seeded.{IsSoundDir, add_dir-IsSoundDir, add_file-IsSoundDir, seeded-IsSoundDir}
use honeypot_go.Vfs.Bootstrap.{Seed, dir, file, seeds, plant_one, plant, bare_root, new_file_system}
use honeypot_go.Vfs.Planted.{times, times-one, times-zero, kids_weight-put, weight-descend}

-- The nodes and the content bytes that a call adds at most, and the limit on its content.
abbrev pub new_nodes : Seed → ℕ
new_nodes (dir path perm owner group) = length (split_path path)
new_nodes (file path perm owner group content) = suc (length (split_path path))

abbrev pub new_bytes : Seed → ℕ
new_bytes (dir path perm owner group) = 0
new_bytes (file path perm owner group content) = length content

abbrev pub total_of : (Seed → ℕ) → List Seed → ℕ
total_of f [] = 0
total_of f (s ∷ ss) = f s + total_of f ss

abbrev pub IsSmall : Seed → Type 0
IsSmall s = new_bytes s ≤ max_file_size

module _ (now : ℕ) (w : Meta → ℕ) (each : ℕ)
    (light : (name perm owner group : Bytes) (mtime : ℕ)
      → weight w (seeded true name perm owner group mtime []) ≤ each) where
  weight-add_dir :
      (path perm owner group : Bytes) (root : Node)
      → weight w (add_dir now path perm owner group root)
        ≤ weight w root + times each (split_path path)
  unfolding add_dir
  weight-add_dir path perm owner group root = omega (
    arith,
    weight-descend w (seeded_dir perm owner group (time_of_dirs now (split_path path))) each
        (λ p. light p perm owner group (time_of_dirs now (split_path path))) (λ d. d) 0
        (λ d. omega arith) (split_path path) root,
  )

  module _ (path perm owner group content : Bytes) (more : ℕ)
      (file_light : (name : Bytes) (mtime : ℕ)
        → weight w (seeded false name perm owner group mtime content) ≤ more) where
    weight-put_file :
        (name : Bytes) (mtime : ℕ) (d : Node)
        → weight w (put_file name (seeded false name perm owner group mtime content) d)
          ≤ weight w d + more
    unfolding weight
    weight-put_file name mtime (node m ks) = omega (
      arith,
      kids_weight-put w name (seeded false name perm owner group mtime content) ks,
      file_light name mtime,
    )

    weight-add_file :
        (ps : List Bytes) (o : Option (List Bytes × Bytes)) (root : Node)
        → split_last ps ≡ o
        → weight w (add_file_at now path perm owner group content o root)
          ≤ weight w root + times each ps + more
    weight-add_file ps none root e = omega arith
    weight-add_file ps (some (dirs, name)) root e = omega (
      arith,
      weight-descend w
          (seeded_dir (codes "drwxr-xr-x") (codes "root") (codes "root") (time_of_dirs now dirs))
          each
          (λ p. light p (codes "drwxr-xr-x") (codes "root") (codes "root") (time_of_dirs now dirs))
          (put_file name (seeded false name perm owner group (fake_mtime now path) content)) more
          (weight-put_file name (fake_mtime now path)) dirs root,
      times_split ps dirs name e,
    )
      where
        times_split :
            (ps dirs : List Bytes) (name : Bytes)
            → split_last ps ≡ some (dirs, name)
            → times each dirs ≤ times each ps
        times_split [] dirs name q = cc
        times_split (x ∷ xs) dirs name q = elim (Option-cases (split_last xs)) [
          | inl t ↦ let r : [] ≡ dirs = ground (arith, q, t) in rw (← r) (omega arith)
          | inr (y, t) ↦
              let r : x ∷ y.0 ≡ dirs = ground (arith, q, t) in
              rw (← r) (omega (arith, times_split xs y.0 y.1 t))
        ]

light_one :
    (is_dir : Bool) (name perm owner group : Bytes) (mtime : ℕ) (content : Bytes)
    → weight one (seeded is_dir name perm owner group mtime content) ≤ 1
unfolding weight
light_one is_dir name perm owner group mtime content = omega arith

light_bytes :
    (name perm owner group : Bytes) (mtime : ℕ)
    → weight own_bytes (seeded true name perm owner group mtime []) ≤ 0
unfolding weight
light_bytes name perm owner group mtime = omega arith

file_bytes :
    (name perm owner group : Bytes) (mtime : ℕ) (content : Bytes)
    → weight own_bytes (seeded false name perm owner group mtime content) ≤ length content
unfolding weight
file_bytes name perm owner group mtime content = omega arith

nodes-plant_one :
    (now : ℕ) (s : Seed) (root : Node)
    → weight one (plant_one now s root) ≤ weight one root + new_nodes s
unfolding add_file
nodes-plant_one now (dir path perm owner group) root = omega (
  arith,
  weight-add_dir now one 1 (λ a b c d t. light_one true a b c d t []) path perm owner group root,
  times-one (split_path path),
)
nodes-plant_one now (file path perm owner group content) root = omega (
  arith,
  weight-add_file now one 1 (λ a b c d t. light_one true a b c d t []) path perm owner group content
      1 (λ n t. light_one false n perm owner group t content) (split_path path)
      (split_last (split_path path)) root refl,
  times-one (split_path path),
)

bytes-plant_one :
    (now : ℕ) (s : Seed) (root : Node)
    → weight own_bytes (plant_one now s root) ≤ weight own_bytes root + new_bytes s
unfolding add_file
bytes-plant_one now (dir path perm owner group) root = omega (
  arith,
  weight-add_dir now own_bytes 0 light_bytes path perm owner group root,
  times-zero (split_path path),
)
bytes-plant_one now (file path perm owner group content) root = omega (
  arith,
  weight-add_file now own_bytes 0 light_bytes path perm owner group content (length content)
      (λ n t. file_bytes n perm owner group t content) (split_path path)
      (split_last (split_path path)) root refl,
  times-zero (split_path path),
)

plant_one-IsSoundDir :
    (now : ℕ) (s : Seed) (root : Node)
    → IsSmall s
    → IsSoundDir root
    → IsSoundDir (plant_one now s root)
plant_one-IsSoundDir now (dir path perm owner group) root small h =
    add_dir-IsSoundDir now path perm owner group root h
plant_one-IsSoundDir now (file path perm owner group content) root small h =
    add_file-IsSoundDir now path perm owner group content root small h

-- A sound directory within bounds on its nodes and bytes.
record IsPlanted (nodes bytes : ℕ) (root : Node) : Type 0 where
  sound : IsSoundDir root
  node_bound : weight one root ≤ nodes
  byte_bound : weight own_bytes root ≤ bytes

plant-IsPlanted :
    (now : ℕ) (ss : List Seed) (nodes bytes : ℕ) (root : Node)
    → All IsSmall ss
    → IsPlanted nodes bytes root
    → IsPlanted (nodes + total_of new_nodes ss) (bytes + total_of new_bytes ss) (plant now ss root)
unfolding plant
plant-IsPlanted now [] nodes bytes root small h = record {
  sound = h.sound;
  node_bound = omega (arith, h.node_bound);
  byte_bound = omega (arith, h.byte_bound);
}
plant-IsPlanted now (s ∷ ss) nodes bytes root small h =
    let step =
      plant-IsPlanted now ss (nodes + new_nodes s) (bytes + new_bytes s) (plant_one now s root)
        small.1
        (record {
          sound = plant_one-IsSoundDir now s root small.0 h.sound;
          node_bound = omega (arith, nodes-plant_one now s root, h.node_bound);
          byte_bound = omega (arith, bytes-plant_one now s root, h.byte_bound);
        }) in
    record {
      sound = step.sound;
      node_bound = omega (arith, step.node_bound);
      byte_bound = omega (arith, step.byte_bound);
    }

bare_root-IsPlanted : IsPlanted 1 0 bare_root
unfolding weight
bare_root-IsPlanted = record {
  sound = seeded-IsSoundDir (codes "/") (codes "drwxr-xr-x") (codes "root") (codes "root") 0;
  node_bound = omega arith;
  byte_bound = omega arith;
}

-- If for the host name and the users every file that bootstrap writes has at most 64 MiB, the parts
-- of all its paths, with one more for each file, are together fewer than the limit on nodes, and all
-- contents together have at most 2 GiB, then
-- the file system that New returns satisfies the accounting invariant: exact counters within the
-- limits and a sound tree.
pub new_file_system-IsAccounted :
    (now : ℕ) (host : Bytes) (users : List Bytes)
    → All IsSmall (seeds host users)
    → 1 + total_of new_nodes (seeds host users) ≤ max_total_nodes
    → total_of new_bytes (seeds host users) ≤ max_total_bytes
    → IsAccounted (new_file_system now host users)
unfolding new_file_system recount_usage
new_file_system-IsAccounted now host users small nodes bytes =
    let p = plant-IsPlanted now (seeds host users) 1 0 bare_root small bare_root-IsPlanted in
    let root = plant now (seeds host users) bare_root in
    record {
      nodes_exact = refl;
      bytes_exact = refl;
      nodes_capped = omega (arith, nodes, p.node_bound, subtree_nodes-weight root);
      bytes_capped = omega (arith, bytes, p.byte_bound, subtree_bytes-weight root);
      root_is_dir = p.sound.is_dir;
      sound = p.sound.sound;
    }
