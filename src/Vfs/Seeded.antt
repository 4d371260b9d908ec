-- ===== src/Vfs/Seeded.antt =====
-- `addFile` and `addDir` of internal/vfs/vfs.go, and the soundness of trees.
use honeypot_go.Base.{
  ◌≤◌, ◌≡◌, refl, ◌∙◌, Bool, true, false, Option, none, some, List, [], ◌∷◌, arith, Bytes, same,
  same_iff, Bool-cases, inl, inr, length, ℕ, split_last,
}
use honeypot_go.Vfs.Tree.{Node, Kids, node, nil, cons, meta, lookup, child, insert, with_kids}
use honeypot_go.Vfs.State.{max_file_size}
use honeypot_go.Vfs.Walk.{split_path}
use honeypot_go.Vfs.Laws.{lookup-insert}
use honeypot_go.Vfs.Sound.{IsSound, Keyed, AreSound-insert, lookup-IsSound}
use honeypot_go.Vfs.Seed.{seeded, enter_or, descend, put_file, add_file_at, add_file, add_dir}

-- A sound directory.
pub record IsSoundDir (n : Node) : Type 0 where
  pub sound : IsSound n
  pub is_dir : (meta n).is_dir ≡ true

Keyed-put :
    (x : Bytes) (new : Node) (ks : Kids) → (meta new).name ≡ x → Keyed ks → Keyed (insert x new ks)
unfolding lookup insert
Keyed-put x new nil n h = (n, refl, tt)
Keyed-put x new (cons k c ks) n h = elim (Bool-cases (same k x)) [
  | inl t ↦ rw t (ground (arith, same_iff k x), h.1, h.2)
  | inr t ↦ rw t (
    h.0,
    ground (arith, lookup-insert x k new ks, same_iff k x, same_iff x k, h.1),
    Keyed-put x new ks n h.2,
  )
]

put-IsSoundDir :
    (x : Bytes) (new d : Node)
    → (meta new).name ≡ x
    → IsSound new
    → IsSoundDir d
    → IsSoundDir (with_kids (insert x new) d)
put-IsSoundDir x new (node m ks) n s h = record {
  sound = (
    record {
      keyed = Keyed-put x new ks n h.sound.0.keyed;
      leaf = λ l. absurd (true_false (ground (arith, h.is_dir, l)));
      sized = h.sound.0.sized;
      capped = h.sound.0.capped;
    },
    AreSound-insert x new ks s h.sound.1,
  );
  is_dir = h.is_dir;
}
  where
    true_false : true ≡ false → ⊥
    true_false e = cc

seeded-IsSound :
    (is_dir : Bool) (name perm owner group : Bytes) (mtime : ℕ) (content : Bytes)
    → length content ≤ max_file_size
    → IsSound (seeded is_dir name perm owner group mtime content)
seeded-IsSound is_dir name perm owner group mtime content h =
    (record { keyed = tt; leaf = λ l. refl; sized = λ l. refl; capped = λ l. h }, tt)

lookup-name :
    (x : Bytes) (ks : Kids) (c : Node) → Keyed ks → lookup x ks ≡ some c → (meta c).name ≡ x
unfolding lookup
lookup-name x nil c k e = cc
lookup-name x (cons key n ks) c k e = elim (Bool-cases (same key x)) [
  | inl t ↦ let q : n ≡ c = ground (arith, e, t) in rw (← q) (k.0 ∙ (same_iff key x).0 t)
  | inr t ↦ lookup-name x ks c k.2 (rw t at e)
]

-- The directory that a loop goes on in is sound and stands under its name.
module _ (fresh_dir : Bytes → Node) (named : (p : Bytes) → (meta (fresh_dir p)).name ≡ p)
    (made : (p : Bytes) → IsSoundDir (fresh_dir p)) where
  enter_or-IsSoundDir :
      (p : Bytes) (o : Option Node) (d : Node)
      → child p d ≡ o
      → IsSoundDir d
      → IsSoundDir (enter_or fresh_dir p o) × ((meta (enter_or fresh_dir p o)).name ≡ p)
  enter_or-IsSoundDir p none d e h = (made p, named p)
  enter_or-IsSoundDir p (some n) (node m ks) e h = elim (Bool-cases (meta n).is_dir) [
    | inl t ↦ rw t (
      record { sound = lookup-IsSound p ks n h.sound.1 e; is_dir = t },
      lookup-name p ks n h.sound.0.keyed e,
    )
    | inr t ↦ rw t (made p, named p)
  ]

  module _ (last : Node → Node) (last_name : (d : Node) → (meta (last d)).name ≡ (meta d).name)
      (last_sound : (d : Node) → IsSoundDir d → IsSoundDir (last d)) where
    descend-name :
        (ps : List Bytes) (d : Node) → (meta (descend fresh_dir last ps d)).name ≡ (meta d).name
    unfolding descend
    descend-name [] d = last_name d
    descend-name (p ∷ ps) d = refl

    pub descend-IsSoundDir :
        (ps : List Bytes) (d : Node) → IsSoundDir d → IsSoundDir (descend fresh_dir last ps d)
    unfolding descend
    descend-IsSoundDir [] d h = last_sound d h
    descend-IsSoundDir (p ∷ ps) d h =
        let next = enter_or fresh_dir p (child p d) in
        let (s, n) = enter_or-IsSoundDir p (child p d) d refl h in
        put-IsSoundDir p (descend fresh_dir last ps next) d (descend-name ps next ∙ n)
          (descend-IsSoundDir ps next s).sound h

pub seeded-IsSoundDir :
    (name perm owner group : Bytes) (mtime : ℕ)
    → IsSoundDir (seeded true name perm owner group mtime [])
seeded-IsSoundDir name perm owner group mtime = record {
  sound = seeded-IsSound true name perm owner group mtime [] (omega arith);
  is_dir = refl;
}

module _ (now : ℕ) (path perm owner group : Bytes) where
  pub add_dir-IsSoundDir :
      (root : Node) → IsSoundDir root → IsSoundDir (add_dir now path perm owner group root)
  unfolding add_dir
  add_dir-IsSoundDir root h =
      descend-IsSoundDir _ (λ p. refl) (λ p. seeded-IsSoundDir p perm owner group _) (λ d. d)
        (λ d. refl) (λ d s. s) _ root h

  pub add_file-IsSoundDir :
      (content : Bytes) (root : Node)
      → length content ≤ max_file_size
      → IsSoundDir root
      → IsSoundDir (add_file now path perm owner group content root)
  unfolding add_file
  add_file-IsSoundDir content root small h = at (split_last (split_path path))
    where
      at :
          (o : Option (List Bytes × Bytes))
          → IsSoundDir (add_file_at now path perm owner group content o root)
      at none = h
      at (some (dirs, name)) =
          descend-IsSoundDir _ (λ p. refl) (λ p. seeded-IsSoundDir p _ _ _ _) (put_file name _)
            (λ d. refl)
            (λ d s.
              put-IsSoundDir name _ d refl
                (seeded-IsSound false name perm owner group _ content small) s)
            dirs root h
