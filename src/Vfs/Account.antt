-- ===== src/Vfs/Account.antt =====
-- The invariant of the file system: the counters are exact and within the limits. Lemmas for the
-- kinds of write that the operations are made of.
use honeypot_go.Base.{
  ℕ, ◌+◌, ◌≤◌, ◌≡◌, refl, sym, ap, ◌∙◌, true, none, some, [], ◌∷◌, arith, Bytes, length,
}
use honeypot_go.Vfs.Tree.{
  Meta, Node, Kids, node, meta, child, insert, delete, Ptr, find, alter, with_meta, with_kids,
  subtree_nodes, subtree_bytes, own_bytes,
}
use honeypot_go.Vfs.State.{FileSystem, edit, max_total_bytes, max_total_nodes}
use honeypot_go.Vfs.Weight.{
  weight, one, subtree_nodes-weight, subtree_bytes-weight, weight-alter, weight-insert,
  weight-delete,
}
use honeypot_go.Vfs.Sound.{IsSound, find-IsSound, IsSound-alter, IsSound-insert, IsSound-delete}
use honeypot_go.Vfs.Reach.{IsAt}

pub record IsAccounted (fs : FileSystem) : Type 0 where
  pub nodes_exact : fs.total_nodes ≡ subtree_nodes fs.root
  pub bytes_exact : fs.total_bytes ≡ subtree_bytes fs.root
  pub nodes_capped : fs.total_nodes ≤ max_total_nodes
  pub bytes_capped : fs.total_bytes ≤ max_total_bytes
  pub root_is_dir : (meta fs.root).is_dir ≡ true
  pub sound : IsSound fs.root

pub alter-is_dir :
    (f : Node → Node)
    → ((n : Node) → (meta (f n)).is_dir ≡ (meta n).is_dir)
    → (at : Ptr) (n : Node) → (meta (alter f at n)).is_dir ≡ (meta n).is_dir
unfolding alter
alter-is_dir f same_kind [] n = same_kind n
alter-is_dir f same_kind (x ∷ at) n = refl

module _ (f : Node → Node) (at : Ptr) (root d : Node) (h : find at root ≡ some d) where
  pub nodes-alter :
      subtree_nodes (alter f at root) + subtree_nodes d ≡ subtree_nodes root + subtree_nodes (f d)
  nodes-alter = omega (
    arith,
    weight-alter one f at root d h,
    subtree_nodes-weight d,
    subtree_nodes-weight (f d),
    subtree_nodes-weight root,
    subtree_nodes-weight (alter f at root),
  )

  pub bytes-alter :
      subtree_bytes (alter f at root) + subtree_bytes d ≡ subtree_bytes root + subtree_bytes (f d)
  bytes-alter = omega (
    arith,
    weight-alter own_bytes f at root d h,
    subtree_bytes-weight d,
    subtree_bytes-weight (f d),
    subtree_bytes-weight root,
    subtree_bytes-weight (alter f at root),
  )

-- An edit of the other fields of a node: mode, owners, time, attributes.
pub record IsCosmetic (f : Meta → Meta) : Type 0 where
  pub name : (m : Meta) → (f m).name ≡ m.name
  pub is_dir : (m : Meta) → (f m).is_dir ≡ m.is_dir
  pub size : (m : Meta) → (f m).size ≡ m.size
  pub content : (m : Meta) → (f m).content ≡ m.content

module _ (f : Meta → Meta) (c : IsCosmetic f) where
  nodes-with_meta : (d : Node) → subtree_nodes (with_meta f d) ≡ subtree_nodes d
  unfolding subtree_nodes
  nodes-with_meta (node m ks) = refl

  bytes-with_meta : (d : Node) → subtree_bytes (with_meta f d) ≡ subtree_bytes d
  unfolding subtree_bytes
  bytes-with_meta (node m ks) = rw (c.is_dir m, c.content m)

  IsSound-with_meta : (d : Node) → IsSound d → IsSound (with_meta f d)
  IsSound-with_meta (node m ks) h = (
    record {
      keyed = h.0.keyed;
      leaf = λ l. h.0.leaf (sym (c.is_dir m) ∙ l);
      sized = λ l. c.size m ∙ h.0.sized (sym (c.is_dir m) ∙ l) ∙ ap length (sym (c.content m));
      capped = λ l. rw (c.size m) (h.0.capped (sym (c.is_dir m) ∙ l));
    },
    h.1,
  )

  pub cosmetic-IsAccounted :
      (at : Ptr) (fs : FileSystem)
      → IsAt fs.root at
      → IsAccounted fs
      → IsAccounted (edit (with_meta f) at fs)
  cosmetic-IsAccounted at fs (d, e) v = record {
    nodes_exact =
        omega (arith, nodes-alter (with_meta f) at fs.root d e, nodes-with_meta d, v.nodes_exact);
    bytes_exact =
        omega (arith, bytes-alter (with_meta f) at fs.root d e, bytes-with_meta d, v.bytes_exact);
    nodes_capped = v.nodes_capped;
    bytes_capped = v.bytes_capped;
    root_is_dir = alter-is_dir (with_meta f) (λ n. c.is_dir (meta n)) at fs.root ∙ v.root_is_dir;
    sound =
        IsSound-alter (with_meta f) (λ n. c.name (meta n)) at fs.root d e
          (IsSound-with_meta d (find-IsSound at fs.root d v.sound e)) v.sound;
  }

weight-link :
    (w : Meta → ℕ) (name : Bytes) (new d : Node)
    → child name d ≡ none
    → weight w (with_kids (insert name new) d) ≡ weight w d + weight w new
unfolding weight
weight-link w name new (node m ks) h = omega (arith, weight-insert w name new ks h)

weight-unlink :
    (w : Meta → ℕ) (name : Bytes) (old d : Node)
    → child name d ≡ some old
    → weight w (with_kids (delete name) d) + weight w old ≡ weight w d
unfolding weight
weight-unlink w name old (node m ks) h = omega (arith, weight-delete w name ks old h)

-- A new node in a directory that has no entry of its name.
module _ (fs : FileSystem) (dir : Ptr) (name : Bytes) (new d : Node) (e : find dir fs.root ≡ some d)
    (k : child name d ≡ none) where
  pub nodes-link :
      subtree_nodes (alter (with_kids (insert name new)) dir fs.root)
      ≡ subtree_nodes fs.root + subtree_nodes new
  nodes-link = omega (
    arith,
    nodes-alter (with_kids (insert name new)) dir fs.root d e,
    weight-link one name new d k,
    subtree_nodes-weight d,
    subtree_nodes-weight new,
    subtree_nodes-weight (with_kids (insert name new) d),
  )

  pub bytes-link :
      subtree_bytes (alter (with_kids (insert name new)) dir fs.root)
      ≡ subtree_bytes fs.root + subtree_bytes new
  bytes-link = omega (
    arith,
    bytes-alter (with_kids (insert name new)) dir fs.root d e,
    weight-link own_bytes name new d k,
    subtree_bytes-weight d,
    subtree_bytes-weight new,
    subtree_bytes-weight (with_kids (insert name new) d),
  )

  pub IsSound-link :
      (meta d).is_dir ≡ true
      → (meta new).name ≡ name
      → IsSound new
      → IsSound fs.root
      → IsSound (alter (with_kids (insert name new)) dir fs.root)
  IsSound-link r n s v =
      IsSound-alter (with_kids (insert name new)) (λ x. refl) dir fs.root d e
        (IsSound-insert name new d n k r s (find-IsSound dir fs.root d v e)) v

pub root_is_dir-kids :
    (f : Kids → Kids) (dir : Ptr) (root : Node)
    → (meta (alter (with_kids f) dir root)).is_dir ≡ (meta root).is_dir
root_is_dir-kids f dir root = alter-is_dir (with_kids f) (λ n. refl) dir root

-- An entry taken out of its directory.
module _ (root : Node) (dir : Ptr) (name : Bytes) (old d : Node) (e : find dir root ≡ some d)
    (k : child name d ≡ some old) where
  pub nodes-unlink :
      subtree_nodes (alter (with_kids (delete name)) dir root) + subtree_nodes old
      ≡ subtree_nodes root
  nodes-unlink = omega (
    arith,
    nodes-alter (with_kids (delete name)) dir root d e,
    weight-unlink one name old d k,
    subtree_nodes-weight d,
    subtree_nodes-weight old,
    subtree_nodes-weight (with_kids (delete name) d),
  )

  pub bytes-unlink :
      subtree_bytes (alter (with_kids (delete name)) dir root) + subtree_bytes old
      ≡ subtree_bytes root
  bytes-unlink = omega (
    arith,
    bytes-alter (with_kids (delete name)) dir root d e,
    weight-unlink own_bytes name old d k,
    subtree_bytes-weight d,
    subtree_bytes-weight old,
    subtree_bytes-weight (with_kids (delete name) d),
  )

  pub IsSound-unlink : IsSound root → IsSound (alter (with_kids (delete name)) dir root)
  IsSound-unlink v =
      IsSound-alter (with_kids (delete name)) (λ x. refl) dir root d e
        (IsSound-delete name d (find-IsSound dir root d v e)) v
