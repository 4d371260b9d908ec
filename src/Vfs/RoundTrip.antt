-- ===== src/Vfs/RoundTrip.antt =====
-- What `ReadFile` returns after a successful `WriteFile` or `AppendFile` of the same path.
use honeypot_go.Base.{
  ℕ, ◌≡◌, ◌≢◌, refl, ap, ◌∙◌, Bool, true, false, ◌||◌, ◌&&◌, not, Option, none, some, List, [], ◌∷◌,
  ◌++◌, arith, if◌then◌else◌, Bytes, same, same_iff, split_last, bind, Bool-cases, inl, inr, ltb,
  leb, length, ◌+◌, ◌-◌,
}
use honeypot_go.Vfs.Tree.{
  Node, Meta, meta, child, Ptr, find, deref, alter, with_meta, immutable, append_only,
  perm_writable,
}
use honeypot_go.Vfs.Walk.{
  Cursor, start, push, is_here, is_up, is_dots, walk_step, enter_step, steps, split_path, walk_path,
  enter_dirs,
}
use honeypot_go.Vfs.State.{
  FileSystem, found, max_total_nodes, max_file_size, max_total_bytes, invalid_path,
  no_such_directory,
}
use honeypot_go.Vfs.Write.{
  written, new_file, link, write_content, write_entry, write_in, locked_write,
}
use honeypot_go.Vfs.Proc.{ProcClock, proc_content}
use honeypot_go.Vfs.Read.{ok, or_content, read_file}
use honeypot_go.Vfs.Laws.{
  find-concat, find-concat_inv, deref_of_find, find-alter, find-alter_self, find-insert_self,
  find-link,
}
use honeypot_go.Vfs.Reach.{IsAt, IsDirAt, enter_dirs-IsDirAt, find-deref}
use honeypot_go.Vfs.PathLaws.{split_last-append, steps-append, split_path-nonempty, steps-alive}

-- After the write a file with this content stands at `at`, and no pointer has died.
record IsStored (root : Node) (root' : Node) (at : Ptr) (content : Bytes) : Type 0 where
  alive : (q : Ptr) → IsAt root q → IsAt root' q
  file : Node
  here : find at root' ≡ some file
  is_file : (meta file).is_dir ≡ false
  holds : (meta file).content ≡ content

write_content-IsStored :
    (now : ℕ) (path : Bytes) (at : Ptr) (bytes : Bytes) (mode : Bool) (fs : FileSystem) (d : Node)
    → find at fs.root ≡ some d
    → (meta d).is_dir ≡ false
    → (write_content now path at bytes mode fs).1 ≡ none
    → IsStored fs.root
        (write_content now path at bytes mode fs).0.root
        at
        (written (meta d).content bytes mode)
unfolding write_content
write_content-IsStored now path at bytes mode fs d e f =
    rw (deref_of_find at fs.root d e)
      (elim (Bool-cases (
        ltb max_file_size
          (if mode then length bytes + length (meta d).content else length bytes))) [
            | inl big ↦ rw big (λ r. cc)
            | inr fits ↦
                rw fits
                  (elim (Bool-cases (
                    ltb (length (meta d).content)
                      (if mode then length bytes + length (meta d).content else length bytes)
                    && ltb max_total_bytes (
                        fs.total_bytes
                        + (if mode then length bytes + length (meta d).content else length bytes)
                        - length (meta d).content))) [
                          | inl full ↦ rw full (λ r. cc)
                          | inr room ↦ rw room (λ r. record {
                            alive = λ q g. alive q g;
                            file = with_meta edit_meta d;
                            here = find-alter_self (with_meta edit_meta) at fs.root d e;
                            is_file = f;
                            holds = refl;
                          })
                        ])
          ])
  where
    edit_meta : Meta → Meta
    edit_meta m = record m {
      content = written m.content bytes mode;
      size = length (written m.content bytes mode);
      mtime = now;
    }

    alive : (q : Ptr) → IsAt fs.root q → IsAt (alter (with_meta edit_meta) at fs.root) q
    alive q (t, h) =
        let (t', h', _) =
          find-alter (λ a b. Unit {0}) (λ m. tt) (with_meta edit_meta) at fs.root d e tt
            (λ y c k. k) q t h in
        (t', h')

-- What the write finds: the content of the entry, or nothing.
abbrev before : Option Node → Bytes
before none = []
before (some n) = (meta n).content

write_entry-IsStored :
    (now : ℕ) (path : Bytes) (dir : Ptr) (name bytes : Bytes) (mode : Bool) (fs : FileSystem)
    (d : Node) (o : Option Node)
    → find dir fs.root ≡ some d
    → child name d ≡ o
    → (write_entry now path dir name bytes mode o fs).1 ≡ none
    → IsStored fs.root
        (write_entry now path dir name bytes mode o fs).0.root
        (dir ++ name ∷ [])
        (written (before o) bytes mode)
unfolding write_entry
write_entry-IsStored now path dir name bytes mode fs d none e k =
    elim (Bool-cases (immutable (meta (deref fs.root dir)))) [
      | inl t ↦ rw t (λ r. cc)
      | inr t ↦ rw t (elim (Bool-cases (leb max_total_nodes fs.total_nodes)) [
        | inl full ↦ rw full (λ r. cc)
        | inr room ↦ rw room (λ r.
            let s =
              write_content-IsStored now path (dir ++ name ∷ []) bytes mode
                (link dir name (new_file now name) fs) (new_file now name)
                (find-insert_self name (new_file now name) dir fs.root d e) refl r in
            record {
              alive = λ q (t, h).
                  let (t', h', _) = find-link name (new_file now name) dir fs.root d e k q t h in
                  s.alive q (t', h');
              file = s.file;
              here = s.here;
              is_file = s.is_file;
              holds = s.holds;
            })
      ])
    ]
write_entry-IsStored now path dir name bytes mode fs d (some n) e k =
    elim (Bool-cases (meta n).is_dir) [
      | inl t ↦ rw t (λ r. cc)
      | inr t ↦ rw t (elim (Bool-cases (immutable (meta n) || (append_only (meta n) && not mode))) [
        | inl i ↦ rw i (λ r. cc)
        | inr i ↦ rw i (elim (Bool-cases (perm_writable (meta n).perm)) [
          | inr w ↦ rw w (λ r. cc)
          | inl w ↦ rw w (
              write_content-IsStored now path (dir ++ name ∷ []) bytes mode fs n
                (find-concat dir name fs.root d n e k) t)
        ])
      ])
    ]

plain_name :
    (name : Bytes)
    → is_dots name ≡ false
    → name ≢ []
    → (is_here name ≡ false) × (is_up name ≡ false)
unfolding is_dots is_here is_up
plain_name name d ne = elim (Bool-cases (same name [])) [
  | inl t ↦ absurd (ne ((same_iff name []).0 t))
  | inr t ↦ ground arith
]

walk_step_plain :
    (root : Node) (name : Bytes) (c : Cursor)
    → (is_here name ≡ false) × (is_up name ≡ false)
    → bind (walk_step root name c) (λ x. some x.dir)
      ≡ bind (child name (deref root c.dir)) (λ n. some (c.dir ++ name ∷ []))
unfolding walk_step
walk_step_plain root name c (h, u) = rw (h, u) (either (child name (deref root c.dir)))
  where
    either :
        (o : Option Node)
        → bind {B = Ptr} (elim o [ none ↦ none | some n ↦ some (push name c) ]) (λ x. some x.dir)
          ≡ bind o (λ n. some (c.dir ++ name ∷ []))
    either none = refl
    either (some n) = refl

flatten_some :
    (o : Option Cursor) → bind (bind o (λ x. some x)) (λ x. some x.dir) ≡ bind o (λ x. some x.dir)
flatten_some none = refl
flatten_some (some c) = refl

-- A walk along the whole path, once its directories have been entered.
module _ (root root' : Node) (alive : (q : Ptr) → IsAt root q → IsAt root' q)
    (is_dir : (meta root).is_dir ≡ true) where
  walk_path-entry :
      (path : Bytes) (dirs : List Bytes) (name : Bytes) (dir : Ptr)
      → split_last (split_path path) ≡ some (dirs, name)
      → enter_dirs root dirs ≡ some dir
      → is_dots name ≡ false
      → walk_path root' path ≡ bind (child name (deref root' dir)) (λ n. some (dir ++ name ∷ []))
  unfolding walk_path enter_dirs is_dots
  walk_path-entry path dirs name dir s e dots =
      rw (split_last-append (split_path path) dirs name s, steps-append)
        (entered (steps (enter_step root) dirs start) refl e)
    where
      last_step :
          (c : Cursor)
          → bind (bind (some c) (steps (walk_step root') (name ∷ []))) (λ x. some x.dir)
            ≡ bind (child name (deref root' c.dir)) (λ n. some (c.dir ++ name ∷ []))
      last_step c =
          flatten_some (walk_step root' name c)
          ∙ walk_step_plain root' name c
              (plain_name name dots (split_path-nonempty path dirs name s))

      entered :
          (o : Option Cursor)
          → steps (enter_step root) dirs start ≡ o
          → bind o (λ c. some c.dir) ≡ some dir
          → bind
              (bind (steps (walk_step root') dirs start) (steps (walk_step root') (name ∷ [])))
              (λ x. some x.dir)
            ≡ bind (child name (deref root' dir)) (λ n. some (dir ++ name ∷ []))
      entered none k h = cc
      entered (some c) k h =
          let p : c.dir ≡ dir = cc in
          rw
            (
              steps-alive root root' alive dirs start c ((root, unfold find in refl, is_dir), tt) k,
              ← p,
            )
            (last_step c)

-- The content that the path leads to, and nothing where it leads nowhere.
abbrev pub content_of : Option Ptr → Node → Bytes
content_of none root = []
content_of (some at) root = (meta (deref root at)).content

unfoldable pub content_at : FileSystem → Bytes → Bytes
unfolding walk_path
content_at fs path = content_of (walk_path fs.root path) fs.root

module _ (clock : ProcClock) (now : ℕ) (path bytes : Bytes) (mode : Bool) (fs : FileSystem)
    (is_dir : (meta fs.root).is_dir ≡ true) where
  abbrev Reads : FileSystem → Type 0
  Reads fs' =
      read_file clock fs' path
      ≡ ok (or_content (proc_content clock path) (written (content_at fs path) bytes mode))

  content_at-before :
      (dirs : List Bytes) (name : Bytes) (dir : Ptr)
      → split_last (split_path path) ≡ some (dirs, name)
      → enter_dirs fs.root dirs ≡ some dir
      → is_dots name ≡ false
      → content_at fs path ≡ before (child name (deref fs.root dir))
  unfolding content_at
  content_at-before dirs name dir s e dots =
      rw (walk_path-entry fs.root fs.root (λ q g. g) is_dir path dirs name dir s e dots)
        (entry (child name (deref fs.root dir)) refl)
    where
      at_dir : IsDirAt fs.root dir
      at_dir = enter_dirs-IsDirAt fs.root dirs dir is_dir e

      entry :
          (o : Option Node)
          → child name (deref fs.root dir) ≡ o
          → content_of (bind o (λ n. some (dir ++ name ∷ []))) fs.root ≡ before o
      entry none k = refl
      entry (some n) k =
          ap (λ (x : Node). (meta x).content)
            (deref_of_find (dir ++ name ∷ []) fs.root n (
              find-concat dir name fs.root (deref fs.root dir) n
                (find-deref fs.root dir (at_dir.0, at_dir.1)) k))

  stored-Reads :
      (dirs : List Bytes) (name : Bytes) (dir : Ptr) (fs' : FileSystem)
      → split_last (split_path path) ≡ some (dirs, name)
      → enter_dirs fs.root dirs ≡ some dir
      → is_dots name ≡ false
      → IsStored fs.root fs'.root
          (dir ++ name ∷ [])
          (written (before (child name (deref fs.root dir))) bytes mode)
      → Reads fs'
  unfolding read_file
  stored-Reads dirs name dir fs' s e dots st =
      let at_dir = enter_dirs-IsDirAt fs.root dirs dir is_dir e in
      let k =
        find-concat_inv dir name fs'.root (deref fs'.root dir) st.file
          (find-deref fs'.root dir (st.alive dir (at_dir.0, at_dir.1))) st.here in
      rw (
        walk_path-entry fs.root fs'.root st.alive is_dir path dirs name dir s e dots,
        k,
        st.here,
        st.is_file,
        st.holds,
        content_at-before dirs name dir s e dots,
      )

  -- In a file system whose root is a directory, after a WriteFile or AppendFile without error a
  -- ReadFile of the same path returns the bytes written, behind the old content of the path for an
  -- append; only where /proc content is generated for the path does it return that.
  pub read_file-locked_write :
      (locked_write now path bytes mode fs).1 ≡ none → Reads (locked_write now path bytes mode fs).0
  unfolding locked_write write_in
  read_file-locked_write = last (split_last (split_path path)) refl
    where
      in_dir :
          (dirs : List Bytes) (name : Bytes) (dir : Ptr)
          → split_last (split_path path) ≡ some (dirs, name)
          → enter_dirs fs.root dirs ≡ some dir
          → (write_in now path dir name bytes mode fs).1 ≡ none
          → Reads (write_in now path dir name bytes mode fs).0
      in_dir dirs name dir s e = elim (Bool-cases (perm_writable (meta (deref fs.root dir)).perm)) [
        | inr w ↦ rw w (λ r. cc)
        | inl w ↦ rw w (elim (Bool-cases (is_dots name)) [
          | inl t ↦ rw t (λ r. cc)
          | inr t ↦ rw t (λ r.
              let (d, g, _) = enter_dirs-IsDirAt fs.root dirs dir is_dir e in
              stored-Reads dirs name dir _ s e t (
                write_entry-IsStored now path dir name bytes mode fs (deref fs.root dir)
                  (child name (deref fs.root dir)) (find-deref fs.root dir (d, g)) refl r))
        ])
      ]

      below :
          (dirs : List Bytes) (name : Bytes) (o : Option Ptr)
          → split_last (split_path path) ≡ some (dirs, name)
          → enter_dirs fs.root dirs ≡ o
          → let r = found fs no_such_directory o λ dir. write_in now path dir name bytes mode fs in
            r.1 ≡ none → Reads r.0
      below dirs name none s e r = cc
      below dirs name (some dir) s e r = in_dir dirs name dir s e r

      last :
          (o : Option (List Bytes × Bytes))
          → split_last (split_path path) ≡ o
          → let r = found fs invalid_path o λ l.
            found fs no_such_directory
              (enter_dirs fs.root l.0)
              λ dir. write_in now path dir l.1 bytes mode fs in
            r.1 ≡ none → Reads r.0
      last none s r = cc
      last (some (dirs, name)) s r = below dirs name (enter_dirs fs.root dirs) s refl r
