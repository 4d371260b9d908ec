-- ===== src/Vfs/MkdirUp.antt =====
-- `..` after a directory that exists, in `Mkdir` and in the walks of the other methods.
use honeypot_go.Base.{ℕ, ◌≡◌, refl, true, false, some, List, [], ◌∷◌, ◌++◌, Bytes, codes, inl, same}
use honeypot_go.Vfs.Tree.{Node, meta, child, deref}
use honeypot_go.Vfs.Walk.{Cursor, push, is_here, is_up, enter_step, steps}
use honeypot_go.Vfs.State.{FileSystem}
use honeypot_go.Vfs.Write.{mkdir_step, mkdir_loop}

module _ (seg : Bytes) (n : Node) (c : Cursor) (fs : FileSystem) (name_here : is_here seg ≡ false)
    (name_up : is_up seg ≡ false) (there : child seg (deref fs.root c.dir) ≡ some n)
    (dir : (meta n).is_dir ≡ true) where
  -- In the loop of Mkdir the segments "seg/..", where seg is a directory that exists, end in seg: the
  -- loop goes on below seg. In the loop that the other methods walk by they end where they began.
  pub mkdir_loop-up :
      (now : ℕ) (rest : List Bytes)
      → (mkdir_loop now (seg ∷ codes ".." ∷ rest) c fs
          ≡ mkdir_loop now rest (record { dir = c.dir ++ seg ∷ []; stack = c.stack }) fs)
        × (steps (enter_step fs.root) (seg ∷ codes ".." ∷ rest) c
            ≡ steps (enter_step fs.root) rest c)
  unfolding mkdir_loop steps same enter_step
  mkdir_loop-up now rest = (rw (in_mkdir now) refl, rw in_walk refl)
    where
      in_mkdir :
          (now : ℕ)
          → mkdir_step now seg c fs
            ≡ (fs, inl (record { dir = c.dir ++ seg ∷ []; stack = (c.dir ++ seg ∷ []) ∷ c.stack }))
      in_mkdir now = unfold mkdir_step in rw (name_here, name_up, there, dir)

      in_walk : enter_step fs.root seg c ≡ some (push seg c)
      in_walk = unfold enter_step in rw (name_here, name_up, there, dir)
