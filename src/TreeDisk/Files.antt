-- ===== src/TreeDisk/Files.antt =====
-- Writes to several files one after the other, as tools/mkfs.c makes them: a result of -1 is ignored.
pub mod View
use egos_project.Prelude.{ℕ, Option, none, some, List, [], ◌∷◌, Run, ok, ◌>>=◌}
use egos_project.TreeDisk.Store.{Block, InodeStore}
use egos_project.TreeDisk.Access.{treedisk_write}

-- A write of a block of a file.
pub record FilePut : Type 0 where
  pub inode_no : ℕ
  pub offset : ℕ
  pub block : Block

module _ (below : InodeStore) (below_ino : ℕ) where
  -- A write that gives -1 has changed nothing.
  abbrev pub after_write : Option below.State → below.State → below.State
  after_write none s = s
  after_write (some s') s = s'

  unfoldable pub put_all : List FilePut → below.State → Run below.State
  put_all [] s = ok s
  put_all (p ∷ ps) s = do
    r ← treedisk_write below below_ino p.inode_no p.offset p.block s
    put_all ps (after_write r s)
