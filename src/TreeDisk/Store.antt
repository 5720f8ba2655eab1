-- ===== src/TreeDisk/Store.antt =====
-- library/file/inode.h: the interface of an inode store, and the RAM disk of tools/mkfs.c, over
-- which file systems are made. A block is its 128 words of 32 bits, as a function of the index.
use egos_project.Prelude.{ℕ, ◌<◌, ◌≡◌, ◌==◌, if◌then◌else◌, Option, some, Run, ok}

abbrev pub Block : Type 0
Block = ℕ → ℕ

-- The functions of `inode_store`; `none` stands for a negative result. `setsize` is never called.
pub record InodeStore : Type 1 where
  pub State : Type 0
  pub getsize : ℕ → State → ℕ
  pub read : (ino offset : ℕ) → State → Run (Option Block)
  pub write : (ino offset : ℕ) → Block → State → Run (Option State)

-- What a store promises that keeps what is written and does not fail inside its size.
pub record IsDisk (below : InodeStore) (ino : ℕ) : Type 1 where
  pub content : below.State → ℕ → Block
  pub put : ℕ → Block → below.State → below.State
  pub read_law :
      (n : ℕ) (s : below.State)
      → n < below.getsize ino s
      → below.read ino n s ≡ ok (some (content s n))
  pub write_law :
      (n : ℕ) (b : Block) (s : below.State)
      → n < below.getsize ino s
      → below.write ino n b s ≡ ok (some (put n b s))
  pub content_law :
      (n : ℕ) (b : Block) (s : below.State) (m : ℕ)
      → content (put n b s) m ≡ (if n == m then b else content s m)
  pub size_law :
      (n : ℕ) (b : Block) (s : below.State) → below.getsize ino (put n b s) ≡ below.getsize ino s
