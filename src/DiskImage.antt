-- ===== src/DiskImage.antt =====
-- mkfs of tools/mkfs.c: the files that are put into the file system on the RAM disk. The files of
-- the host are an argument; texts and names are lists of codes.
pub mod Contents
pub mod Expected
pub mod Made
pub mod Output
use egos_project.Prelude.{
  ℕ, zero, suc, ◌+◌, ◌*◌, ◌/◌, Bool, true, false, ltb, leb, ◌==◌, if◌then◌else◌, Option, none, some,
  List, [], ◌∷◌, length, get_or, Run, ok, undefined, assert, ◌>>=◌, ◌>>◌,
}
use egos_project.Earth.Disk.{block_size}
use egos_project.TreeDisk.Store.{Block, InodeStore}
use egos_project.TreeDisk.Create.{treedisk_create}
use egos_project.TreeDisk.Access.{treedisk_write}
use egos_project.TreeDisk.Files.{after_write}
use egos_project.Apps.Servers.{Bytes}

-- NINODES of library/file/inode.h
abbrev pub ninodes : ℕ
ninodes = 128

-- GRASS_EXEC_SIZE / GRASS_NEXEC
abbrev pub buf_size : ℕ
buf_size = 1024 * 1024 / 8

-- The words of a block of bytes, the lowest byte first.
unfoldable pub block_of : Bytes → Block
block_of b i =
    b (4 * i) + 0x100 * b (4 * i + 1) + 0x1_0000 * b (4 * i + 2) + 0x100_0000 * b (4 * i + 3)

-- The block `b` of the buffer.
abbrev pub block_in : Bytes → ℕ → Block
block_in buf b = block_of (λ i. buf (b * block_size + i))

-- strncpy(buf, contents[ino], BLOCK_SIZE), with zeros behind a shorter text
unfoldable pub copy_text : List ℕ → Bytes → Bytes
copy_text text buf i = if ltb i block_size then get_or text i 0 else buf i

-- The bytes of a file at the start of the buffer.
unfoldable pub read_file : List ℕ → Bytes → Bytes
read_file bytes buf i = if ltb i (length bytes) then get_or bytes i 0 else buf i

-- contents[ino][0] != '#'
abbrev pub is_text : List ℕ → Bool
is_text [] = true
is_text (c ∷ cs) = if c == 35 then false else true

abbrev pub file_name : List ℕ → List ℕ
file_name [] = []
file_name (c ∷ cs) = cs

abbrev pub nblocks_of : List ℕ → ℕ
nblocks_of bytes = (length bytes + 511) / block_size

module _ (below : InodeStore) (below_ino : ℕ) (host : List ℕ → List ℕ) where
  -- The loop over the blocks of a file, with `left` to go. A result of -1 is ignored.
  unfoldable pub write_blocks : (left b ino : ℕ) → Bytes → below.State → Run below.State
  write_blocks zero b ino buf s = ok s
  write_blocks (suc left) b ino buf s = do
    r ← treedisk_write below below_ino ino b (block_in buf b) s
    write_blocks left (b + 1) ino buf (after_write below below_ino r s)

  -- One round of the loop over the inodes; the buffer stays from round to round. A file that is
  -- larger than the buffer is read behind its end.
  unfoldable pub load_contents :
      (ino : ℕ) → List ℕ → Bytes → below.State → Run (Bytes × below.State)
  unfolding write_blocks
  load_contents ino entry buf s =
      if is_text entry
      then (do
        let buf' = copy_text entry buf
        r ← treedisk_write below below_ino ino 0 (block_of buf') s
        ok (buf', after_write below below_ino r s))
      else if leb (length (host (file_name entry))) buf_size
      then (do
        let buf' = read_file (host (file_name entry)) buf
        s' ← write_blocks (nblocks_of (host (file_name entry))) 0 ino buf' s
        ok (buf', s'))
      else undefined

  unfoldable pub load_all : (ino : ℕ) → List (List ℕ) → Bytes → below.State → Run below.State
  unfolding load_contents
  load_all ino [] buf s = ok s
  load_all ino (entry ∷ entries) buf s = do
    (buf', s') ← load_contents ino entry buf s
    load_all (ino + 1) entries buf' s'

  abbrev some_state : Option below.State → Bool
  some_state none = false
  some_state (some s) = true

  -- The superblock that treedisk_create starts from has what stood in memory.
  unfoldable pub mkfs :
      (contents : List (List ℕ)) (buf : Bytes) (old : Block) → below.State → Run below.State
  unfolding load_all
  mkfs contents buf old s = do
    made ← treedisk_create below below_ino ninodes old s
    assert (some_state made)
    load_all 0 contents buf (after_write below below_ino made s)
