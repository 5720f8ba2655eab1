-- ===== src/Apps/FileServer/Reads.antt =====
-- A client's file_read, through the messages and the server, is a read of the file system.
use egos_project.Prelude.{
  ℕ, ◌<◌, ◌≤◌, ◌≡◌, refl, arith, inl, inr, Bool, true, false, ltb, leb, Option, none, some, ok,
  ◌>>=◌, Run-cases,
}
use egos_project.TreeDisk.Store.{Block, InodeStore}
use egos_project.TreeDisk.Access.{treedisk_read}
use egos_project.Earth.Disk.{block_size}
use egos_project.Apps.Servers.{Bytes, copy_bytes, FileReply, file_read, file_query}
use egos_project.Apps.FileServer.{fs_root_inode, bytes_of, answer, file_service}

module _ (below : InodeStore) (below_ino : ℕ) (stale : Bytes) where
  abbrev pub Clients : Type 0
  Clients = Option FileReply × below.State

  -- The client's result for what the file system gives: whether it was found, and the buffer.
  abbrev pub received :
      (len : ℕ) (buf : Bytes) → below.State → Option Block → Bool × Bytes × Clients
  received len buf s none = (false, copy_bytes len stale buf, (none, s))
  received len buf s (some b) = (true, copy_bytes len (bytes_of b) buf, (none, s))

  -- For a file of the read-only file system and at most a block, file_read reads the block of the
  -- file and copies its bytes to the caller; it fails where the read fails, stops where the read
  -- stops, and leaves the disk and the server as they were.
  pub file_read-received :
      (ino offset len : ℕ) (buf unset : Bytes) (c : Clients)
      → ino < fs_root_inode
      → len ≤ block_size
      → file_read (file_service below below_ino stale) ino offset len buf unset c
        ≡ (treedisk_read below below_ino ino offset c.1 >>= λ r. ok (received len buf c.1 r))
  unfolding file_read file_query answer
  file_read-received ino offset len buf unset (w, s) known fits =
      let short : leb len block_size ≡ true = ground arith in
      let rofs : ltb ino fs_root_inode ≡ true = ground arith in
      elim (Run-cases (treedisk_read below below_ino ino offset s)) [
        | inl (none, e) ↦ rw (short, rofs, e) refl
        | inl (some b, e) ↦ rw (short, rofs, e) refl
        | inr (inl (why, e)) ↦ rw (short, rofs, e) refl
        | inr (inr e) ↦ rw (short, rofs, e) refl
      ]
