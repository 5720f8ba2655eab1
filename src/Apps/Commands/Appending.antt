-- ===== src/Apps/Commands/Appending.antt =====
-- append over a file server that keeps the bytes of every file, and its effect on them.
use egos_project.Prelude.{
  ℕ, zero, suc, ◌+◌, ◌*◌, ◌<◌, ◌≤◌, ◌≡◌, ◌≢◌, true, List, [], ◌∷◌, ◌++◌, length, ok, if◌then◌else◌,
}
use egos_project.Grass.Process.{gpid_file}
use egos_project.Earth.Disk.{block_size}
use egos_project.Apps.Servers.{
  Bytes, file_write_op, file_getsize_op, FileRequest, FileReply, Service, query,
}

-- The first `n` bytes, as a list.
abbrev pub taken : (n : ℕ) → Bytes → List ℕ
taken zero bytes = []
taken (suc n) bytes = bytes 0 ∷ taken n (λ i. bytes (suc i))

abbrev pub first_word : Bytes → ℕ
first_word b = b 0 + 0x100 * b 1 + 0x1_0000 * b 2 + 0x100_0000 * b 3

-- A file server that keeps files: it tells the size of a file, and a write at the end of a file either
-- puts the bytes of the request behind it, or is refused. Nothing else changes. A size has 32 bits.
pub record FileStore (files : Service FileRequest FileReply) : Type 0 where
  pub contents : files.State → ℕ → List ℕ
  pub tells_size :
      (ino : ℕ) (unset : Bytes) (s : files.State)
      → length (contents s ino) < 0x1_0000_0000
      → (reply : FileReply) × (s1 : files.State) × (query files gpid_file
            (record { type = file_getsize_op; ino = ino; offset = 0; len = 4; block = unset })
            s
          ≡ ok (reply, s1))
        × (reply.status ≡ true)
        × (first_word reply.block ≡ length (contents s ino))
        × ((k : ℕ) → contents s1 k ≡ contents s k)
  pub writes_end :
      (ino len : ℕ) (block : Bytes) (s : files.State)
      → len ≤ block_size
      → (reply : FileReply) × (s1 : files.State) × (query files gpid_file
            (record {
              type = file_write_op;
              ino = ino;
              offset = length (contents s ino);
              len = len;
              block = block;
            })
            s
          ≡ ok (reply, s1))
        × (contents s1 ino
            ≡ (if reply.status then contents s ino ++ taken len block else contents s ino))
        × ((k : ℕ) → k ≢ ino → contents s1 k ≡ contents s k)
