-- ===== src/DiskImage/Output.antt =====
-- main of tools/mkfs.c: the disk image as the bytes that are written to the output, one write after
-- the other. The files of the host are an argument; a write is taken whole.
pub mod Layout
use egos_project.Prelude.{
  ℕ, zero, suc, ◌+◌, ◌-◌, ◌*◌, ◌/◌, ◌<◌, ◌≤◌, ◌≡◌, refl, sym, ap, subst, inl, inr, Bool-cases, ◌∙◌,
  arith, true, false, ◌&&◌, ltb, leb, if◌then◌else◌, some, List, [], ◌∷◌, All, length, get_or,
  get_elem?, Run, ok, assert, ◌>>=◌, ◌>>◌,
}
use egos_project.Apps.Servers.{Bytes}
use egos_project.DiskImage.{buf_size, read_file}

-- RWFS_SIZE
abbrev pub rwfs_size : ℕ
rwfs_size = 512 * 2048

-- FS_DISK_SIZE
abbrev pub fs_disk_size : ℕ
fs_disk_size = 1024 * 1024 * 2

-- NKERNEL_PROC
abbrev pub nkernel_proc : ℕ
nkernel_proc = 6

-- GRASS_NEXEC
abbrev pub grass_nexec : ℕ
grass_nexec = 8

-- How many bytes have been written, and which.
pub record Output : Type 0 where
  pub written : ℕ
  pub bytes : Bytes

-- write(1, src, n)
unfoldable pub write_out : (n : ℕ) → Bytes → Output → Output
write_out n src out = record {
  written = out.written + n;
  bytes = λ i.
      if ltb i out.written
      then out.bytes i
      else if ltb i (out.written + n)
      then src (i - out.written)
      else out.bytes i;
}

abbrev zeros : Bytes
zeros i = 0

module _ (host : List ℕ → List ℕ) where
  -- `exec` is cleared before the file is read into it.
  abbrev pub exec_of : List ℕ → Bytes
  exec_of name = read_file (host name) zeros

  -- One round of the loop; `exec_size` is the size of the buffer of mkfs.
  unfoldable pub write_kernel : List ℕ → Output → Run Output
  write_kernel name out = do
    assert (ltb 0 (length (host name)) && leb (length (host name)) buf_size)
    let out' = write_out (length (host name)) (exec_of name) out
    ok (write_out (buf_size - length (host name)) (λ i. exec_of name (length (host name) + i)) out')

  unfoldable pub write_kernels : List (List ℕ) → Output → Run Output
  unfolding write_kernel
  write_kernels [] out = ok out
  write_kernels (name ∷ names) out = do out' ← write_kernel name out; write_kernels names out'

  -- The images of the two file systems are arguments.
  unfoldable pub write_image : (names : List (List ℕ)) (rwfs fs : Bytes) → Run Output
  unfolding write_out write_kernels
  write_image names rwfs fs = do
    let start : Output = record { written = 0; bytes = zeros }
    out ← write_kernels names (write_out rwfs_size rwfs start)
    let filled = write_out ((grass_nexec - nkernel_proc) * buf_size) zeros out
    ok (write_out fs_disk_size fs filled)
