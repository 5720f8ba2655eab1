-- ===== src/DiskImage/Output/Layout.antt =====
-- Where the bytes of the image come from.
use egos_project.Prelude.{
  ℕ, zero, suc, ◌+◌, ◌-◌, ◌*◌, ◌<◌, ◌≤◌, ◌≡◌, refl, ap, subst, inl, inr, Bool-cases, ◌∙◌, arith,
  true, false, ◌&&◌, ltb, leb, some, List, [], ◌∷◌, All, length, get_or, get_elem?, ok,
}
use egos_project.Earth.Disk.{block_size}
use egos_project.TreeDisk.Device.{grass_fs_start}
use egos_project.Apps.ProcServer.{exec_start}
use egos_project.Apps.Servers.{Bytes}
use egos_project.DiskImage.{buf_size, read_file}
use egos_project.DiskImage.Output.{
  rwfs_size, fs_disk_size, nkernel_proc, grass_nexec, Output, write_out, zeros, exec_of,
  write_kernel, write_kernels, write_image,
}

in_range :
    (names : List (List ℕ)) (k : ℕ) {name : List ℕ}
    → get_elem? names k ≡ some name
    → k < length names
in_range [] k e = cc
in_range (x ∷ names) zero e = omega arith
in_range (x ∷ names) (suc k) e = omega (arith, in_range names k e)

-- A write changes no byte before it.
write_out-before :
    (n : ℕ) (src : Bytes) (out : Output) (i : ℕ)
    → i < out.written
    → (write_out n src out).bytes i ≡ out.bytes i
unfolding write_out
write_out-before n src out i h = ground arith

-- What is written is found behind what was there.
write_out-behind :
    (n : ℕ) (src : Bytes) (out : Output) (i j : ℕ)
    → j ≡ out.written + i
    → i < n
    → (write_out n src out).bytes j ≡ src i
unfolding write_out
write_out-behind n src out i j at h =
    let back : j - out.written ≡ i = omega arith in
    let late : ltb j out.written ≡ false = ground arith in
    let early : ltb j (out.written + n) ≡ true = ground arith in rw (late, early, back) refl

get_or-behind : (xs : List ℕ) (i : ℕ) → length xs ≤ i → get_or xs i 0 ≡ 0
get_or-behind [] i h = refl
get_or-behind (x ∷ xs) zero h = elim h [ ]
get_or-behind (x ∷ xs) (suc i) h = get_or-behind xs i (omega arith)

module _ (host : List ℕ → List ℕ) where
  -- A file of the kernel in its slot: its bytes, and zeros.
  exec_of-file : (name : List ℕ) (i : ℕ) → exec_of host name i ≡ get_or (host name) i 0
  unfolding read_file
  exec_of-file name i = elim (Bool-cases (ltb i (length (host name)))) [
    | inl inside ↦ rw inside refl
    | inr behind ↦ rw (behind, get_or-behind (host name) i (ground arith)) refl
  ]

  abbrev pub FitsSlot : List ℕ → Type 0
  FitsSlot name = (0 < length (host name)) × (length (host name) ≤ buf_size)

  -- What is written stays, and what is behind it comes from the file.
  record Slot (name : List ℕ) (out : Output) : Type 0 where
    after : Output
    result : write_kernel host name out ≡ ok after
    written : after.written ≡ out.written + buf_size
    before : (i : ℕ) → i < out.written → after.bytes i ≡ out.bytes i
    behind : (i : ℕ) → i < buf_size → after.bytes (out.written + i) ≡ exec_of host name i

  write_kernel-Slot : (name : List ℕ) (out : Output) → FitsSlot name → Slot name out
  unfolding write_kernel write_out
  write_kernel-Slot name out (some_bytes, fits) =
      let size = length (host name) in
      let w = out.written in
      let fine : (ltb 0 size && leb size buf_size) ≡ true = ground arith in
      let exec = exec_of host name in
      let rest : Bytes = λ i. exec (size + i) in
      let first = write_out size exec out in
      record {
        after = write_out (buf_size - size) rest first;
        result = rw fine refl;
        written = omega arith;
        before = λ i h.
            write_out-before _ rest first i (omega arith) ∙ write_out-before size exec out i h;
        behind = λ i h. elim (Bool-cases (ltb i size)) [
          | inl in_file ↦
              write_out-before _ rest first _ (ground arith)
              ∙ write_out-behind size exec out i _ refl (ground arith)
          | inr padding ↦
              let back : size + (i - size) ≡ i = ground arith in
              write_out-behind (buf_size - size) rest first (i - size) _ (ground arith)
                (ground arith)
              ∙ ap exec back
        ];
      }

  -- The same of several files.
  record Slots (names : List (List ℕ)) (out : Output) : Type 0 where
    after : Output
    result : write_kernels host names out ≡ ok after
    written : after.written ≡ out.written + length names * buf_size
    before : (i : ℕ) → i < out.written → after.bytes i ≡ out.bytes i
    behind :
        (k i : ℕ) {name : List ℕ}
        → get_elem? names k ≡ some name
        → i < buf_size
        → after.bytes (out.written + (k * buf_size + i)) ≡ exec_of host name i

  write_kernels-Slots :
      (names : List (List ℕ)) (out : Output) → All FitsSlot names → Slots names out
  unfolding write_kernels
  write_kernels-Slots [] out fits = record {
    after = out;
    result = refl;
    written = omega arith;
    before = λ i h. refl;
    behind = λ k i e h. cc;
  }
  write_kernels-Slots (name ∷ names) out (fit, fits) =
      let s = write_kernel-Slot name out fit in
      let r = write_kernels-Slots names s.after fits in
      record {
        after = r.after;
        result = rw (s.result, r.result) refl;
        written = omega (arith, s.written, r.written);
        before = λ i h. r.before i (omega (arith, s.written)) ∙ s.before i h;
        behind = at s r;
      }
    where
      at :
          (s : Slot name out) (r : Slots names s.after) (k i : ℕ) {name' : List ℕ}
          → get_elem? (name ∷ names) k ≡ some name'
          → i < buf_size
          → r.after.bytes (out.written + (k * buf_size + i)) ≡ exec_of host name' i
      at s r zero i {name' = name'} e h =
          let zeroth : out.written + (0 * buf_size + i) ≡ out.written + i = omega arith in
          let same : name ≡ name' = cc in
          ap r.after.bytes zeroth
          ∙ r.before (out.written + i) (omega (arith, s.written))
          ∙ s.behind i h
          ∙ ap (λ n. exec_of host n i) same
      at s r (suc k) i e h =
          let here : out.written + (suc k * buf_size + i) ≡ s.after.written + (k * buf_size + i) =
            omega (arith, s.written) in
          ap r.after.bytes here ∙ r.behind k i e h

  -- The image: the file system that is written, the files of the kernel, each on the blocks that it is
  -- loaded from, a gap of zeros and the file system of directories.
  pub record IsDiskImage (names : List (List ℕ)) (rwfs fs : Bytes) (image : Output) : Type 0 where
    size : image.written ≡ 4 * (1024 * 1024)
    first : (i : ℕ) → i < rwfs_size → image.bytes i ≡ rwfs i
    kernels :
        (k i : ℕ) {name : List ℕ}
        → get_elem? names k ≡ some name
        → i < buf_size
        → image.bytes (exec_start k * block_size + i) ≡ get_or (host name) i 0
    gap :
        (i : ℕ)
        → exec_start nkernel_proc * block_size ≤ i
        → i < grass_fs_start * block_size
        → image.bytes i ≡ 0
    files : (i : ℕ) → i < fs_disk_size → image.bytes (grass_fs_start * block_size + i) ≡ fs i

  -- If the host has the six files of the kernel, each with a byte at least and none longer than
  -- its slot, then the output of mkfs holds four megabytes: the image of the read-write file
  -- system first; each file, padded with zeros, from the block on that the process server loads
  -- it from; zeros from there to the start of the file system on the disk; and there the image
  -- of the file system.
  pub write_image-IsDiskImage :
      (names : List (List ℕ)) (rwfs fs : Bytes)
      → length names ≡ nkernel_proc
      → All FitsSlot names
      → (image : Output) × (write_image host names rwfs fs ≡ ok image)
        × IsDiskImage names rwfs fs image
  unfolding write_image write_out
  write_image-IsDiskImage names rwfs fs six fits =
      let start = write_out rwfs_size rwfs (record { written = 0; bytes = zeros }) in
      let r = write_kernels-Slots names start fits in
      let six_slots : length names * buf_size ≡ 786432 = rw six refl in
      let at : r.after.written ≡ 1835008 = omega (arith, r.written, six_slots) in
      let filled = write_out ((grass_nexec - nkernel_proc) * buf_size) zeros r.after in
      let size_filled : filled.written ≡ 2097152 = omega (arith, at) in
      (
        write_out fs_disk_size fs filled,
        rw r.result refl,
        record {
          size = omega (arith, at);
          first = λ i h.
              write_out-before fs_disk_size fs filled i (omega (arith, size_filled))
              ∙ write_out-before _ zeros r.after i (omega (arith, at))
              ∙ r.before i (omega arith)
              ∙ write_out-behind rwfs_size rwfs (record { written = 0; bytes = zeros }) i i
                  (omega arith) h;
          kernels = λ k i {name = file} e h.
              let small : k < nkernel_proc = subst (λ n. k < n) six (in_range names k e) in
              let here : exec_start k * block_size + i ≡ start.written + (k * buf_size + i) =
                omega arith in
              ap (write_out fs_disk_size fs filled).bytes here
              ∙ write_out-before fs_disk_size fs filled _ (omega (arith, size_filled, small))
              ∙ write_out-before _ zeros r.after _ (omega (arith, at, small))
              ∙ r.behind k i e h
              ∙ exec_of-file file i;
          gap = λ i l h.
              write_out-before fs_disk_size fs filled i (omega (arith, size_filled))
              ∙ write_out-behind _ zeros r.after (i - 1835008) i (omega (arith, at)) (omega arith);
          files = λ i h. write_out-behind fs_disk_size fs filled i _ (omega (arith, size_filled)) h;
        },
      )
