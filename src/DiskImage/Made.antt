-- ===== src/DiskImage/Made.antt =====
-- mkfs makes a file system that holds its contents.
use egos_project.Prelude.{
  ℕ, zero, suc, ◌+◌, ◌*◌, ◌<◌, ◌≤◌, ◌≡◌, refl, ap, sym, ◌∙◌, Run-cases, inl, inr, arith, true,
  false, ltb, leb, List, [], ◌∷◌, ◌++◌, All, length, ok, Bool-cases, ◌>>=◌,
}
use egos_project.TreeDisk.Store.{Block, InodeStore, IsDisk}
use egos_project.TreeDisk.Layout.{u32_mod, n_inodeblocks_word}
use egos_project.TreeDisk.Access.{treedisk_read, treedisk_write}
use egos_project.TreeDisk.Files.{FilePut, put_all, after_write}
use egos_project.TreeDisk.Files.View.{Writes, empty_view, view_all, treedisk_create-view_all}
use egos_project.Apps.Servers.{Bytes}
use egos_project.DiskImage.{
  ninodes, buf_size, block_of, block_in, copy_text, read_file, is_text, file_name, nblocks_of,
  write_blocks, load_contents, load_all, mkfs,
}
use egos_project.DiskImage.Contents.{
  block_puts, buf_after, entry_puts, all_puts, written_view, Fits, all-view,
}
use egos_project.DiskImage.Expected.{
  reach_of, blocks_of, expected, written_view-expected, length-all_puts, entries-Fits,
}

module _ (below : InodeStore) (ino : ℕ) (host : List ℕ → List ℕ) where
  put_all-append :
      (ps qs : List FilePut) (s : below.State)
      → put_all below ino (ps ++ qs) s ≡ (put_all below ino ps s >>= λ s'. put_all below ino qs s')
  unfolding put_all
  put_all-append [] qs s = refl
  put_all-append (p ∷ ps) qs s =
      elim (Run-cases (treedisk_write below ino p.inode_no p.offset p.block s)) [
        | inl (r, e) ↦ rw e (put_all-append ps qs (after_write below ino r s))
        | inr (inl (why, e)) ↦ rw e refl
        | inr (inr e) ↦ rw e refl
      ]

  write_blocks-put_all :
      (left b k : ℕ) (buf : Bytes) (s : below.State)
      → write_blocks below ino host left b k buf s ≡ put_all below ino (block_puts left b k buf) s
  unfolding write_blocks put_all
  write_blocks-put_all zero b k buf s = refl
  write_blocks-put_all (suc left) b k buf s =
      elim (Run-cases (treedisk_write below ino k b (block_in buf b) s)) [
        | inl (r, e) ↦ rw e (write_blocks-put_all left (b + 1) k buf (after_write below ino r s))
        | inr (inl (why, e)) ↦ rw e refl
        | inr (inr e) ↦ rw e refl
      ]

  -- A round of the loop makes the writes of its entry.
  load_contents-put_all :
      (k : ℕ) (entry : List ℕ) (buf : Bytes) (s : below.State)
      → Fits host entry
      → load_contents below ino host k entry buf s ≡ (
          put_all below ino (entry_puts host k entry buf) s >>= λ s'.
          ok (buf_after host entry buf, s'))
  unfolding load_contents put_all
  load_contents-put_all k entry buf s fits = elim (Bool-cases (is_text entry)) [
    | inl text ↦
        elim (Run-cases (treedisk_write below ino k 0 (block_of (copy_text entry buf)) s)) [
          | inl (r, e) ↦ rw (text, e) refl
          | inr (inl (why, e)) ↦ rw (text, e) refl
          | inr (inr e) ↦ rw (text, e) refl
        ]
    | inr file ↦
        let small : leb (length (host (file_name entry))) buf_size ≡ true = elim fits [
          | inl text ↦ absurd (true_false (sym text ∙ file))
          | inr l ↦ ground arith
        ] in
        rw
          (
            file,
            small,
            write_blocks-put_all (nblocks_of (host (file_name entry))) 0 k
                (read_file (host (file_name entry)) buf) s,
          )
          refl
  ]
    where
      true_false : true ≡ false → ⊥
      true_false e = cc

  load_all-put_all :
      (k : ℕ) (entries : List (List ℕ)) (buf : Bytes) (s : below.State)
      → All (Fits host) entries
      → load_all below ino host k entries buf s ≡ put_all below ino (all_puts host k entries buf) s
  unfolding load_all put_all
  load_all-put_all k [] buf s fits = refl
  load_all-put_all k (entry ∷ entries) buf s (fit, fits) =
      let both =
        put_all-append (entry_puts host k entry buf)
          (all_puts host (k + 1) entries (buf_after host entry buf)) s in
      let first = load_contents-put_all k entry buf s fit in
      elim (Run-cases (put_all below ino (entry_puts host k entry buf) s)) [
        | inl (s', e) ↦
            rw (first, both, e)
              (load_all-put_all (k + 1) entries (buf_after host entry buf) s' fits)
        | inr (inl (why, e)) ↦ rw (first, both, e) refl
        | inr (inr e) ↦ rw (first, both, e) refl
      ]

-- The writes are to the files of the entries.
blocks-Writes :
    (left b ino bound : ℕ) (buf : Bytes)
    → ino < bound
    → b + left + 1 < u32_mod
    → Writes bound (block_puts left b ino buf)
blocks-Writes zero b ino bound buf h l = tt
blocks-Writes (suc left) b ino bound buf h l =
    ((h, omega arith), blocks-Writes left (b + 1) ino bound buf h (omega arith))

Writes-append :
    (bound : ℕ) (ps qs : List FilePut) → Writes bound ps → Writes bound qs → Writes bound (ps ++ qs)
Writes-append bound [] qs h k = k
Writes-append bound (p ∷ ps) qs (e, h) k = (e, Writes-append bound ps qs h k)

puts-Writes :
    (host : List ℕ → List ℕ) (ino bound : ℕ) (entries : List (List ℕ)) (buf : Bytes)
    → ino + length entries ≤ bound
    → All (Fits host) entries
    → Writes bound (all_puts host ino entries buf)
puts-Writes host ino bound [] buf h fits = tt
puts-Writes host ino bound (entry ∷ entries) buf h (fit, fits) =
    Writes-append bound (entry_puts host ino entry buf)
      (all_puts host (ino + 1) entries (buf_after host entry buf))
      (elim (Bool-cases (is_text entry)) [
        | inl text ↦ rw text ((omega arith, omega arith), tt)
        | inr file ↦
            let l : length (host (file_name entry)) ≤ buf_size = elim fit [
              | inl text ↦ absurd (true_false (sym text ∙ file))
              | inr l ↦ l
            ] in
            rw file (
              blocks-Writes (nblocks_of (host (file_name entry))) 0 ino bound
                (read_file (host (file_name entry)) buf) (omega arith) (omega arith))
      ])
      (puts-Writes host (ino + 1) bound entries (buf_after host entry buf) (omega arith) fits)
  where
    true_false : true ≡ false → ⊥
    true_false e = cc

-- On a disk that holds no file system, with at most 128 entries whose files fit into the buffer,
-- and eleven blocks of the disk for each block of a file, mkfs returns. A read of a file then
-- gives, for each block that its entry reaches, the text with zeros behind it, or the bytes of
-- the host's file, and behind the end of that file what the last earlier entry left in the
-- buffer; reads behind that and of other files give -1.
pub mkfs-expected :
    (below : InodeStore) (ino : ℕ) (disk : IsDisk below ino) (size : ℕ) (host : List ℕ → List ℕ)
    (contents : List (List ℕ)) (buf : Bytes) (old : Block) (s : below.State)
    → below.getsize ino s ≡ size
    → disk.content s 0 n_inodeblocks_word ≡ 0
    → length contents ≤ 128
    → All (λ entry. reach_of host entry ≤ 131072) contents
    → 4 + 11 * blocks_of host contents ≤ size
    → (after : below.State) × (mkfs below ino host contents buf old s ≡ ok after)
      × ((k o : ℕ)
          → k < 128
          → o < u32_mod
          → treedisk_read below ino k o after ≡ ok (expected host contents buf k o))
unfolding mkfs
mkfs-expected below ino disk size host contents buf old s e blank few reaches room =
    let puts = all_puts host 0 contents buf in
    let fits = entries-Fits host contents reaches in
    let count = length-all_puts host 0 contents buf in
    let (made, after, created, written, reads) =
      treedisk_create-view_all below ino disk size ninodes old s puts e blank (omega arith)
        (omega (arith, count)) (puts-Writes host 0 ninodes contents buf (omega arith) fits) in
    (
      after,
      rw (created, load_all-put_all below ino host 0 contents buf made fits) written,
      λ k o hk ho.
          let not_before : ltb k 0 ≡ false = ground arith in
          let shown : view_all puts empty_view k o ≡ written_view host 0 contents buf k o =
            rw not_before at (all-view host 0 contents buf empty_view (λ k' o' h. refl) k o) in
          reads k o hk ho ∙ ap ok (shown ∙ written_view-expected host 0 [] contents buf k o),
    )
