-- ===== src/DiskImage/Expected.antt =====
-- What the files of mkfs are to hold, from the entries and the files of the host alone.
use egos_project.Prelude.{
  ℕ, zero, suc, ◌+◌, ◌-◌, ◌*◌, ◌++◌, All, true, false, ◌/◌, ◌≤◌, ◌≡◌, refl, ap, ◌∙◌, inl, inr,
  arith, Bool-cases, ltb, ◌==◌, if◌then◌else◌, none, some, List, [], ◌∷◌, length, get_or,
}
use egos_project.Earth.Disk.{block_size}
use egos_project.TreeDisk.Store.{Block}
use egos_project.TreeDisk.Files.{FilePut}
use egos_project.TreeDisk.Files.View.{View}
use egos_project.Apps.Servers.{Bytes}
use egos_project.DiskImage.{buf_size, block_of, block_in, copy_text, read_file, is_text, nblocks_of}
use egos_project.DiskImage.Contents.{
  buf_after, entry_block, block_puts, entry_puts, written_view, all_puts, Fits,
}

-- '#'
abbrev pub hash : ℕ
hash = 35

-- The words from the byte `p` on, the lowest byte first.
abbrev pub words_from : (p : ℕ) → Bytes → Block
words_from p bytes j =
    bytes (p + 4 * j)
    + 0x100 * bytes (p + (4 * j + 1))
    + 0x1_0000 * bytes (p + (4 * j + 2))
    + 0x100_0000 * bytes (p + (4 * j + 3))

module _ (host : List ℕ → List ℕ) where
  -- An entry with a # in front names a file of the host; any other is itself the text.
  abbrev pub data_of : List ℕ → List ℕ
  data_of [] = []
  data_of (c ∷ cs) = if c == hash then host cs else c ∷ cs

  -- How far an entry fills the buffer: a text is padded to a block.
  abbrev pub reach_of : List ℕ → ℕ
  reach_of [] = block_size
  reach_of (c ∷ cs) = if c == hash then length (host cs) else block_size

  -- The byte `p` of the buffer is that of the last entry that reaches it, of `entries` from the last
  -- to the first.
  abbrev pub byte_of : (entries : List (List ℕ)) → Bytes → Bytes
  byte_of [] buf p = buf p
  byte_of (entry ∷ earlier) buf p =
      if ltb p (reach_of entry) then get_or (data_of entry) p 0 else byte_of earlier buf p

  -- The block `o` of the file `k` exists if the file's entry reaches it, and holds the bytes of the
  -- buffer there.
  abbrev pub expected_from : (ino : ℕ) (earlier entries : List (List ℕ)) → Bytes → View
  expected_from ino earlier [] buf k o = none
  expected_from ino earlier (entry ∷ entries) buf k o =
      if k == ino
      then (if ltb (o * block_size) (reach_of entry)
          then some (words_from (o * block_size) (byte_of (entry ∷ earlier) buf))
          else none)
      else expected_from (ino + 1) (entry ∷ earlier) entries buf k o

  abbrev pub expected : (entries : List (List ℕ)) → Bytes → View
  expected entries buf = expected_from 0 [] entries buf

  -- The blocks of all the files.
  abbrev pub blocks_of : List (List ℕ) → ℕ
  blocks_of [] = 0
  blocks_of (entry ∷ entries) = (reach_of entry + (block_size - 1)) / block_size + blocks_of entries

  -- An entry leaves the bytes that are to stand in the buffer.
  buf_after-byte :
      (entry : List ℕ) (earlier : List (List ℕ)) (buf : Bytes) (p : ℕ)
      → buf_after host entry (byte_of earlier buf) p ≡ byte_of (entry ∷ earlier) buf p
  unfolding copy_text read_file
  buf_after-byte [] earlier buf p = refl
  buf_after-byte (c ∷ cs) earlier buf p = elim (Bool-cases (c == hash)) [
    | inl file ↦ rw (buf_after, is_text, file) refl
    | inr text ↦ rw (buf_after, is_text, text) refl
  ]

  words_ext : (p q : ℕ) (bytes : Bytes) → p ≡ q → words_from p bytes ≡ words_from q bytes
  words_ext p q bytes e = ap (λ n. words_from n bytes) e

  words-block_in : (buf : Bytes) (o : ℕ) → block_in buf o ≡ words_from (o * block_size) buf
  unfolding block_of
  words-block_in buf o = refl

  words-block_of : (buf : Bytes) (j : ℕ) → block_of buf j ≡ words_from 0 buf j
  unfolding block_of
  words-block_of buf j =
      let e0 : 0 + 4 * j ≡ 4 * j = omega arith in
      let e1 : 0 + (4 * j + 1) ≡ 4 * j + 1 = omega arith in
      let e2 : 0 + (4 * j + 2) ≡ 4 * j + 2 = omega arith in
      let e3 : 0 + (4 * j + 3) ≡ 4 * j + 3 = omega arith in rw (e0, e1, e2, e3) refl

  -- A text fills one block.
  text-words :
      (buf : Bytes) (o : ℕ)
      → (if ltb o 1 then some (block_of buf) else none)
        ≡ (if ltb (o * block_size) block_size then some (words_from (o * block_size) buf) else none)
  text-words buf zero = ap some (λ i j. words-block_of buf j i)
  text-words buf (suc o) =
      let behind : ltb (suc o) 1 ≡ false = ground arith in
      let out : ltb (suc o * block_size) block_size ≡ false = ground arith in rw (behind, out) refl

  file-words :
      (bytes : List ℕ) (buf : Bytes) (o : ℕ)
      → (if ltb o (nblocks_of bytes) then some (block_in buf o) else none) ≡ (
          if ltb (o * block_size) (length bytes)
          then some (words_from (o * block_size) buf)
          else none)
  file-words bytes buf o = elim (Bool-cases (ltb (o * block_size) (length bytes))) [
    | inl inside ↦
        let before : ltb o (nblocks_of bytes) ≡ true = ground arith in
        rw (before, inside) (ap some (words-block_in buf o))
    | inr out ↦
        let behind : ltb o (nblocks_of bytes) ≡ false = ground arith in rw (behind, out) refl
  ]

  entry_block-words :
      (entry : List ℕ) (buf : Bytes) (o : ℕ)
      → entry_block host entry buf o ≡ (
          if ltb (o * block_size) (reach_of entry)
          then some (words_from (o * block_size) (buf_after host entry buf))
          else none)
  entry_block-words [] buf o = text-words (copy_text [] buf) o
  entry_block-words (c ∷ cs) buf o = elim (Bool-cases (c == hash)) [
    | inl file ↦
        rw (entry_block, buf_after, file) (file-words (host cs) (read_file (host cs) buf) o)
    | inr text ↦ rw (entry_block, buf_after, text) (text-words (copy_text (c ∷ cs) buf) o)
  ]

  pub written_view-expected :
      (ino : ℕ) (earlier entries : List (List ℕ)) (buf : Bytes) (k o : ℕ)
      → written_view host ino entries (byte_of earlier buf) k o
        ≡ expected_from ino earlier entries buf k o
  written_view-expected ino earlier [] buf k o = refl
  written_view-expected ino earlier (entry ∷ entries) buf k o =
      let left : buf_after host entry (byte_of earlier buf) ≡ byte_of (entry ∷ earlier) buf =
        λ i p. buf_after-byte entry earlier buf p i in
      elim (Bool-cases (k == ino)) [
        | inl here ↦
            rw (written_view, here, ← left) (entry_block-words entry (byte_of earlier buf) o)
        | inr other ↦
            rw (written_view, other, left)
              (written_view-expected (ino + 1) (entry ∷ earlier) entries buf k o)
      ]

length-append_puts : (ps qs : List FilePut) → length (ps ++ qs) ≡ length ps + length qs
length-append_puts [] qs = omega arith
length-append_puts (p ∷ ps) qs = omega (arith, length-append_puts ps qs)

length-block_puts : (left b ino : ℕ) (buf : Bytes) → length (block_puts left b ino buf) ≡ left
length-block_puts zero b ino buf = refl
length-block_puts (suc left) b ino buf = ap suc (length-block_puts left (b + 1) ino buf)

module _ (host : List ℕ → List ℕ) where
  length-entry_puts :
      (ino : ℕ) (entry : List ℕ) (buf : Bytes)
      → length (entry_puts host ino entry buf)
        ≡ (reach_of host entry + (block_size - 1)) / block_size
  length-entry_puts ino [] buf = refl
  length-entry_puts ino (c ∷ cs) buf = elim (Bool-cases (c == hash)) [
    | inl file ↦
        rw (entry_puts, file)
          (length-block_puts (nblocks_of (host cs)) 0 ino (read_file (host cs) buf))
    | inr text ↦ rw (entry_puts, text) refl
  ]

  -- As many blocks are written as the files have.
  pub length-all_puts :
      (ino : ℕ) (entries : List (List ℕ)) (buf : Bytes)
      → length (all_puts host ino entries buf) ≡ blocks_of host entries
  length-all_puts ino [] buf = refl
  length-all_puts ino (entry ∷ entries) buf =
      length-append_puts (entry_puts host ino entry buf)
        (all_puts host (ino + 1) entries (buf_after host entry buf))
      ∙ ap (λ n. n + length (all_puts host (ino + 1) entries (buf_after host entry buf)))
          (length-entry_puts ino entry buf)
      ∙ ap (λ n. (reach_of host entry + (block_size - 1)) / block_size + n)
          (length-all_puts (ino + 1) entries (buf_after host entry buf))

  reach-Fits : (entry : List ℕ) → reach_of host entry ≤ buf_size → Fits host entry
  reach-Fits [] h = inl refl
  reach-Fits (c ∷ cs) h = elim (Bool-cases (c == hash)) [
    | inl file ↦ inr (rw file at h)
    | inr text ↦ inl (rw text refl)
  ]

  pub entries-Fits :
      (entries : List (List ℕ))
      → All (λ entry. reach_of host entry ≤ buf_size) entries
      → All (Fits host) entries
  entries-Fits [] h = tt
  entries-Fits (entry ∷ entries) (h, hs) = (reach-Fits entry h, entries-Fits entries hs)
