-- ===== src/DiskImage/Contents.antt =====
-- What the writes of mkfs leave in the file system, block by block.
use egos_project.Prelude.{
  ℕ, zero, suc, ◌+◌, ◌≤◌, ◌≡◌, ◌≢◌, refl, ap, subst, ◌∙◌, ◌⊎◌, inl, inr, arith, true, false, ltb,
  ◌==◌, if◌then◌else◌, Option, none, some, List, [], ◌∷◌, ◌++◌, length, Bool-cases,
}
use egos_project.TreeDisk.Store.{Block}
use egos_project.TreeDisk.Files.{FilePut}
use egos_project.TreeDisk.Files.View.{View, put_view, view_all}
use egos_project.Apps.Servers.{Bytes}
use egos_project.DiskImage.{
  buf_size, block_of, block_in, copy_text, read_file, is_text, file_name, nblocks_of,
}

-- The writes of the loop over the blocks of a file.
abbrev pub block_puts : (left b ino : ℕ) → Bytes → List FilePut
block_puts zero b ino buf = []
block_puts (suc left) b ino buf =
    record { inode_no = ino; offset = b; block = block_in buf b } ∷ block_puts left (b + 1) ino buf

module _ (host : List ℕ → List ℕ) where
  -- The buffer that an entry leaves, and its writes.
  abbrev pub buf_after : List ℕ → Bytes → Bytes
  buf_after entry buf =
      if is_text entry then copy_text entry buf else read_file (host (file_name entry)) buf

  abbrev pub entry_puts : (ino : ℕ) → List ℕ → Bytes → List FilePut
  entry_puts ino entry buf =
      if is_text entry
      then record { inode_no = ino; offset = 0; block = block_of (copy_text entry buf) } ∷ []
      else block_puts (nblocks_of (host (file_name entry))) 0 ino
          (read_file (host (file_name entry)) buf)

  abbrev pub all_puts : (ino : ℕ) → List (List ℕ) → Bytes → List FilePut
  all_puts ino [] buf = []
  all_puts ino (entry ∷ entries) buf =
      entry_puts ino entry buf ++ all_puts (ino + 1) entries (buf_after entry buf)

  -- What the file of an entry holds: a text in its first block, and each block of a file of the
  -- host, with what stood in the buffer behind the end of the file.
  abbrev pub entry_block : List ℕ → Bytes → (o : ℕ) → Option Block
  entry_block entry buf o =
      if is_text entry
      then (if ltb o 1 then some (block_of (copy_text entry buf)) else none)
      else if ltb o (nblocks_of (host (file_name entry)))
      then some (block_in (read_file (host (file_name entry)) buf) o)
      else none

  abbrev pub written_view : (ino : ℕ) → List (List ℕ) → Bytes → View
  written_view ino [] buf k o = none
  written_view ino (entry ∷ entries) buf k o =
      if k == ino
      then entry_block entry buf o
      else written_view (ino + 1) entries (buf_after entry buf) k o

  -- A text, or a file of the host that fits into the buffer.
  abbrev pub Fits : List ℕ → Type 0
  Fits entry = (is_text entry ≡ true) ⊎ (length (host (file_name entry)) ≤ buf_size)

view_all-append :
    (ps qs : List FilePut) (v : View) → view_all (ps ++ qs) v ≡ view_all qs (view_all ps v)
view_all-append [] qs v = refl
view_all-append (p ∷ ps) qs v = view_all-append ps qs (put_view p v)

-- The blocks of one file, one after the other.
blocks-view :
    (left b ino : ℕ) (buf : Bytes) (v : View)
    → ((o : ℕ) → v ino o ≡ (if ltb o b then some (block_in buf o) else none))
    → (o : ℕ)
    → view_all (block_puts left b ino buf) v ino o
      ≡ (if ltb o (b + left) then some (block_in buf o) else none)
blocks-view zero b ino buf v h o = let e : b + 0 ≡ b = omega arith in rw e (h o)
blocks-view (suc left) b ino buf v h o =
    let e : b + suc left ≡ b + 1 + left = omega arith in
    rw e (
      blocks-view left (b + 1) ino buf
        (put_view (record { inode_no = ino; offset = b; block = block_in buf b }) v) next o)
  where
    next :
        (o' : ℕ)
        → put_view (record { inode_no = ino; offset = b; block = block_in buf b }) v ino o'
          ≡ (if ltb o' (b + 1) then some (block_in buf o') else none)
    next o' =
        let same : (ino == ino) ≡ true = ground arith in
        elim (Bool-cases (o' == b)) [
          | inl here ↦
              let at : b ≡ o' = ground arith in
              let inside : ltb o' (b + 1) ≡ true = ground arith in
              rw (same, here, inside) (ap (λ q. some (block_in buf q)) at)
          | inr beside ↦ elim (Bool-cases (ltb o' b)) [
            | inl before ↦
                let inside : ltb o' (b + 1) ≡ true = ground arith in
                rw (same, beside, inside, h o', before) refl
            | inr behind ↦
                let outside : ltb o' (b + 1) ≡ false = ground arith in
                rw (same, beside, outside, h o', behind) (rw behind refl)
          ]
        ]

-- The other files are as they were.
blocks-others :
    (left b ino : ℕ) (buf : Bytes) (v : View) (k o : ℕ)
    → k ≢ ino
    → view_all (block_puts left b ino buf) v k o ≡ v k o
blocks-others zero b ino buf v k o d = refl
blocks-others (suc left) b ino buf v k o d =
    let other : (k == ino) ≡ false = ground arith in
    blocks-others left (b + 1) ino buf
      (put_view (record { inode_no = ino; offset = b; block = block_in buf b }) v) k o d
    ∙ rw other refl

module _ (host : List ℕ → List ℕ) where
  entry-view :
      (ino : ℕ) (entry : List ℕ) (buf : Bytes) (v : View)
      → ((o : ℕ) → v ino o ≡ none)
      → (o : ℕ) → view_all (entry_puts host ino entry buf) v ino o ≡ entry_block host entry buf o
  entry-view ino entry buf v empty o =
      let same : (ino == ino) ≡ true = ground arith in
      let none_before : (o' : ℕ) → ltb o' 0 ≡ false = λ o'. ground arith in
      elim (Bool-cases (is_text entry)) [
        | inl text ↦
            rw (text, same)
              (elim (Bool-cases (o == 0)) [
                | inl first ↦ let inside : ltb o 1 ≡ true = ground arith in rw (first, inside) refl
                | inr later ↦
                    let outside : ltb o 1 ≡ false = ground arith in
                    rw (later, outside, empty o, none_before o) refl
              ])
        | inr file ↦
            let whole : 0 + nblocks_of (host (file_name entry))
                ≡ nblocks_of (host (file_name entry)) =
              omega arith in
            rw file (
              rw whole at (
                blocks-view (nblocks_of (host (file_name entry))) 0 ino
                  (read_file (host (file_name entry)) buf) v (λ o'. rw (none_before o') (empty o'))
                  o))
      ]

  entry-others :
      (ino : ℕ) (entry : List ℕ) (buf : Bytes) (v : View) (k o : ℕ)
      → k ≢ ino
      → view_all (entry_puts host ino entry buf) v k o ≡ v k o
  entry-others ino entry buf v k o d =
      let other : (k == ino) ≡ false = ground arith in
      elim (Bool-cases (is_text entry)) [
        | inl text ↦ rw (text, other) refl
        | inr file ↦ rw file (
            blocks-others (nblocks_of (host (file_name entry))) 0 ino
              (read_file (host (file_name entry)) buf) v k o d)
      ]

  pub all-view :
      (ino : ℕ) (entries : List (List ℕ)) (buf : Bytes) (v : View)
      → ((k o : ℕ) → ino ≤ k → v k o ≡ none)
      → (k o : ℕ)
      → view_all (all_puts host ino entries buf) v k o
        ≡ (if ltb k ino then v k o else written_view host ino entries buf k o)
  all-view ino [] buf v empty k o = elim (Bool-cases (ltb k ino)) [
    | inl before ↦ rw before refl
    | inr behind ↦ rw behind (empty k o (ground arith))
  ]
  all-view ino (entry ∷ entries) buf v empty k o =
      let v1 = view_all (entry_puts host ino entry buf) v in
      let rest =
        all-view (ino + 1) entries (buf_after host entry buf) v1
          (λ k' o' h.
            entry-others ino entry buf v k' o' (λ e. omega arith) ∙ empty k' o' (omega arith))
          k o in
      ap (λ (x : View). x k o)
        (view_all-append (entry_puts host ino entry buf)
          (all_puts host (ino + 1) entries (buf_after host entry buf)) v)
      ∙ rest
      ∙ elim (Bool-cases (k == ino)) [
        | inl here ↦
            let at : ino ≡ k = ground arith in
            let up : ltb k (ino + 1) ≡ true = ground arith in
            let not_before : ltb k ino ≡ false = ground arith in
            rw (up, not_before, here)
              (subst
                (λ q. view_all (entry_puts host ino entry buf) v q o ≡ entry_block host entry buf o)
                at (entry-view ino entry buf v (λ o'. empty ino o' (omega arith)) o))
        | inr other ↦
            let kept = entry-others ino entry buf v k o (ground arith) in
            elim (Bool-cases (ltb k ino)) [
              | inl before ↦ let up : ltb k (ino + 1) ≡ true = ground arith in rw (up, before) kept
              | inr behind ↦
                  let up : ltb k (ino + 1) ≡ false = ground arith in rw (up, behind, other) refl
            ]
      ]
