-- ===== src/Loader/Grass.antt =====
-- load_grass puts the file's bytes at GRASS_ENTRY and clears the rest of the kernel's memory.
use egos_project.Prelude.{
  ℕ, zero, suc, ◌+◌, ◌-◌, ◌*◌, ◌/◌, ◌%◌, ◌<◌, ◌≤◌, ◌≡◌, refl, ◌∙◌, ap, inl, inr, arith, true, ltb,
  leb, Bool-cases, Run, ok,
}
use egos_project.Machine.{grass_size, grass_entry}
use egos_project.Machine.Memory.{
  Memory, memset, memset-Outside, memset_within, paste, paste-Outside, paste_within,
}
use egos_project.Earth.Disk.{block_size}
use egos_project.Loader.{Reader, ProgramHeader, load_blocks, load_grass}

-- Byte `k` of the file whose blocks start at `first`.
abbrev pub file_byte : (ℕ → ℕ → ℕ) → ℕ → ℕ → ℕ
file_byte file first k = file (first + k / block_size) (k % block_size)

paste_block :
    (file : ℕ → ℕ → ℕ) (first i k : ℕ) (m : Memory)
    → i * block_size ≤ k
    → k < (i + 1) * block_size
    → paste (grass_entry + i * block_size) block_size (file (first + i)) m (grass_entry + k)
      ≡ file_byte file first k
paste_block file first i k m h l =
    let at : grass_entry + k ≡ grass_entry + i * block_size + (k - i * block_size) = omega arith in
    let block : k / block_size ≡ i = omega arith in
    let byte : k % block_size ≡ k - i * block_size = omega arith in
    rw (block, byte)
      (ap (paste (grass_entry + i * block_size) block_size (file (first + i)) m) at
        ∙ paste_within (grass_entry + i * block_size) block_size (file (first + i)) m
            (k - i * block_size) (omega arith))

module _ (reader : Reader) (file : ℕ → ℕ → ℕ) (reads : (n : ℕ) → reader n ≡ ok (file n))
    (first filesz : ℕ) where
  -- From block `i` of the file on, the loop loads the bytes up to `filesz`, leaves what lies before,
  -- and writes behind them only to fill the last block.
  record Loaded (i : ℕ) (m : Memory) (r : Run Memory) : Type 0 where
    after : Memory
    result : r ≡ ok after
    bytes :
        (k : ℕ) → i * block_size ≤ k → k < filesz → after (grass_entry + k) ≡ file_byte file first k
    before : (a : ℕ) → a < grass_entry + i * block_size → after a ≡ m a
    behind : (a : ℕ) → grass_entry + filesz + block_size ≤ a → after a ≡ m a

  load_blocks-Loaded :
      (fuel i : ℕ) (m : Memory)
      → filesz ≤ i * block_size + fuel
      → Loaded i m (load_blocks fuel (i * block_size) (first + i) filesz reader m)
  unfolding load_blocks
  load_blocks-Loaded zero i m enough = record {
    after = m;
    result = refl;
    bytes = λ k h l. absurd (omega arith);
    before = λ a h. refl;
    behind = λ a h. refl;
  }
  load_blocks-Loaded (suc fuel) i m enough = elim (Bool-cases (ltb (i * block_size) filesz)) [
    | inr end ↦ record {
      after = m;
      result = rw (load_blocks, end) refl;
      bytes = λ k h l. absurd (ground arith);
      before = λ a h. refl;
      behind = λ a h. refl;
    }
    | inl more ↦
        let m1 = paste (grass_entry + i * block_size) block_size (file (first + i)) m in
        let next : i * block_size + block_size ≡ (i + 1) * block_size = omega arith in
        let block : first + i + 1 ≡ first + (i + 1) = omega arith in
        let rest = load_blocks-Loaded fuel (i + 1) m1 (omega arith) in
        record {
          after = rest.after;
          result = rw (load_blocks, more, reads (first + i), next, block) rest.result;
          bytes = λ k h l. elim (Bool-cases (ltb k ((i + 1) * block_size))) [
            | inl here ↦
                rest.before (grass_entry + k) (ground arith)
                ∙ paste_block file first i k m h (ground arith)
            | inr later ↦ rest.bytes k (ground arith) l
          ];
          before = λ a h.
              rest.before a (omega arith)
              ∙ paste-Outside (grass_entry + i * block_size) block_size (file (first + i)) m a
                  (inl h);
          behind = λ a h.
              rest.behind a h
              ∙ paste-Outside (grass_entry + i * block_size) block_size (file (first + i)) m a
                  (inr (ground arith));
        }
  ]

  -- The kernel's memory after the load: the file's bytes, then zeros up to GRASS_SIZE.
  pub record GrassLoaded (m : Memory) (r : Run Memory) : Type 0 where
    pub after : Memory
    pub result : r ≡ ok after
    pub bytes : (k : ℕ) → k < filesz → after (grass_entry + k) ≡ file_byte file first k
    pub zeros : (k : ℕ) → filesz ≤ k → k < grass_size → after (grass_entry + k) ≡ 0
    pub before : (a : ℕ) → a < grass_entry → after a ≡ m a
    pub behind : (a : ℕ) → grass_entry + grass_size + block_size ≤ a → after a ≡ m a

  load_grass-zeros :
      (m : Memory) (k : ℕ)
      → filesz ≤ k
      → k < grass_size
      → memset (grass_entry + filesz) 0 (grass_size - filesz) m (grass_entry + k) ≡ 0
  load_grass-zeros m k h l =
      let at : grass_entry + k ≡ grass_entry + filesz + (k - filesz) = omega arith in
      ap (memset (grass_entry + filesz) 0 (grass_size - filesz) m) at
      ∙ memset_within (grass_entry + filesz) 0 (grass_size - filesz) m (k - filesz) (omega arith)

  -- If the file fits, load_grass succeeds, puts exactly the file's bytes at GRASS_ENTRY, clears the
  -- rest of the kernel's memory, and leaves all other memory alone, but for the block behind it.
  pub load_grass-GrassLoaded :
      (pheader : ProgramHeader) (m : Memory)
      → pheader.p_filesz ≡ filesz
      → pheader.p_offset / block_size ≡ first
      → filesz ≤ grass_size
      → GrassLoaded m (load_grass reader pheader m)
  unfolding load_grass
  load_grass-GrassLoaded pheader m size start fits =
      let r = load_blocks-Loaded filesz 0 m (omega arith) in
      let here : first + 0 ≡ first = omega arith in
      let loaded : load_blocks filesz 0 first filesz reader m ≡ ok r.after = rw here at r.result in
      let enough_room : leb filesz grass_size ≡ true = ground arith in
      let m1 = r.after in
      record {
        after = memset (grass_entry + filesz) 0 (grass_size - filesz) m1;
        result = rw (size, start, loaded, size, enough_room) refl;
        bytes = λ k h.
            memset-Outside (grass_entry + filesz) 0 (grass_size - filesz) m1 (grass_entry + k)
              (inl (omega arith))
            ∙ r.bytes k (omega arith) h;
        zeros = λ k h l. load_grass-zeros m1 k h l;
        before = λ a h.
            memset-Outside (grass_entry + filesz) 0 (grass_size - filesz) m1 a (inl (omega arith))
            ∙ r.before a (omega arith);
        behind = λ a h.
            memset-Outside (grass_entry + filesz) 0 (grass_size - filesz) m1 a (inr (omega arith))
            ∙ r.behind a (omega arith);
      }
