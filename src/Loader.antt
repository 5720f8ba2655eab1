-- ===== src/Loader.antt =====
-- library/elf/elf.c: an ELF file with one program header, loaded into memory. A reader gives the
-- bytes of a block of the file.
pub mod App
pub mod Grass
use egos_project.Prelude.{
  ℕ, zero, suc, ◌+◌, ◌-◌, ◌*◌, ◌/◌, true, false, ltb, leb, ◌==◌, if◌then◌else◌, Run, ok, fatal,
  undefined, invalid_vaddr, assert, ◌>>=◌, ◌>>◌,
}
use egos_project.Machine.{grass_size, grass_entry, apps_entry}
use egos_project.Machine.Memory.{Memory, memset, paste}
use egos_project.Earth.Disk.{block_size}

abbrev pub Reader : Type 0
Reader = ℕ → Run (ℕ → ℕ)

-- The fields of struct elf32_program_header that are read.
pub record ProgramHeader : Type 0 where
  pub p_offset : ℕ
  pub p_vaddr : ℕ
  pub p_filesz : ℕ

-- A field of four bytes, the lowest first.
abbrev pub word_of : (ℕ → ℕ) → ℕ → ℕ
word_of buf i = buf i + 0x100 * buf (i + 1) + 0x1_0000 * buf (i + 2) + 0x100_0000 * buf (i + 3)

-- header->e_phnum and header->e_phoff, at the bytes 44 and 28 of struct elf32_header.
abbrev pub e_phnum : (ℕ → ℕ) → ℕ
e_phnum buf = buf 44 + 0x100 * buf 45

abbrev pub e_phoff : (ℕ → ℕ) → ℕ
e_phoff buf = word_of buf 28

-- The program header in the first block; one that reaches behind the block is undefined.
abbrev pub program_header : (ℕ → ℕ) → Run ProgramHeader
program_header buf =
    if leb (e_phoff buf + 32) block_size
    then ok (record {
      p_offset = word_of buf (e_phoff buf + 4);
      p_vaddr = word_of buf (e_phoff buf + 8);
      p_filesz = word_of buf (e_phoff buf + 16);
    })
    else undefined

-- The loop of `load_grass`: a block in each round, so `p_filesz` rounds are enough.
unfoldable pub load_blocks : (fuel off block_offset filesz : ℕ) → Reader → Memory → Run Memory
load_blocks zero off block_offset filesz reader m = ok m
load_blocks (suc fuel) off block_offset filesz reader m = elim (ltb off filesz) [
  | false ↦ ok m
  | true ↦ do
    block ← reader block_offset
    load_blocks fuel (off + block_size) (block_offset + 1) filesz reader
        (paste (grass_entry + off) block_size block m)
]

-- The size of the last memset is unsigned: a file larger than GRASS_SIZE makes it run out.
unfoldable pub load_grass : Reader → ProgramHeader → Memory → Run Memory
load_grass reader pheader m = do
  m1 ← load_blocks pheader.p_filesz 0 (pheader.p_offset / block_size) pheader.p_filesz reader m
  if leb pheader.p_filesz grass_size
      then ok (memset (grass_entry + pheader.p_filesz) 0 (grass_size - pheader.p_filesz) m1)
      else undefined
