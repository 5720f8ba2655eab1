-- ===== src/Earth/Disk.antt =====
-- earth/dev_disk.c and the reads and writes of earth/dev_sdcard.c. The ROM stands in memory. Of the
-- SD card, what comes before a FATAL is a wait for the card and is not modelled.
use egos_project.Prelude.{
  ℕ, ◌+◌, ◌*◌, ◌%◌, ◌==◌, ltb, if◌then◌else◌, Run, ok, fatal, not_implemented, read_only_disk,
  invalid_request,
}
use egos_project.Machine.Memory.{Memory, memcpy}

pub data DiskType : Type 0 where
  flash_rom sd_card : DiskType

abbrev pub block_size : ℕ
block_size = 512

-- The address of a block of the ROM, in 32 bits.
abbrev pub rom_addr : ℕ → ℕ
rom_addr block_no = (0x2080_0000 + block_no * block_size) % 0x1_0000_0000

abbrev pub sd_single_read : (block_no dst : ℕ) → Memory → Run Memory
sd_single_read block_no dst m = fatal not_implemented

abbrev pub sd_multi_read : (block_no dst nblocks : ℕ) → Memory → Run Memory
sd_multi_read block_no dst nblocks m = fatal not_implemented

abbrev pub sd_single_write : (block_no src : ℕ) → Memory → Run Memory
sd_single_write block_no src m = fatal not_implemented

abbrev pub sd_multi_write : (block_no src nblocks : ℕ) → Memory → Run Memory
sd_multi_write block_no src nblocks m = fatal not_implemented

abbrev pub sd_read : (block_no nblocks dst : ℕ) → Memory → Run Memory
sd_read block_no nblocks dst m =
    if nblocks == 1
    then sd_single_read block_no dst m
    else if ltb 1 nblocks
    then sd_multi_read block_no dst nblocks m
    else fatal invalid_request

abbrev pub sd_write : (block_no nblocks src : ℕ) → Memory → Run Memory
sd_write block_no nblocks src m =
    if nblocks == 1
    then sd_single_write block_no src m
    else if ltb 1 nblocks
    then sd_multi_write block_no src nblocks m
    else fatal invalid_request

unfoldable pub disk_read : DiskType → (block_no nblocks dst : ℕ) → Memory → Run Memory
disk_read flash_rom block_no nblocks dst m =
    ok (memcpy dst (rom_addr block_no) (nblocks * block_size) m)
disk_read sd_card block_no nblocks dst m = sd_read block_no nblocks dst m

unfoldable pub disk_write : DiskType → (block_no nblocks src : ℕ) → Memory → Run Memory
disk_write flash_rom block_no nblocks src m = fatal read_only_disk
disk_write sd_card block_no nblocks src m = sd_write block_no nblocks src m
