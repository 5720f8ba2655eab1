-- ===== src/TreeDisk/Alloc.antt =====
-- treedisk_alloc_block of library/file/file.c: a block taken from the free list.
pub mod FreeList
pub mod Allocation
use egos_project.Prelude.{
  ℕ, zero, suc, ◌+◌, ◌-◌, ◌*◌, ◌/◌, ◌%◌, ◌^◌, ◌<◌, ◌≤◌, ◌≡◌, refl, arith, Bool, true, false, not,
  ltb, leb, ◌==◌, if◌then◌else◌, Option, none, some, Run, ok, undefined, fatal, store_full,
  store_failed, ◌>>=◌, ◌>>◌,
}
use egos_project.TreeDisk.Store.{Block, InodeStore}
use egos_project.TreeDisk.Layout.{refs_per_block, free_list_word, set_word, Snapshot}

-- The loop from REFS_PER_BLOCK - 1 down: the last reference that is not 0, or 0.
unfoldable pub scan_down : ℕ → Block → ℕ
scan_down zero b = 0
scan_down (suc i) b = if b (suc i) == 0 then scan_down i b else suc i

module _ (below : InodeStore) (below_ino : ℕ) where
  -- A write whose failure is a panic.
  unfoldable pub must_write : ℕ → Block → below.State → Run below.State
  must_write n b s = do
    r ← below.write below_ino n b s
    elim r [ none ↦ fatal store_failed | some s' ↦ ok s' ]

  -- A read whose result is not looked at: if it fails, the buffer has no value.
  unfoldable pub blind_read : ℕ → below.State → Run Block
  blind_read n s = do r ← below.read below_ino n s; elim r [ none ↦ undefined | some b ↦ ok b ]

  abbrev pub Allocation : Type 0
  Allocation = ℕ × Snapshot × below.State

  -- The free list block `b` itself is taken, and the superblock names the next one.
  unfoldable take_list_block : ℕ → Block → Snapshot → below.State → Run Allocation
  unfolding must_write
  take_list_block b freelist t s = do
    let t' = record t { superblock = set_word free_list_word (freelist 0) t.superblock }
    s' ← must_write 0 t'.superblock s
    ok (b, t', s')

  -- The free block in slot `i` of the free list block `b` is taken.
  unfoldable take_free_ref : ℕ → ℕ → Block → Snapshot → below.State → Run Allocation
  unfolding must_write
  take_free_ref i b freelist t s = do
    s' ← must_write b (set_word i 0 freelist) s
    ok (freelist i, t, s')

  unfoldable pub treedisk_alloc_block : Snapshot → below.State → Run Allocation
  unfolding scan_down blind_read take_list_block take_free_ref
  treedisk_alloc_block t s =
      let b = t.superblock free_list_word in
      if b == 0 then fatal store_full else do
        freelist ← blind_read b s
        let i = scan_down (refs_per_block - 1) freelist
        if i == 0 then take_list_block b freelist t s else take_free_ref i b freelist t s
