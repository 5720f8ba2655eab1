-- ===== src/Bitmap.antt =====
-- The bit maps of earth/page_alloc.c (bitmap_set, bitmap_clear, bitmap_test) and of
-- library/file/fs.c (bit_set, bit_clear, bit_test): bit i is bit i % 8 of byte i / 8.
-- A byte is a number below 256. Each access to the array tests its bound first.
pub mod Bytes
pub mod Laws
use egos_project.Prelude.{
  ℕ, ◌+◌, ◌*◌, ◌/◌, ◌%◌, ◌<◌, ◌≡◌, Bool, true, false, not, List, [], ◌∷◌, ◌==◌, length, get_elem?,
  set, Option, none, some, Run, ok, undefined,
}
use Bytes.{set_bit, clear_bit, test_bit}

-- map[i/8] |= (1 << (i%8))
unfoldable pub bit_set : List ℕ → ℕ → Run (List ℕ)
bit_set map i = elim (get_elem? map (i / 8)) [
  | none ↦ undefined
  | some byte ↦ ok (set map (i / 8) (set_bit byte (i % 8)))
]

-- map[i/8] &= ~(1 << (i%8))
unfoldable pub bit_clear : List ℕ → ℕ → Run (List ℕ)
bit_clear map i = elim (get_elem? map (i / 8)) [
  | none ↦ undefined
  | some byte ↦ ok (set map (i / 8) (clear_bit byte (i % 8)))
]

-- map[i/8] & (1 << (i%8)), as a truth value
unfoldable pub bit_test : List ℕ → ℕ → Run Bool
bit_test map i = elim (get_elem? map (i / 8)) [
  | none ↦ undefined
  | some byte ↦ ok (test_bit byte (i % 8))
]
