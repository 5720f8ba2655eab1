-- ===== src/TreeDisk/Layout/Levels.antt =====
-- The number of levels that treedisk_read and treedisk_write compute.
use egos_project.Prelude.{
  ℕ, ◌+◌, ◌-◌, ◌^◌, ◌<◌, ◌≤◌, ◌≡◌, refl, true, inl, inr, arith, ltb, Bool-cases, if◌then◌else◌,
}
use egos_project.TreeDisk.Layout.{
  refs_per_block, u32_mod, log_shift_r, levels_from, levels_over, levels,
}

-- A tree with `n` levels of indirect blocks reaches the block `last`, and one with fewer does not.
pub record IsLevels (last n : ℕ) : Type 0 where
  pub reaches : last < refs_per_block ^ n
  pub least : 0 < n → refs_per_block ^ (n - 1) ≤ last
  pub bounded : n ≤ 5

-- The thresholds of the six rounds.
abbrev threshold_levels : ℕ → ℕ
threshold_levels last =
    if ltb last 1
    then 0
    else if ltb last 128
    then 1
    else if ltb last 16384
    then 2
    else if ltb last 2097152
    then 3
    else if ltb last 268435456
    then 4
    else 5

levels_over-cases : (last : ℕ) → last < u32_mod → levels_over last ≡ threshold_levels last
unfolding levels_over levels_from log_shift_r
levels_over-cases last h = ground arith

threshold_levels-IsLevels : (last : ℕ) → last < u32_mod → IsLevels last (threshold_levels last)
threshold_levels-IsLevels last h = elim (Bool-cases (ltb last 1)) [
  | inl a ↦
      rw (a) (record { reaches = ground arith; least = λ p. ground arith; bounded = ground arith })
  | inr a ↦ elim (Bool-cases (ltb last 128)) [
    | inl b ↦
        rw (a, b)
          (record { reaches = ground arith; least = λ p. ground arith; bounded = ground arith })
    | inr b ↦ elim (Bool-cases (ltb last 16384)) [
      | inl c ↦
          rw (a, b, c)
            (record { reaches = ground arith; least = λ p. ground arith; bounded = ground arith })
      | inr c ↦ elim (Bool-cases (ltb last 2097152)) [
        | inl d ↦
            rw (a, b, c, d)
              (record { reaches = ground arith; least = λ p. ground arith; bounded = ground arith })
        | inr d ↦ elim (Bool-cases (ltb last 268435456)) [
          | inl e ↦
              rw (a, b, c, d, e)
                (record {
                  reaches = ground arith;
                  least = λ p. ground arith;
                  bounded = ground arith;
                })
          | inr e ↦
              rw (a, b, c, d, e)
                (record {
                  reaches = ground arith;
                  least = λ p. ground arith;
                  bounded = ground arith;
                })
        ]
      ]
    ]
  ]
]

-- The count of levels is the least whose tree reaches the block `last`, and at most five.
pub levels_over-IsLevels : (last : ℕ) → last < u32_mod → IsLevels last (levels_over last)
levels_over-IsLevels last h = rw (levels_over-cases last h) (threshold_levels-IsLevels last h)

-- A longer file has no fewer levels.
pub levels_over_mono : (a b : ℕ) → a ≤ b → b < u32_mod → levels_over a ≤ levels_over b
levels_over_mono a b h l =
    let a_small : a < u32_mod = omega arith in
    rw (levels_over-cases a a_small, levels_over-cases b l) (ground arith)

-- The levels of a file, from the size in the inode.
pub levels_small : (nblocks : ℕ) → nblocks < u32_mod → levels nblocks ≤ 5
unfolding levels
levels_small nblocks h = elim (Bool-cases (ltb 0 nblocks)) [
  | inl some_blocks ↦ rw some_blocks (levels_over-IsLevels (nblocks - 1) (omega arith)).bounded
  | inr empty ↦ rw empty (omega arith)
]

pub levels_behind :
    (nblocks offset : ℕ) → nblocks ≤ offset → offset < u32_mod → levels nblocks ≤ levels_over offset
unfolding levels
levels_behind nblocks offset h l = elim (Bool-cases (ltb 0 nblocks)) [
  | inl some_blocks ↦ rw some_blocks (levels_over_mono (nblocks - 1) offset (omega arith) l)
  | inr empty ↦ rw empty (omega arith)
]

pub levels_of_last : (offset : ℕ) → levels (offset + 1) ≡ levels_over offset
unfolding levels
levels_of_last offset =
    let some_blocks : ltb 0 (offset + 1) ≡ true = ground arith in
    let last : offset + 1 - 1 ≡ offset = omega arith in rw (some_blocks, last) refl
