-- ===== src/TreeDisk/Tree/Digits.antt =====
-- The digits of a block's number to the base 128, one for each level of a file's tree.
use egos_project.Prelude.{
  ℕ, zero, suc, ◌-◌, ◌^◌, ltb, ◌*◌, ◌/◌, ◌%◌, ◌<◌, ◌≤◌, ◌≡◌, ◌≢◌, refl, ap, sym, ◌∙◌, subst, inl,
  inr, arith, leb, ◌==◌, Bool-cases, true,
}
use egos_project.TreeDisk.Layout.{
  u32_mod, refs_per_block, log_rpb, log_shift_r, levels, levels_over, index_at,
}
use egos_project.TreeDisk.Layout.Levels.{levels_over-IsLevels}

-- What stands before the digits of the lowest `nlevels` levels.
abbrev pub pre : (nlevels o : ℕ) → ℕ
pre nlevels o = log_shift_r o (nlevels * log_rpb)

pub pre-zero : (o : ℕ) → pre 0 o ≡ o
unfolding log_shift_r
pre-zero o = omega arith

pub index_at-pre : (nlevels o : ℕ) → index_at o nlevels ≡ pre nlevels o % 128
unfolding index_at
index_at-pre nlevels o = refl

pre-behind : (nlevels o : ℕ) → 5 ≤ nlevels → pre nlevels o ≡ 0
unfolding log_shift_r
pre-behind nlevels o h = let over : leb 32 (nlevels * log_rpb) ≡ true = ground arith in rw over refl

-- One level up, the last digit is gone.
pub pre-suc : (nlevels o : ℕ) → o < u32_mod → pre (suc nlevels) o ≡ pre nlevels o / 128
unfolding log_shift_r
pre-suc zero o h = omega arith
pre-suc (suc zero) o h = omega arith
pre-suc (suc (suc zero)) o h = omega arith
pre-suc (suc (suc (suc zero))) o h = omega arith
pre-suc (suc (suc (suc (suc zero)))) o h = omega arith
pre-suc (suc (suc (suc (suc (suc n))))) o h =
    let first = pre-behind (suc (suc (suc (suc (suc n))))) o (omega arith) in
    let second = pre-behind (suc (suc (suc (suc (suc (suc n)))))) o (omega arith) in
    rw (second, first) refl

module _ (o o' : ℕ) (small : o < u32_mod) (small' : o' < u32_mod) where
  pub pre-up :
      (nlevels : ℕ) → pre nlevels o' ≡ pre nlevels o → pre (suc nlevels) o' ≡ pre (suc nlevels) o
  pre-up nlevels e = pre-suc nlevels o' small' ∙ ap (λ x. x / 128) e ∙ sym (pre-suc nlevels o small)

  -- With the same digit, numbers agree one level down too.
  pub pre-down :
      (nlevels : ℕ)
      → pre (suc nlevels) o' ≡ pre (suc nlevels) o
      → index_at o' nlevels ≡ index_at o nlevels
      → pre nlevels o' ≡ pre nlevels o
  pre-down nlevels e same = omega (
    arith,
    e,
    same,
    pre-suc nlevels o small,
    pre-suc nlevels o' small',
    index_at-pre nlevels o,
    index_at-pre nlevels o',
  )

  pre-lift : (nlevels l : ℕ) → l ≤ nlevels → pre l o' ≡ pre l o → pre nlevels o' ≡ pre nlevels o
  pre-lift zero l h e = let at : l ≡ 0 = omega arith in subst (λ n. pre n o' ≡ pre n o) at e
  pre-lift (suc n) l h e = elim (Bool-cases (l == suc n)) [
    | inl here ↦ let at : l ≡ suc n = ground arith in subst (λ n. pre n o' ≡ pre n o) at e
    | inr lower ↦ pre-up n (pre-lift n l (ground arith) e)
  ]

  -- Numbers that differ above some level differ down from there.
  pub pre-below :
      (nlevels l : ℕ) → l ≤ nlevels → pre nlevels o' ≢ pre nlevels o → pre l o' ≢ pre l o
  pre-below nlevels l h d e = d (pre-lift nlevels l h e)

-- A block of a file starts with no digits above the levels of the file.
pre-small : (n o : ℕ) → n ≤ 5 → o < u32_mod → o < refs_per_block ^ n → pre n o ≡ 0
unfolding log_shift_r
pre-small zero o h l s = omega arith
pre-small (suc zero) o h l s = omega arith
pre-small (suc (suc zero)) o h l s = omega arith
pre-small (suc (suc (suc zero))) o h l s = omega arith
pre-small (suc (suc (suc (suc zero)))) o h l s = omega arith
pre-small (suc (suc (suc (suc (suc n))))) o h l s =
    pre-behind (suc (suc (suc (suc (suc n))))) o (omega arith)

pub pre-levels : (nblocks o : ℕ) → nblocks < u32_mod → o < nblocks → pre (levels nblocks) o ≡ 0
unfolding levels
pre-levels nblocks o h l =
    let some_blocks : ltb 0 nblocks ≡ true = ground arith in
    let is = levels_over-IsLevels (nblocks - 1) (omega arith) in
    rw some_blocks (
      pre-small (levels_over (nblocks - 1)) o is.bounded (omega arith)
        (let r = is.reaches in omega arith))
