-- ===== src/Bitmap/Bytes.antt =====
-- One byte of a bit map. The laws are checked at every byte and every pair of bits.
use egos_project.Prelude.{
  ℕ, zero, suc, ◌+◌, ◌-◌, ◌^◌, ◌<◌, ◌≡◌, refl, arith, Bool, true, false, not, ◌&&◌, ◌==◌, ltb,
  if◌then◌else◌, bit_and, bit_or,
}

unfoldable pub set_bit : ℕ → ℕ → ℕ
set_bit byte k = bit_or byte (2 ^ k)

-- `~` is taken in an int and the result cut to the byte, which leaves the other seven bits.
unfoldable pub clear_bit : ℕ → ℕ → ℕ
clear_bit byte k = bit_and byte (255 - 2 ^ k)

unfoldable pub test_bit : ℕ → ℕ → Bool
test_bit byte k = not (bit_and byte (2 ^ k) == 0)

-- The test passes at every number from `from` on, `count` of them.
passes : (ℕ → Bool) → (from count : ℕ) → Bool
passes test from zero = true
passes test from (suc count) = test from && passes test (suc from) count

passes_at :
    (test : ℕ → Bool) (from count k : ℕ)
    → passes test from count ≡ true
    → k < count
    → test (from + k) ≡ true
unfolding passes
passes_at test from zero k h below = elim below [ ]
passes_at test from (suc count) zero h below =
    let here : from + 0 ≡ from = omega arith in rw here (ground arith)
passes_at test from (suc count) (suc k) h below =
    let shift : from + suc k ≡ suc from + k = omega arith in
    rw shift (passes_at test (suc from) count k (ground arith) (omega arith))

passes_below :
    (test : ℕ → Bool) (count k : ℕ) → passes test 0 count ≡ true → k < count → test k ≡ true
passes_below test count k h below =
    let e : 0 + k ≡ k = omega arith in rw e at (passes_at test 0 count k h below)

abbrev same : Bool → Bool → Bool
same true b = b
same false b = not b

same→eq : (a b : Bool) → same a b ≡ true → a ≡ b
same→eq a b h = ground arith

-- What a write to bit `k` does to bit `j`.
set_ok : ℕ → ℕ → ℕ → Bool
set_ok x k j =
    same (test_bit (set_bit x k) j) (if k == j then true else test_bit x j) && ltb (set_bit x k) 256

clear_ok : ℕ → ℕ → ℕ → Bool
clear_ok x k j =
    same (test_bit (clear_bit x k) j) (if k == j then false else test_bit x j)
    && ltb (clear_bit x k) 256

table : (ℕ → ℕ → ℕ → Bool) → Bool
table p = passes (λ x. passes (λ k. passes (λ j. p x k j) 0 8) 0 8) 0 256

table_sound :
    (p : ℕ → ℕ → ℕ → Bool) (x k j : ℕ) → table p ≡ true → x < 256 → k < 8 → j < 8 → p x k j ≡ true
unfolding table
table_sound p x k j h hx hk hj =
    passes_below _ 8 j (passes_below _ 8 k (passes_below _ 256 x h hx) hk) hj

set_table : table set_ok ≡ true
unfolding table passes set_ok set_bit test_bit
set_table = refl

clear_table : table clear_ok ≡ true
unfolding table passes clear_ok clear_bit test_bit
clear_table = refl

module _ (x k j : ℕ) (hx : x < 256) (hk : k < 8) (hj : j < 8) where
  pub test_bit-set_bit :
      (test_bit (set_bit x k) j ≡ (if k == j then true else test_bit x j)) × (set_bit x k < 256)
  unfolding set_ok
  test_bit-set_bit = ground (arith, table_sound set_ok x k j set_table hx hk hj)

  pub test_bit-clear_bit :
      (test_bit (clear_bit x k) j ≡ (if k == j then false else test_bit x j))
      × (clear_bit x k < 256)
  unfolding clear_ok
  test_bit-clear_bit = ground (arith, table_sound clear_ok x k j clear_table hx hk hj)
