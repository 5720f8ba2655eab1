-- ===== src/Earth/Timer.antt =====
-- earth/cpu_timer.c: the two halves of the 64-bit timer registers. The clock runs on between two
-- reads, so it is a function from the number of the read to the time.
pub mod Halves
use egos_project.Prelude.{
  ℕ, zero, suc, ◌+◌, ◌*◌, ◌/◌, ◌%◌, ◌==◌, if◌then◌else◌, Option, none, some, List, [], ◌∷◌,
}

abbrev pub half : ℕ
half = 0x1_0000_0000

abbrev pub all_ones : ℕ
all_ones = 0xFFFF_FFFF

-- The loop from read `i` on: the high half, the low half, and the high half again. `none` says that
-- the loop has not ended within the rounds given.
unfoldable pub mtime_get : (rounds i : ℕ) → (ℕ → ℕ) → Option ℕ
mtime_get zero i clock = none
mtime_get (suc rounds) i clock =
    let later = mtime_get rounds (i + 3) clock in
    let high = clock i / half in
    let low = clock (i + 1) % half in
    if clock (i + 2) / half == high then some (high * half + low) else later

-- The register as its halves.
pub record Mtimecmp : Type 0 where
  pub low : ℕ
  pub high : ℕ

abbrev pub value : Mtimecmp → ℕ
value r = r.high * half + r.low

-- What the register holds after each of the three writes.
unfoldable pub mtimecmp_set : (time : ℕ) → Mtimecmp → List Mtimecmp
mtimecmp_set time r =
    record { low = r.low; high = all_ones }
    ∷ record { low = time % half; high = all_ones }
    ∷ record { low = time % half; high = time / half % half }
    ∷ []

-- The time, which becomes last_time; that it is less than the last one is only printed.
unfoldable pub gettime : (rounds i : ℕ) → (ℕ → ℕ) → (last_time : ℕ) → Option (ℕ × ℕ)
unfolding mtime_get
gettime rounds i clock last_time = elim (mtime_get rounds i clock) [
  | none ↦ none
  | some time ↦ some (time, time)
]
