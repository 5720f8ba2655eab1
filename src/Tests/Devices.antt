-- ===== src/Tests/Devices.antt =====
-- Keys typed at the terminal, and a clock whose low half runs over.
use egos_project.Prelude.{ℕ, ◌+◌, ◌≤◌, ◌≡◌, ◌⊎◌, All, some, arith, [], ◌∷◌, List}
use egos_project.Earth.Timer.{mtime_get, Mtimecmp, value, mtimecmp_set}
use egos_project.Earth.Timer.Halves.{last_value, mtime_get-time, mtimecmp_set-late}
use egos_project.Earth.Tty.{enter_key, backspace, tty_read}
use egos_project.Earth.Tty.Editing.{Shows, line, tty_read-Shows}

-- "lx", a backspace, "s" and enter.
abbrev keys : List ℕ
keys = 108 ∷ 120 ∷ backspace ∷ 115 ∷ enter_key ∷ []

tty_read-Shows_example : Shows (line (115 ∷ 108 ∷ [])) (tty_read keys 16 (λ i. 7))
tty_read-Shows_example = tty_read-Shows keys 16 (λ i. 7) (omega arith)

abbrev clock : ℕ → ℕ
clock n = 0xFFFF_FFFE + n

mtime_get-time_example : (j : ℕ) × (0 ≤ j) × (j ≤ 0 + 5) × (mtime_get 2 0 clock ≡ some (clock j))
mtime_get-time_example = mtime_get-time clock 0 0 (λ n. omega arith) (omega arith)

abbrev alarm : Mtimecmp
alarm = record { low = 5; high = 0 }

mtimecmp_set-late_example :
    All
      (λ w. (value alarm ≤ value w) ⊎ (0x1_0000_0001 ≤ value w))
      (mtimecmp_set 0x1_0000_0001 alarm)
    × (last_value (value alarm) (mtimecmp_set 0x1_0000_0001 alarm) ≡ 0x1_0000_0001)
mtimecmp_set-late_example = mtimecmp_set-late 0x1_0000_0001 alarm (omega arith) (omega arith)
