-- ===== src/Earth/Timer/Halves.antt =====
-- A time is read whole although its halves are read one after the other, and no write of a half sets
-- the alarm to an earlier time.
use egos_project.Prelude.{
  ℕ, suc, ◌+◌, ◌*◌, ◌/◌, ◌%◌, ◌<◌, ◌≤◌, ◌≡◌, ap, ◌⊎◌, inl, inr, arith, true, ◌==◌, some, List, [],
  ◌∷◌, All, Bool-cases,
}
use egos_project.Earth.Timer.{half, all_ones, mtime_get, Mtimecmp, value, mtimecmp_set}

-- If the high half is the same before and behind the read of the low half, the time is that of the
-- read of the low half.
whole :
    (before time behind : ℕ)
    → before ≤ time
    → time ≤ behind
    → behind / half ≡ before / half
    → before / half * half + time % half ≡ time
whole before time behind h l e = omega arith

-- On a clock that never runs backwards and does not go through all of its low half within six reads,
-- the loop of mtime_get ends in its second round at the latest, with the time of one of its reads.
pub mtime_get-time :
    (clock : ℕ → ℕ) (i rounds : ℕ)
    → ((n : ℕ) → clock n ≤ clock (n + 1))
    → clock (i + 5) < clock i + half
    → (j : ℕ) × (i ≤ j) × (j ≤ i + 5) × (mtime_get (suc (suc rounds)) i clock ≡ some (clock j))
unfolding mtime_get
mtime_get-time clock i rounds onward slow =
    let s0 = onward i in
    let s1 = next_read i 1 in
    let s2 = next_read i 2 in
    let s3 = next_read i 3 in
    let s4 = next_read i 4 in
    elim (Bool-cases (clock (i + 2) / half == clock i / half)) [
      | inl same ↦ (
        i + 1,
        omega arith,
        omega arith,
        rw same (ap some (whole (clock i) (clock (i + 1)) (clock (i + 2)) s0 s1 (ground arith))),
      )
      | inr turned ↦
          let e4 : i + 3 + 1 ≡ i + 4 = omega arith in
          let e5 : i + 3 + 2 ≡ i + 5 = omega arith in
          let steady : clock (i + 5) / half ≡ clock (i + 3) / half = ground arith in
          let again : (clock (i + 5) / half == clock (i + 3) / half) ≡ true = ground arith in
          (
            i + 4,
            omega arith,
            omega arith,
            rw (turned, e4, e5, again)
                (ap some (whole (clock (i + 3)) (clock (i + 4)) (clock (i + 5)) s3 s4 steady)),
          )
    ]
  where
    next_read : (n k : ℕ) → clock (n + k) ≤ clock (n + suc k)
    next_read n k = let e : n + k + 1 ≡ n + suc k = omega arith in rw e at (onward (n + k))

-- What the register holds at last.
abbrev pub last_value : ℕ → List Mtimecmp → ℕ
last_value v [] = v
last_value v (w ∷ ws) = last_value (value w) ws

-- After none of the writes of mtimecmp_set the alarm stands at a time that is both before the old
-- one and before the new one, and after the last it stands at the new one.
pub mtimecmp_set-late :
    (time : ℕ) (r : Mtimecmp)
    → time < half * half
    → r.high ≤ all_ones
    → All (λ w. (value r ≤ value w) ⊎ (time ≤ value w)) (mtimecmp_set time r)
      × (last_value (value r) (mtimecmp_set time r) ≡ time)
unfolding mtimecmp_set
mtimecmp_set-late time r small word =
    ((inl (omega arith), (inr (omega arith), (inr (omega arith), tt))), omega arith)
