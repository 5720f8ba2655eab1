-- ===== src/Grass/Scheduler/RoundRobin.antt =====
-- The default policy: from the current slot on, in a circle, the first process that can run.
use egos_project.Prelude.{
  ℕ, zero, suc, ◌+◌, ◌-◌, ◌%◌, ◌≤◌, ◌<◌, ◌≡◌, refl, ◌⊎◌, inl, inr, arith, Bool, true, false, ◌||◌,
  ◌==◌, Option, none, some, List, [], ◌∷◌, length, All, Bool-cases, dec_lt,
}
use egos_project.Machine.{max_nprocess}
use egos_project.Grass.Process.{Table}
use egos_project.Grass.Scheduler.{schedulable, slot_after, find_next}

-- `n` is the slot found in the first round, of the rounds from `first` on, that finds one.
pub record FirstFrom (f : Table) (c first n : ℕ) : Type 0 where
  pub round : ℕ
  pub started : first ≤ round
  pub bounded : round ≤ max_nprocess
  pub place : n ≡ slot_after c round
  pub can_run : schedulable (f n).status ≡ true
  pub skipped : (e : ℕ) → first ≤ e → e < round → schedulable (f (slot_after c e)).status ≡ false

-- Nobody can run in the rounds from `first` on.
abbrev pub NoneFrom : Table → ℕ → ℕ → Type 0
NoneFrom f c first =
    (e : ℕ) → first ≤ e → e ≤ max_nprocess → schedulable (f (slot_after c e)).status ≡ false

abbrev pub Search : Table → ℕ → ℕ → Option ℕ → Type 0
Search f c first r =
    ((r ≡ none) × NoneFrom f c first) ⊎ ((n : ℕ) × (r ≡ some n) × FirstFrom f c first n)

-- Another round at the front that finds nobody.
skip :
    (f : Table) (c i e : ℕ)
    → schedulable (f (slot_after c i)).status ≡ false
    → i ≤ e
    → (i + 1 ≤ e → schedulable (f (slot_after c e)).status ≡ false)
    → schedulable (f (slot_after c e)).status ≡ false
skip f c i e off h rest = elim (Bool-cases (e == i)) [
  | inl same ↦ let same' : e ≡ i = ground arith in rw same' off
  | inr other ↦ rest (ground arith)
]

Search-skip :
    (f : Table) (c i : ℕ) (r : Option ℕ)
    → schedulable (f (slot_after c i)).status ≡ false
    → Search f c (i + 1) r
    → Search f c i r
Search-skip f c i r off (inl (e, nobody)) = inl (e, λ d h h'. skip f c i d off h λ g. nobody d g h')
Search-skip f c i r off (inr (n, e, found)) = inr (
  n,
  e,
  record {
    round = found.round;
    started = let s = found.started in omega arith;
    bounded = found.bounded;
    place = found.place;
    can_run = found.can_run;
    skipped = λ d h h'. skip f c i d off h λ g. found.skipped d g h';
  },
)

find_next-Search :
    (left i c : ℕ) (f : Table) → i + left ≡ max_nprocess + 1 → Search f c i (find_next left i c f)
unfolding find_next
find_next-Search zero i c f total = inl (refl, λ e h h'. absurd (omega arith))
find_next-Search (suc left) i c f total =
    elim (Bool-cases (schedulable (f (slot_after c i)).status)) [
      | inl here ↦ rw here (
          inr (
            slot_after c i,
            refl,
            record {
              round = i;
              started = omega arith;
              bounded = omega arith;
              place = refl;
              can_run = here;
              skipped = λ e h h'. absurd (omega arith);
            },
          ))
      | inr off ↦ rw off (Search-skip f c i _ off (find_next-Search left (i + 1) c f (omega arith)))
    ]

-- The slot chosen after `c`.
abbrev pub next_slot : ℕ → Table → Option ℕ
next_slot c f = find_next max_nprocess 1 c f

pub next_slot-Search : (c : ℕ) (f : Table) → Search f c 1 (next_slot c f)
next_slot-Search c f = find_next-Search max_nprocess 1 c f (omega arith)

-- How many rounds it takes to get from slot `c` to slot `j`, between 1 and 16.
abbrev pub rounds_to : ℕ → ℕ → ℕ
rounds_to c j = (j + (max_nprocess - 1) - c) % max_nprocess + 1

slot_after-rounds_to :
    (c j : ℕ) → c < max_nprocess → j < max_nprocess → slot_after c (rounds_to c j) ≡ j
slot_after-rounds_to c j hc hj = omega arith

pub FirstFrom-lt : {f : Table} {c first n : ℕ} → FirstFrom f c first n → n < max_nprocess
FirstFrom-lt w = let p = w.place in omega arith

nearer_by :
    (c j n r : ℕ)
    → c < max_nprocess
    → j < max_nprocess
    → n ≡ slot_after c r
    → 1 ≤ r
    → ¬ (rounds_to c j < r)
    → (n ≡ j) ⊎ (rounds_to n j < rounds_to c j)
nearer_by c j n r hc hj e h early = omega arith

-- The chosen slot is `j`, or lies nearer to `j` than the slot before it.
nearer :
    (f : Table) (c j n : ℕ)
    → c < max_nprocess
    → j < max_nprocess
    → schedulable (f j).status ≡ true
    → FirstFrom f c 1 n
    → (n ≡ j) ⊎ (rounds_to n j < rounds_to c j)
nearer f c j n hc hj ready w = elim (dec_lt (rounds_to c j) w.round) [
  | yes late ↦
      let missed : schedulable (f (slot_after c (rounds_to c j))).status ≡ false =
        w.skipped (rounds_to c j) (omega arith) late in
      absurd (passed_over (rw (slot_after-rounds_to c j hc hj) at missed))
  | no early ↦ nearer_by c j n w.round hc hj w.place w.started early
]
  where
    passed_over : schedulable (f j).status ≡ false → ⊥
    passed_over off = cc

-- The slots chosen in turn over the tables `fs`, from the slot `c` on, include `j`.
unfoldable pub serves : ℕ → ℕ → List Table → Bool
serves c j [] = false
serves c j (f ∷ fs) = elim (next_slot c f) [ none ↦ false | some n ↦ n == j || serves n j fs ]

-- Whatever else changes in the table, a process that can run at 16 calls of the scheduler in a
-- row is chosen by one of them.
pub serves_in_turn :
    (fs : List Table) (c j : ℕ)
    → c < max_nprocess
    → j < max_nprocess
    → rounds_to c j ≤ length fs
    → All (λ f. schedulable (f j).status ≡ true) fs
    → serves c j fs ≡ true
unfolding serves
serves_in_turn [] c j hc hj len able = absurd (omega arith)
serves_in_turn (f ∷ fs) c j hc hj len able = elim (next_slot-Search c f) [
  | inl (e, nobody) ↦
      let missed = nobody (rounds_to c j) (omega arith) (omega arith) in
      absurd (passed_over (rw (slot_after-rounds_to c j hc hj) at missed))
  | inr (n, e, w) ↦
      rw (e, serves)
        (go n (FirstFrom-lt w) (nearer f c j n hc hj able.0 w)
          (serves_in_turn fs n j (FirstFrom-lt w) hj))
]
  where
    passed_over : schedulable (f j).status ≡ false → ⊥
    passed_over off = cc (able.0)

    go :
        (n : ℕ)
        → n < max_nprocess
        → (n ≡ j) ⊎ (rounds_to n j < rounds_to c j)
        → (rounds_to n j ≤ length fs
            → All (λ f. schedulable (f j).status ≡ true) fs
            → serves n j fs ≡ true)
        → (n == j || serves n j fs) ≡ true
    go n h (inl same) rest = ground arith
    go n h (inr near) rest = ground (arith, rest (omega arith) able.1)
