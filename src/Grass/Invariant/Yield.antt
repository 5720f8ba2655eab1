-- ===== src/Grass/Invariant/Yield.antt =====
-- The scheduler keeps the table consistent, and hands the processor to one process.
use egos_project.Prelude.{
  ℕ, ◌+◌, ◌-◌, ◌%◌, ◌<◌, ◌≡◌, refl, ◌≢◌, ◌⊎◌, inl, inr, arith, true, false, if◌then◌else◌, some,
  Run, ok, fatal, ◌>>=◌, Bool-cases, >>=-ok, Run-cases, sym, ◌∙◌, ap, ok-injective,
  no_runnable_process,
}
use egos_project.Machine.{max_nprocess, quantum, pid2idx}
use egos_project.Earth.Mmu.{Mmu, soft_tlb_switch}
use egos_project.Grass.Process.{
  Status, unused, running, runnable, is_ready, is_running, put, Table, Kernel, curr_pid,
  curr_status, with_mmu, with_status, proc_set_status, proc_set_running, proc_set_runnable,
}
use egos_project.Grass.Scheduler.RoundRobin.{FirstFrom, FirstFrom-lt, NoneFrom, next_slot-Search}
use egos_project.Grass.Scheduler.{
  schedulable, Resume, timer_reset, preempt, run_slot, switch_to, proc_yield,
}
use egos_project.Grass.Syscall.{sends_to, accepts}
use egos_project.Grass.Invariant.{IsConsistent, Inv}

-- The table when slot `c` gives way to slot `n`.
abbrev pub put_status : Table → ℕ → Status → Table
put_status f i status = put f i (record (f i) { status = status })

abbrev pub preempted : Table → ℕ → Table
preempted f c = if is_running (f c).status then put_status f c runnable else f

abbrev pub yielded : Table → ℕ → ℕ → Table
yielded f c n = put_status (preempted f c) n running

module _ (f : Table) (c n : ℕ) (h : IsConsistent f c) (inside : n < max_nprocess)
    (chosen : schedulable (f n).status ≡ true) where
  yielded-pids :
      (i : ℕ)
      → i < max_nprocess
      → ((yielded f c n i).pid ≡ i + 1)
        ⊎ (((yielded f c n i).status ≡ unused) × ((yielded f c n i).pid ≡ 0))
  yielded-pids i hi = ground (arith, h.pids i hi)

  yielded-one_running : (i : ℕ) → i < max_nprocess → (yielded f c n i).status ≡ running → i ≡ n
  yielded-one_running i hi r = ground (arith, h.one_running i hi)

  yielded-no_missed :
      (i j : ℕ)
      → i < max_nprocess
      → j < max_nprocess
      → sends_to (yielded f c n i) (yielded f c n j).pid ≡ true
      → accepts (yielded f c n j) (yielded f c n i).pid ≡ false
  yielded-no_missed i j hi hj s = ground (arith, h.no_missed i j hi hj)

  pub yielded-IsConsistent : IsConsistent (yielded f c n) n
  yielded-IsConsistent = record {
    current = inside;
    pids = yielded-pids;
    one_running = yielded-one_running;
    no_missed = yielded-no_missed;
  }

-- The state in which process `n` goes on: it alone runs, and the timer is one quantum ahead.
abbrev pub handed_over : Kernel → ℕ → Mmu → Kernel
handed_over k n s = record k {
  proc_set = yielded k.proc_set k.proc_curr_idx n;
  proc_curr_idx = n;
  mmu = s;
  mtimecmp = (k.mtime + quantum) % 0x1_0000_0000_0000_0000;
}

abbrev pub entry_of : Kernel → ℕ → Resume
entry_of k n = if is_ready (k.proc_set n).status then Resume.enter else Resume.resume

set_status-ok :
    (k : Kernel) (pid i : ℕ) (status : Status)
    → i < max_nprocess
    → pid ≡ i + 1
    → (k.proc_set i).pid ≡ i + 1
    → proc_set_status pid status k ≡ ok (with_status k i status)
unfolding proc_set_status pid2idx
set_status-ok k pid i status h e p = let e' : pid - 1 ≡ i = omega arith in ground arith

live_pid :
    (f : Table) (c i : ℕ)
    → IsConsistent f c
    → i < max_nprocess
    → (f i).status ≢ unused
    → (f i).pid ≡ i + 1
live_pid f c i h hi u = ground (arith, h.pids i hi)

preempt-ok :
    (k : Kernel)
    → Inv k
    → preempt k ≡ ok (record k { proc_set = preempted k.proc_set k.proc_curr_idx })
unfolding preempt proc_set_runnable
preempt-ok k h = elim (Bool-cases (is_running (curr_status k))) [
  | inl run ↦
      let pid : curr_pid k ≡ k.proc_curr_idx + 1 =
        live_pid k.proc_set k.proc_curr_idx k.proc_curr_idx h h.current (λ e. ground arith) in
      rw run (set_status-ok k (curr_pid k) k.proc_curr_idx runnable h.current pid pid)
  | inr idle ↦ rw idle refl
]

run_slot-eq :
    (k : Kernel) (n : ℕ)
    → n < max_nprocess
    → (k.proc_set n).pid ≡ n + 1
    → run_slot n k ≡ (
        soft_tlb_switch (n + 1) k.mmu >>= λ s. ok (
          record k {
            proc_set = put_status k.proc_set n running;
            proc_curr_idx = n;
            mmu = s;
            mtimecmp = (k.mtime + quantum) % 0x1_0000_0000_0000_0000;
          },
          entry_of k n,
        ))
unfolding run_slot proc_set_running timer_reset
run_slot-eq k n h e = elim (Run-cases (soft_tlb_switch (n + 1) k.mmu)) [
  | inl (s, p) ↦
      let armed : Kernel = timer_reset (with_mmu (record k { proc_curr_idx = n }) s) in
      ground (arith, set_status-ok armed (k.proc_set n).pid n running h e e)
  | inr f ↦ ground arith
]

switch_to-eq :
    (k : Kernel) (n : ℕ)
    → Inv k
    → n < max_nprocess
    → schedulable (k.proc_set n).status ≡ true
    → switch_to (some n) k
      ≡ (soft_tlb_switch (n + 1) k.mmu >>= λ s. ok (handed_over k n s, entry_of k n))
unfolding switch_to
switch_to-eq k n h inside chosen =
    let k1 : Kernel = record k { proc_set = preempted k.proc_set k.proc_curr_idx } in
    let pid : (k.proc_set n).pid ≡ n + 1 =
      live_pid k.proc_set k.proc_curr_idx n h inside (λ e. ground arith) in
    let pid1 : (k1.proc_set n).pid ≡ n + 1 = ground arith in
    let same : entry_of k1 n ≡ entry_of k n = ground arith in
    rw (preempt-ok k h) (
      run_slot-eq k1 n inside pid1
      ∙ ap (λ (e : Resume). soft_tlb_switch (n + 1) k.mmu >>= λ s. ok (handed_over k n s, e)) same)

-- Either nobody can run and the machine stops, or the first process in the circle behind the
-- current one goes on, and all that can still stop the switch is its address space.
pub proc_yield_lem :
    (k : Kernel)
    → Inv k
    → ((proc_yield k ≡ fatal no_runnable_process) × NoneFrom k.proc_set k.proc_curr_idx 1)
      ⊎ ((n : ℕ) × FirstFrom k.proc_set k.proc_curr_idx 1 n
          × (proc_yield k
              ≡ (soft_tlb_switch (n + 1) k.mmu >>= λ s. ok (handed_over k n s, entry_of k n))))
unfolding proc_yield
proc_yield_lem k h = elim (next_slot-Search k.proc_curr_idx k.proc_set) [
  | inl (e, nobody) ↦ inl (rw e (unfold switch_to in refl), nobody)
  | inr (n, e, w) ↦ inr (n, w, rw e (switch_to-eq k n h (FirstFrom-lt w) w.can_run))
]

-- A yield that returns leaves the table consistent, with the current process running.
pub proc_yield-Inv :
    (k k' : Kernel) (r : Resume)
    → Inv k
    → proc_yield k ≡ ok (k', r)
    → Inv k' × ((k'.proc_set k'.proc_curr_idx).status ≡ running)
proc_yield-Inv k k' r h e = elim (proc_yield_lem k h) [
  | inl (stop, _) ↦ absurd (clash (sym stop ∙ e))
  | inr (n, w, step) ↦
      let (s, _, done) = >>=-ok (soft_tlb_switch (n + 1) k.mmu) _ (sym step ∙ e) in
      let same : k' ≡ handed_over k n s =
        ap (λ (p : Kernel × Resume). p.0) (sym (ok-injective done)) in
      rw same (
        yielded-IsConsistent k.proc_set k.proc_curr_idx n h (FirstFrom-lt w) w.can_run,
        ground arith,
      )
]
  where
    clash : ◌≡◌ {A = Run (Kernel × Resume)} (fatal no_runnable_process) (ok (k', r)) → ⊥
    clash h = cc
