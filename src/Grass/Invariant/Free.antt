-- ===== src/Grass/Invariant/Free.antt =====
-- Freeing processes: one, or every user application.
use egos_project.Prelude.{
  ℕ, zero, suc, ◌+◌, ◌-◌, ◌≤◌, ◌<◌, ◌≡◌, refl, ap, ◌∙◌, ◌≢◌, inl, inr, arith, Bool, not, ◌&&◌, ◌==◌,
  leb, if◌then◌else◌, ok, Bool-cases, >>=-ok, ok-injective,
}
use egos_project.Machine.{max_nprocess, pid2idx}
use egos_project.Earth.Mmu.{Mmu, soft_tlb_free}
use egos_project.Grass.Process.{
  unused, is_unused, Process, Table, Kernel, curr_pid, with_mmu, with_status, proc_set_status,
  proc_on_stop, proc_free, proc_free_all, free_user_slot, free_user_slots, gpid_user_start,
}
use egos_project.Grass.Invariant.{IsConsistent, Inv}
use egos_project.Grass.Invariant.Yield.{put_status}
use egos_project.Grass.Invariant.Rendezvous.{IsLive}

freed-IsConsistent :
    (f : Table) (c i : ℕ) → IsConsistent f c → IsConsistent (put_status f i unused) c
freed-IsConsistent f c i h = record {
  current = h.current;
  pids = λ j hj. ground (arith, h.pids j hj);
  one_running = λ j hj r. ground (arith, h.one_running j hj);
  no_missed = λ a b ha hb s. ground (arith, h.no_missed a b ha hb);
}

-- A `proc_free` that returns has freed the slot of `pid`.
pub record Freed (pid : ℕ) (k k' : Kernel) : Type 0 where
  pub low : 1 ≤ pid
  pub high : pid ≤ max_nprocess
  pub space : Mmu
  pub space_freed : soft_tlb_free pid k.mmu ≡ ok space
  pub state : k' ≡ with_status (with_mmu k space) (pid - 1) unused

stop_lem : (pid : ℕ) (k k' : Kernel) → proc_on_stop pid k ≡ ok k' → k' ≡ k
unfolding proc_on_stop pid2idx
stop_lem pid k k' h = ground arith

proc_free-Freed : (pid : ℕ) (k k' : Kernel) → proc_free pid k ≡ ok k' → Freed pid k k'
unfolding proc_free
proc_free-Freed pid k k' h =
    let (s, e, h1) = >>=-ok (soft_tlb_free pid k.mmu) _ h in
    let (k1, set, h2) = >>=-ok (proc_set_status pid unused (with_mmu k s)) _ h1 in
    let (shape, low, high) = set_lem s k1 set in
    record {
      low = low;
      high = high;
      space = s;
      space_freed = e;
      state = stop_lem pid k1 k' h2 ∙ shape;
    }
  where
    set_lem :
        (s : Mmu) (k1 : Kernel)
        → proc_set_status pid unused (with_mmu k s) ≡ ok k1
        → (k1 ≡ with_status (with_mmu k s) (pid - 1) unused) × (1 ≤ pid) × (pid ≤ max_nprocess)
    set_lem s k1 e = unfold proc_set_status pid2idx in ground arith

-- Freeing another process than the current one leaves the table consistent, the current process
-- running, the slot of `pid` unused, and every other slot as it was.
pub proc_free-IsLive :
    (pid : ℕ) (k k' : Kernel)
    → IsLive k
    → pid ≢ curr_pid k
    → proc_free pid k ≡ ok k'
    → IsLive k'
      × ((k'.proc_set (pid - 1)).status ≡ unused)
      × ((j : ℕ) → j ≢ pid - 1 → k'.proc_set j ≡ k.proc_set j)
proc_free-IsLive pid k k' (h, live) other e =
    let w = proc_free-Freed pid k k' e in
    let mine : k.proc_curr_idx ≢ pid - 1 =
      λ same. other (ground (arith, w.low, h.pids k.proc_curr_idx h.current)) in
    rw w.state (
      (freed-IsConsistent k.proc_set k.proc_curr_idx (pid - 1) h, ground arith),
      ground arith,
      λ j ne. ground arith,
    )

-- What one round of the loop of `proc_free(-1)` does to the table.
abbrev pub is_user : Process → Bool
is_user p = leb gpid_user_start p.pid

abbrev pub cleared : Process → Process
cleared p = if is_user p then record p { status = unused } else p

record Cleared (i : ℕ) (k k' : Kernel) : Type 0 where
  here : k'.proc_set i ≡ cleared (k.proc_set i)
  elsewhere : (j : ℕ) → j ≢ i → k'.proc_set j ≡ k.proc_set j
  same_curr : k'.proc_curr_idx ≡ k.proc_curr_idx
  consistent : Inv k → Inv k'

free_user_slot-Cleared : (i : ℕ) (k k' : Kernel) → free_user_slot i k ≡ ok k' → Cleared i k k'
unfolding free_user_slot
free_user_slot-Cleared i k k' h =
    elim (Bool-cases (is_user (k.proc_set i) && not (is_unused (k.proc_set i).status))) [
      | inl user ↦
          let (s, e, h1) = >>=-ok (soft_tlb_free (k.proc_set i).pid k.mmu) _ (rw user at h) in
          rw (stop_lem _ _ k' h1) (record {
            here = ground arith;
            elsewhere = λ j ne. ground arith;
            same_curr = refl;
            consistent = λ v. freed-IsConsistent k.proc_set k.proc_curr_idx i v;
          })
      | inr other ↦ rw (← ok-injective (rw other at h)) (record {
        here = ground arith;
        elsewhere = λ j ne. refl;
        same_curr = refl;
        consistent = λ v. v;
      })
    ]

-- What the rounds from slot `i` on do.
record ClearedFrom (left i : ℕ) (k k' : Kernel) : Type 0 where
  inside : (j : ℕ) → i ≤ j → j < i + left → k'.proc_set j ≡ cleared (k.proc_set j)
  outside : (j : ℕ) → j < i → k'.proc_set j ≡ k.proc_set j
  still_curr : k'.proc_curr_idx ≡ k.proc_curr_idx
  consistent : Inv k → Inv k'

free_user_slots-ClearedFrom :
    (left i : ℕ) (k k' : Kernel) → free_user_slots left i k ≡ ok k' → ClearedFrom left i k k'
unfolding free_user_slots
free_user_slots-ClearedFrom zero i k k' h = rw (← ok-injective h) (record {
  inside = λ j a b. absurd (omega arith);
  outside = λ j a. refl;
  still_curr = refl;
  consistent = λ v. v;
})
free_user_slots-ClearedFrom (suc left) i k k' h =
    let (k1, e, h1) = >>=-ok (free_user_slot i k) _ h in
    let this = free_user_slot-Cleared i k k1 e in
    let rest = free_user_slots-ClearedFrom left (i + 1) k1 k' h1 in
    record {
      inside = λ j a b. elim (Bool-cases (j == i)) [
        | inl same ↦
            let same' : j ≡ i = ground arith in rw same' (rest.outside i (omega arith) ∙ this.here)
        | inr other ↦
            rest.inside j (ground arith) (omega arith)
            ∙ ap cleared (this.elsewhere j (λ s. ground arith))
      ];
      outside = λ j a. rest.outside j (omega arith) ∙ this.elsewhere j (λ s. omega arith);
      still_curr = rest.still_curr ∙ this.same_curr;
      consistent = λ v. rest.consistent (this.consistent v);
    }

-- `proc_free(-1)`, called by a system process: when it returns, every user application's slot is
-- unused, every other slot is as it was, the table is consistent and the caller runs on.
pub proc_free_all-IsLive :
    (k k' : Kernel)
    → IsLive k
    → curr_pid k < gpid_user_start
    → proc_free_all k ≡ ok k'
    → IsLive k' × ((j : ℕ) → j < max_nprocess → k'.proc_set j ≡ cleared (k.proc_set j))
unfolding proc_free_all
proc_free_all-IsLive k k' (h, live) system e =
    let w = free_user_slots-ClearedFrom max_nprocess 0 k k' e in
    let mine : k'.proc_set k.proc_curr_idx ≡ k.proc_set k.proc_curr_idx =
      w.inside k.proc_curr_idx (omega arith) h.current ∙ kept (k.proc_set k.proc_curr_idx) system in
    ((w.consistent h, rw (w.still_curr, mine) live), λ j b. w.inside j (omega arith) b)
  where
    kept : (p : Process) → p.pid < gpid_user_start → cleared p ≡ p
    kept p s = ground arith
