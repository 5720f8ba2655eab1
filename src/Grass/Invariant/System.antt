-- ===== src/Grass/Invariant/System.antt =====
-- Every system call, and every call-back of GPID_PROCESS into the kernel, keeps the table
-- consistent and the current process running.
use egos_project.Prelude.{
  ℕ, zero, suc, ◌+◌, ◌<◌, ◌≡◌, refl, ◌≢◌, ◌⊎◌, inl, inr, arith, ◌==◌, none, some, Run, ok, fatal,
  process_limit, unknown_syscall, Bool-cases,
}
use egos_project.Machine.{max_nprocess, idx2pid-ok}
use egos_project.Machine.Memory.{load32, store32}
use egos_project.Grass.Process.{
  unused, loading, is_unused, put, Table, Kernel, find_unused, take_slot, proc_alloc,
}
use egos_project.Grass.Scheduler.{Resume}
use egos_project.Grass.Syscall.{
  proc_syscall, dispatch, with_memory, sc_type, sc_retval, sys_recv_type, sys_send_type,
  sys_yield_type, sys_unused, msip,
}
use egos_project.Grass.Invariant.{IsConsistent}
use egos_project.Grass.Invariant.Yield.{proc_yield-Inv}
use egos_project.Grass.Invariant.Rendezvous.{IsLive, proc_send-IsLive}
use egos_project.Grass.Invariant.Receive.{proc_recv-IsLive}

dispatch-IsLive :
    (type : ℕ) (k k' : Kernel) (r : Resume) → IsLive k → dispatch type k ≡ ok (k', r) → IsLive k'
unfolding dispatch
dispatch-IsLive type k k' r live h = elim (Bool-cases (type == sys_recv_type)) [
  | inl recv ↦ proc_recv-IsLive k k' r live (rw recv at h)
  | inr other ↦ elim (Bool-cases (type == sys_send_type)) [
    | inl send ↦ proc_send-IsLive k k' r live (rw (other, send) at h)
    | inr other' ↦ elim (Bool-cases (type == sys_yield_type)) [
      | inl yield ↦ proc_yield-Inv k k' r live.0 (rw (other, other', yield) at h)
      | inr none' ↦ absurd (stop (rw (other, other', none') at h))
    ]
  ]
]
  where
    stop : ◌≡◌ {A = Run (Kernel × Resume)} (fatal unknown_syscall) (ok (k', r)) → ⊥
    stop e = cc

-- Whatever request a process leaves at SYSCALL_ARG, a system call that returns leaves a
-- consistent table, and the process that it returns to is the one that runs.
pub proc_syscall-IsLive :
    (k k' : Kernel) (r : Resume) → IsLive k → proc_syscall k ≡ ok (k', r) → IsLive k'
unfolding proc_syscall
proc_syscall-IsLive k k' r live h =
    dispatch-IsLive (load32 k.mem sc_type)
      (with_memory k (store32 msip 0 (store32 sc_type sys_unused (store32 sc_retval 0 k.mem)))) k' r
      live h

-- The slot that `proc_alloc` takes: the first unused one.
pub record Taken (f : Table) (i : ℕ) : Type 0 where
  pub in_range : i < max_nprocess
  pub free : (f i).status ≡ unused
  pub first : (j : ℕ) → j < i → (f j).status ≢ unused

find_unused-Taken :
    (left i : ℕ) (f : Table)
    → i + left ≡ max_nprocess
    → ((j : ℕ) → j < i → (f j).status ≢ unused)
    → ((find_unused left i f ≡ none) × ((j : ℕ) → j < max_nprocess → (f j).status ≢ unused))
      ⊎ ((n : ℕ) × (find_unused left i f ≡ some n) × Taken f n)
unfolding find_unused
find_unused-Taken zero i f e below = inl (refl, λ j h. below j (omega arith))
find_unused-Taken (suc left) i f e below = elim (Bool-cases (is_unused (f i).status)) [
  | inl here ↦
      rw here (inr (i, refl, record { in_range = omega arith; free = ground arith; first = below }))
  | inr off ↦ rw off (
      find_unused-Taken left (i + 1) f (omega arith) λ j h. elim (Bool-cases (j == i)) [
        | inl same ↦ let same' : j ≡ i = ground arith in rw same' (λ u. ground arith)
        | inr other ↦ below j (ground arith)
      ])
]

-- The table when slot `i` is loaded.
abbrev pub loaded : Table → ℕ → Table
loaded f i = put f i (record (f i) { pid = i + 1; status = loading })

loaded-IsConsistent :
    (f : Table) (c i : ℕ) → IsConsistent f c → Taken f i → IsConsistent (loaded f i) c
loaded-IsConsistent f c i h t = record {
  current = h.current;
  pids = λ j hj. ground (arith, h.pids j hj);
  one_running = λ j hj r. ground (arith, h.one_running j hj);
  no_missed =
      λ a b ha hb s. ground (arith, t.free, h.no_missed a b ha hb, h.pids a ha, h.pids b hb);
}

take_slot-ok :
    (k : Kernel) (i : ℕ)
    → i < max_nprocess
    → take_slot (some i) k ≡ ok (i + 1, record k { proc_set = loaded k.proc_set i })
unfolding take_slot
take_slot-ok k i h = rw (idx2pid-ok i h) refl

-- `proc_alloc` takes the first unused slot, whose pid is its number plus one, and changes no
-- other; it stops the machine only when all 16 are in use. The table stays consistent, and the
-- current process runs on.
pub proc_alloc_lem :
    (k : Kernel)
    → IsLive k
    → ((proc_alloc k ≡ fatal process_limit)
        × ((j : ℕ) → j < max_nprocess → (k.proc_set j).status ≢ unused))
      ⊎ ((i : ℕ) × Taken k.proc_set i
          × (proc_alloc k ≡ ok (i + 1, record k { proc_set = loaded k.proc_set i }))
          × IsLive (record k { proc_set = loaded k.proc_set i }))
unfolding proc_alloc
proc_alloc_lem k (h, live) =
    elim (find_unused-Taken max_nprocess 0 k.proc_set (omega arith) (λ j b. elim b [ ])) [
      | inl (e, full) ↦ inl (rw e (unfold take_slot in refl), full)
      | inr (i, e, t) ↦ inr (
        i,
        t,
        rw e (take_slot-ok k i t.in_range),
        (loaded-IsConsistent k.proc_set k.proc_curr_idx i h t, ground (arith, t.free)),
      )
    ]
