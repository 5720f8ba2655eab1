-- ===== src/Grass/Invariant/Trapped.antt =====
-- A trap keeps the table consistent, whatever the hardware reports.
use egos_project.Prelude.{
  ℕ, ◌+◌, ◌-◌, ◌%◌, ◌≤◌, ◌≡◌, refl, sym, ap, inl, inr, arith, Bool, true, false, ◌&&◌, ◌==◌, ltb,
  leb, if◌then◌else◌, Run, ok, fatal, undefined, unknown_interrupt, assert, Bool-cases, >>=-ok,
  ok-injective,
}
use egos_project.Machine.{page_size, apps_stack_top, max_nprocess}
use egos_project.Earth.Mmu.{Mmu}
use egos_project.Grass.Process.{
  Process, Kernel, curr, curr_pid, with_mmu, gpid_shell, gpid_user_start,
}
use egos_project.Grass.Scheduler.{Resume, timer_reset}
use egos_project.Grass.Trap.{
  Trap, intr_id_soft, intr_id_timer, word_mod, set_curr, intr_entry, excp_entry, check_nested_trap,
  copy_stack, saved_stack, restored_stack, manage_userstack, handle, leave, ctx_entry, trap_handler,
}
use egos_project.Grass.Invariant.Yield.{proc_yield-Inv}
use egos_project.Grass.Invariant.Rendezvous.{IsLive}
use egos_project.Grass.Invariant.System.{proc_syscall-IsLive}

-- The fields that the invariant reads.
record Alike (p q : Process) : Type 0 where
  pid : p.pid ≡ q.pid
  status : p.status ≡ q.status
  sender : p.from_sender_pid ≡ q.from_sender_pid
  receiver : p.to_receiver_pid ≡ q.to_receiver_pid

same_fields : {p : Process} {sp mepc : ℕ} → Alike (record p { sp = sp; mepc = mepc }) p
same_fields = record { pid = refl; status = refl; sender = refl; receiver = refl }

set_curr-IsLive : (p : Process) (k : Kernel) → Alike p (curr k) → IsLive k → IsLive (set_curr p k)
set_curr-IsLive p k a (h, live) = (
  record {
    current = h.current;
    pids = λ i hi. ground (arith, h.pids i hi, a.pid, a.status);
    one_running = λ i hi r. ground (arith, h.one_running i hi);
    no_missed =
        λ i j hi hj s. ground (arith, h.no_missed i j hi hj, a.pid, a.status, a.sender, a.receiver);
  },
  ground (arith, a.status),
)

copy_stack-kernel :
    (save : Bool) (size : ℕ) (t t' : Trap)
    → copy_stack save size t ≡ ok t'
    → (s : Mmu) × (t'.kernel ≡ with_mmu t.kernel s)
copy_stack-kernel save size t t' h = elim (Bool-cases (size == 0)) [
  | inl none_left ↦
      (t.kernel.mmu, ap (λ (x : Trap). x.kernel) (sym (ok-injective (rw none_left at h))))
  | inr some_left ↦ elim (Bool-cases (leb max_nprocess (curr_pid t.kernel))) [
    | inl out ↦ absurd (lost (rw (some_left, out) at h))
    | inr inside ↦ copied save (rw (some_left, inside) at h)
  ]
]
  where
    lost : ◌≡◌ {A = Run Trap} undefined (ok t') → ⊥
    lost e = cc

    copied :
        (save : Bool)
        → ok (if save then saved_stack size t else restored_stack size t) ≡ ok t'
        → (s : Mmu) × (t'.kernel ≡ with_mmu t.kernel s)
    copied true e = (t.kernel.mmu, ap (λ (x : Trap). x.kernel) (sym (ok-injective e)))
    copied false e =
        ((restored_stack size t).kernel.mmu, ap (λ (x : Trap). x.kernel) (sym (ok-injective e)))

-- The stacks are copied from and to memory only.
manage_userstack-kernel :
    (save : Bool) (t t' : Trap)
    → manage_userstack save t ≡ ok t'
    → (s : Mmu) × (t'.kernel ≡ with_mmu t.kernel s)
unfolding manage_userstack
manage_userstack-kernel save t t' h =
    let size = (apps_stack_top + word_mod - (curr t.kernel).sp) % word_mod in
    elim (Bool-cases (leb 0x8000_0000 size)) [
      | inl wild ↦ absurd (lost (rw wild at h))
      | inr tame ↦
          let (_, _, copied) = >>=-ok (assert (leb size page_size)) _ (rw tame at h) in
          copy_stack-kernel save size t t' copied
    ]
  where
    lost : ◌≡◌ {A = Run Trap} undefined (ok t') → ⊥
    lost e = cc

-- An interrupt that returns, of any number and with ctrl+c or without, leaves a consistent table,
-- and the process that it returns to is the one that runs.
pub intr_entry-IsLive :
    (id : ℕ) (ctrl_c : Bool) (k k' : Kernel) (r : Resume)
    → IsLive k
    → intr_entry id ctrl_c k ≡ ok (k', r)
    → IsLive k'
unfolding intr_entry timer_reset
intr_entry-IsLive id ctrl_c k k' r live h =
    elim (Bool-cases (id == intr_id_timer && ltb (curr_pid k) gpid_shell)) [
      | inl server ↦ rw (← same (rw server at h)) live
      | inr other ↦ elim (Bool-cases (leb gpid_user_start (curr_pid k) && ctrl_c)) [
        | inl killed ↦ rw (← same (rw (other, killed) at h)) (
            set_curr-IsLive _ k
              (record { pid = refl; status = refl; sender = refl; receiver = refl }) live)
        | inr alive ↦ elim (Bool-cases (id == intr_id_soft)) [
          | inl soft ↦ proc_syscall-IsLive k k' r live (rw (other, alive, soft) at h)
          | inr hard ↦ elim (Bool-cases (id == intr_id_timer)) [
            | inl timer ↦ proc_yield-Inv k k' r live.0 (rw (other, alive, hard, timer) at h)
            | inr unknown ↦ absurd (stop (rw (other, alive, hard, unknown) at h))
          ]
        ]
      ]
    ]
  where
    same :
        {k1 : Kernel} {r1 : Resume}
        → ◌≡◌ {A = Run (Kernel × Resume)} (ok (k1, r1)) (ok (k', r))
        → k1 ≡ k'
    same e = ap (λ (p : Kernel × Resume). p.0) (ok-injective e)

    stop : ◌≡◌ {A = Run (Kernel × Resume)} (fatal unknown_interrupt) (ok (k', r)) → ⊥
    stop e = cc

exception_stops : (id : ℕ) (k k' : Kernel) (r : Resume) → excp_entry id k ≡ ok (k', r) → ⊥
unfolding excp_entry
exception_stops id k k' r h = cc

handle-IsLive :
    (mcause : ℕ) (ctrl_c : Bool) (k k' : Kernel) (r : Resume)
    → IsLive k
    → handle mcause ctrl_c k ≡ ok (k', r)
    → IsLive k' × (0x8000_0000 ≤ mcause % word_mod)
unfolding handle
handle-IsLive mcause ctrl_c k k' r live h =
    elim (Bool-cases (leb 0x8000_0000 (mcause % word_mod))) [
      | inl intr ↦
          (intr_entry-IsLive (mcause % 1024) ctrl_c k k' r live (rw intr at h), ground arith)
      | inr excp ↦ absurd (exception_stops (mcause % 1024) k k' r (rw excp at h))
    ]

leave-IsLive :
    (k : Kernel) (way r : Resume) (stacks : ℕ → ℕ → ℕ) (t' : Trap)
    → IsLive k
    → leave (k, way) stacks ≡ ok (t', r)
    → IsLive t'.kernel
unfolding leave
leave-IsLive k Resume.enter r stacks t' live h =
    let same : k ≡ t'.kernel = ap (λ (p : Trap × Resume). p.0.kernel) (ok-injective h) in
    rw (← same) live
leave-IsLive k Resume.resume r stacks t' live h =
    let (t1, restored, e) =
      >>=-ok (manage_userstack false (record { kernel = k; proc_stack = stacks })) _ h in
    let (s, kernel) = manage_userstack-kernel false _ t1 restored in
    let same : t1.kernel ≡ t'.kernel = ap (λ (p : Trap × Resume). p.0.kernel) (ok-injective e) in
    rw (← same, kernel) live

-- A trap that returns was an interrupt, and leaves a consistent table, in which the process that it
-- returns to is the one that runs.
pub trap_handler-IsLive :
    (mcause mepc handler_sp saved_sp : ℕ) (ctrl_c : Bool) (t t' : Trap) (r : Resume)
    → IsLive t.kernel
    → trap_handler mcause mepc handler_sp saved_sp ctrl_c t ≡ ok (t', r)
    → IsLive t'.kernel × (0x8000_0000 ≤ mcause % word_mod)
unfolding trap_handler ctx_entry
trap_handler-IsLive mcause mepc handler_sp saved_sp ctrl_c t t' r live h =
    let k1 : Kernel = set_curr (record (curr t.kernel) { sp = saved_sp }) t.kernel in
    let k2 : Kernel = set_curr (record (curr k1) { mepc = mepc }) k1 in
    let live2 : IsLive k2 =
      set_curr-IsLive _ k1 same_fields (set_curr-IsLive _ t.kernel same_fields live) in
    let (_, _, h1) = >>=-ok (check_nested_trap handler_sp) _ h in
    let (t1, saved, h2) =
      >>=-ok (manage_userstack true (record { kernel = k2; proc_stack = t.proc_stack })) _ h1 in
    let (out, handled, h3) = >>=-ok (handle mcause ctrl_c t1.kernel) _ h2 in
    let (s, e) = manage_userstack-kernel true _ t1 saved in
    let live1 : IsLive t1.kernel = rw e live2 in
    let (live3, intr) = handle-IsLive mcause ctrl_c t1.kernel out.0 out.1 live1 handled in
    (leave-IsLive out.0 out.1 r t1.proc_stack t' live3 h3, intr)
