-- ===== src/Grass/Invariant/Rendezvous.antt =====
-- Sending keeps the table consistent: no process is left waiting for a partner that waits for it.
use egos_project.Prelude.{
  ℕ, ◌+◌, ◌-◌, ◌≤◌, ◌<◌, ◌≡◌, sym, ◌≢◌, inl, inr, arith, true, false, ◌||◌, ◌==◌, ok, assert,
  Bool-cases, >>=-ok, ok-injective,
}
use egos_project.Machine.{max_nprocess, pid2idx}
use egos_project.Machine.Memory.{load32, store32}
use egos_project.Earth.Mmu.{Mmu}
use egos_project.Grass.Process.{
  unused, running, runnable, wait_to_send, wait_to_recv, put, Table, Kernel, curr_pid, with_mmu,
  with_status, proc_set_status, proc_set_runnable,
}
use egos_project.Grass.Scheduler.{Resume}
use egos_project.Grass.Syscall.{
  sends_to, accepts, msgcpy, rendezvous_send, proc_send, with_memory, sc_sender, sc_receiver,
  sys_msg_size,
}
use egos_project.Grass.Invariant.{IsConsistent, Inv}
use egos_project.Grass.Invariant.Yield.{put_status, proc_yield-Inv}

-- The table when the current process waits to send.
abbrev pub send_blocked : Table → ℕ → ℕ → Table
send_blocked f c receiver =
    put f c (record (f c) { status = wait_to_send; to_receiver_pid = receiver })

-- The table when it waits to receive.
abbrev pub recv_blocked : Table → ℕ → ℕ → Table
recv_blocked f c sender = put f c (record (f c) { status = wait_to_recv; from_sender_pid = sender })

module _ (f : Table) (c : ℕ) (h : IsConsistent f c) where
  -- A process that is taken out of its wait.
  pub wake-IsConsistent :
      (n : ℕ) → n < max_nprocess → (f n).status ≢ unused → IsConsistent (put_status f n runnable) c
  wake-IsConsistent n hn live = record {
    current = h.current;
    pids = λ i hi. ground (arith, h.pids i hi);
    one_running = λ i hi r. ground (arith, h.one_running i hi);
    no_missed = λ i j hi hj s. ground (arith, h.no_missed i j hi hj);
  }

  module _ (live : (f c).status ≡ running) where
    pub send_blocked-IsConsistent :
        (receiver n : ℕ)
        → n < max_nprocess
        → receiver ≡ n + 1
        → (f n).pid ≡ receiver
        → accepts (f n) (f c).pid ≡ false
        → IsConsistent (send_blocked f c receiver) c
    send_blocked-IsConsistent receiver n hn e p refused = record {
      current = h.current;
      pids = λ i hi. ground (arith, h.pids i hi);
      one_running = λ i hi r. ground (arith, h.one_running i hi);
      no_missed = λ i j hi hj s. ground (arith, h.no_missed i j hi hj, h.pids j hj);
    }

    pub recv_blocked-IsConsistent :
        (sender : ℕ)
        → ((i : ℕ)
            → i < max_nprocess
            → sends_to (f i) (f c).pid ≡ true
            → (sender == (f i).pid || sender == 0) ≡ false)
        → IsConsistent (recv_blocked f c sender) c
    recv_blocked-IsConsistent sender nobody = record {
      current = h.current;
      pids = λ i hi. ground (arith, h.pids i hi);
      one_running = λ i hi r. ground (arith, h.one_running i hi);
      no_missed = λ i j hi hj s. ground (arith, h.no_missed i j hi hj, nobody i hi);
    }

-- The two ways in which `rendezvous_send` returns.
pub data Sent (receiver : ℕ) (k k' : Kernel) : Type 0 where
  blocked :
      1 ≤ receiver
      → receiver ≤ max_nprocess
      → (k.proc_set (receiver - 1)).pid ≡ receiver
      → accepts (k.proc_set (receiver - 1)) (curr_pid k) ≡ false
      → k' ≡ record k { proc_set = send_blocked k.proc_set k.proc_curr_idx receiver }
      → Sent receiver k k'
  delivered :
      (s : Mmu)
      → 1 ≤ receiver
      → receiver ≤ max_nprocess
      → accepts (k.proc_set (receiver - 1)) (curr_pid k) ≡ true
      → msgcpy (curr_pid k) receiver sc_sender sc_sender sys_msg_size k.mmu ≡ ok s
      → k' ≡ with_status (with_mmu k s) (receiver - 1) runnable
      → Sent receiver k k'

pub runnable_lem :
    (k k' : Kernel) (pid : ℕ)
    → proc_set_runnable pid k ≡ ok k'
    → (k' ≡ with_status k (pid - 1) runnable) × (1 ≤ pid) × (pid ≤ max_nprocess)
unfolding proc_set_runnable proc_set_status pid2idx
runnable_lem k k' pid h = ground arith

rendezvous_send-Sent :
    (receiver : ℕ) (k k' : Kernel) → rendezvous_send receiver k ≡ ok k' → Sent receiver k k'
unfolding rendezvous_send
rendezvous_send-Sent receiver k k' h =
    let (i, at, h1) = >>=-ok (pid2idx receiver) _ h in
    let (_, mine, h2) = >>=-ok (assert ((k.proc_set i).pid == receiver)) _ h1 in
    let place : (i ≡ receiver - 1) × (1 ≤ receiver) × (receiver ≤ max_nprocess) =
      unfold pid2idx in ground arith in
    let owner : (k.proc_set (receiver - 1)).pid ≡ receiver = ground arith in
    elim (Bool-cases (accepts (k.proc_set i) (curr_pid k))) [
      | inl yes' ↦
          let (s, sent, h3) =
            >>=-ok (msgcpy (curr_pid k) receiver sc_sender sc_sender sys_msg_size k.mmu) _
              (rw yes' at h2) in
          let (e, _, _) = runnable_lem (with_mmu k s) k' receiver h3 in
          delivered s place.1 place.2 (rw (← place.0) yes') sent e
      | inr no' ↦
          blocked place.1 place.2 owner (rw (← place.0) no') (sym (ok-injective (rw no' at h2)))
    ]

-- The current process runs, and the table is consistent: the state in which a trap is taken.
abbrev pub IsLive : Kernel → Type 0
IsLive k = Inv k × ((k.proc_set k.proc_curr_idx).status ≡ running)

Sent-Inv : (receiver : ℕ) (k k' : Kernel) → IsLive k → Sent receiver k k' → Inv k'
Sent-Inv receiver k k' (h, live) (blocked low high owner refused e) = rw e (
    send_blocked-IsConsistent k.proc_set k.proc_curr_idx h live receiver (receiver - 1)
      (omega arith) (omega arith) owner refused)
Sent-Inv receiver k k' (h, live) (delivered s low high accepted sent e) = rw e (
    wake-IsConsistent k.proc_set k.proc_curr_idx h (receiver - 1) (omega arith) (λ u. ground arith))

-- A send that returns, blocked or delivered, leaves a consistent table and a running process.
pub proc_send-IsLive :
    (k k' : Kernel) (r : Resume) → IsLive k → proc_send k ≡ ok (k', r) → IsLive k'
unfolding proc_send
proc_send-IsLive k k' r live h =
    let k1 : Kernel = with_memory k (store32 sc_sender (curr_pid k) k.mem) in
    let receiver : ℕ = load32 k1.mem sc_receiver in
    let (k2, sent, yielded) = >>=-ok (rendezvous_send receiver k1) _ h in
    proc_yield-Inv k2 k' r (Sent-Inv receiver k1 k2 live (rendezvous_send-Sent receiver k1 k2 sent))
      yielded
