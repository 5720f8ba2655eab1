-- ===== src/Grass/Invariant/Receive.antt =====
-- Receiving keeps the table consistent: a process that waits does so because no process waits to
-- send to it.
use egos_project.Prelude.{
  ℕ, zero, suc, ◌+◌, ◌-◌, ◌≤◌, ◌<◌, ◌≡◌, sym, subst, ◌∙◌, ◌⊎◌, inl, inr, arith, true, false, ◌||◌,
  ◌==◌, ltb, if◌then◌else◌, Option, none, some, ok, assert, Bool-cases, >>=-ok, ok-injective,
}
use egos_project.Machine.{max_nprocess, pid2idx}
use egos_project.Machine.Memory.{load32}
use egos_project.Grass.Process.{put, Table, Kernel, curr, curr_pid, with_mmu}
use egos_project.Grass.Scheduler.{Resume}
use egos_project.Grass.Syscall.{
  sends_to, msgcpy, rendezvous_recv, proc_recv, last_sender, choose_sender, sc_sender, sys_msg_size,
}
use egos_project.Grass.Invariant.{IsConsistent, Inv}
use egos_project.Grass.Invariant.Yield.{proc_yield-Inv}
use egos_project.Grass.Invariant.Rendezvous.{
  IsLive, wake-IsConsistent, recv_blocked-IsConsistent, runnable_lem,
}

-- The loop of `proc_recv` finds nobody only if nobody in its range sends to the receiver, and
-- whom it finds, beyond what it was given, sends to the receiver.
last_sender-none :
    (left i : ℕ) (found : Option ℕ) (receiver : ℕ) (f : Table)
    → last_sender left i found receiver f ≡ none
    → (found ≡ none) × ((j : ℕ) → i ≤ j → j < i + left → sends_to (f j) receiver ≡ false)
unfolding last_sender
last_sender-none zero i found receiver f h = (h, λ j p q. absurd (omega arith))
last_sender-none (suc left) i found receiver f h =
    let (e, rest) = last_sender-none left (i + 1) _ receiver f h in
    (
      ground arith,
      λ j p q. elim (Bool-cases (j == i)) [
        | inl same ↦ let same' : j ≡ i = ground arith in rw same' (ground arith)
        | inr other ↦ rest j (ground arith) (omega arith)
      ],
    )

last_sender-some :
    (left i : ℕ) (found : Option ℕ) (receiver sender : ℕ) (f : Table)
    → last_sender left i found receiver f ≡ some sender
    → (found ≡ some sender)
      ⊎ ((j : ℕ) × (j < i + left) × (sends_to (f j) receiver ≡ true) × ((f j).pid ≡ sender))
unfolding last_sender
last_sender-some zero i found receiver sender f h = inl h
last_sender-some (suc left) i found receiver sender f h =
    elim (last_sender-some left (i + 1) _ receiver sender f h) [
      | inl e ↦ elim (Bool-cases (sends_to (f i) receiver)) [
        | inl this ↦ inr (i, omega arith, this, ground arith)
        | inr other ↦ inl (ground arith)
      ]
      | inr (j, p, q, e) ↦ inr (j, omega arith, q, e)
    ]

-- Whom `proc_recv` may take a message from.
abbrev pub Offers : Table → ℕ → ℕ → ℕ → Type 0
Offers f receiver exp_sender i =
    (sends_to (f i) receiver ≡ true) × ((exp_sender == (f i).pid || exp_sender == 0) ≡ true)

-- The choice is a process that offers a message, and there is none only if no process does.
pub data Choice (f : Table) (receiver exp_sender : ℕ) : Option ℕ → Type 0 where
  nobody :
      ((i : ℕ)
        → i < max_nprocess
        → sends_to (f i) receiver ≡ true
        → (exp_sender == (f i).pid || exp_sender == 0) ≡ false)
      → Choice f receiver exp_sender none
  offers :
      (i : ℕ) {sender : ℕ}
      → i < max_nprocess
      → sender ≡ i + 1
      → (f i).pid ≡ sender
      → Offers f receiver exp_sender i
      → Choice f receiver exp_sender (some sender)

module _ (f : Table) (c receiver : ℕ) (h : IsConsistent f c) where
  Choice-any :
      (o : Option ℕ) → last_sender max_nprocess 0 none receiver f ≡ o → Choice f receiver 0 o
  Choice-any none e =
      let (_, off) = last_sender-none max_nprocess 0 none receiver f e in
      nobody λ i hi s. absurd (clash i s (off i (omega arith) (omega arith)))
    where
      clash : (i : ℕ) → sends_to (f i) receiver ≡ true → sends_to (f i) receiver ≡ false → ⊥
      clash i s t = cc
  Choice-any (some sender) e = elim (last_sender-some max_nprocess 0 none receiver sender f e) [
    | inl n ↦ absurd (clash n)
    | inr (j, p, q, mine) ↦
        let at : (f j).pid ≡ j + 1 = ground (arith, h.pids j (omega arith)) in
        offers j (omega arith) (sym mine ∙ at) mine (q, ground arith)
  ]
    where
      clash : ◌≡◌ {A = Option ℕ} none (some sender) → ⊥
      clash n = cc

  Choice-one :
      (exp_sender : ℕ)
      → 1 ≤ exp_sender
      → exp_sender < max_nprocess
      → Choice f receiver exp_sender
          (if sends_to (f (exp_sender - 1)) receiver then some exp_sender else none)
  Choice-one exp_sender low high = elim (Bool-cases (sends_to (f (exp_sender - 1)) receiver)) [
    | inl offer ↦
        let at : (f (exp_sender - 1)).pid ≡ exp_sender =
          ground (arith, h.pids (exp_sender - 1) (omega arith)) in
        rw offer (offers (exp_sender - 1) (omega arith) (omega arith) at (offer, ground arith))
    | inr off ↦ rw off (
        nobody λ i hi s. elim (Bool-cases (i == exp_sender - 1)) [
          | inl same ↦ let same' : i ≡ exp_sender - 1 = ground arith in ground arith
          | inr other ↦ ground (arith, h.pids i hi)
        ])
  ]

pub choose_sender-Choice :
    (exp_sender : ℕ) (k : Kernel) (o : Option ℕ)
    → Inv k
    → exp_sender < max_nprocess
    → choose_sender exp_sender k ≡ ok o
    → Choice k.proc_set (curr_pid k) exp_sender o
unfolding choose_sender
choose_sender-Choice exp_sender k o h high e = elim (Bool-cases (exp_sender == 0)) [
  | inl any ↦
      let zero' : exp_sender ≡ 0 = ground arith in
      rw zero' (Choice-any k.proc_set k.proc_curr_idx (curr_pid k) h o (ok-injective (rw any at e)))
  | inr one ↦
      let low : 1 ≤ exp_sender = ground arith in
      let (i, at, e') = >>=-ok (pid2idx exp_sender) _ (rw one at e) in
      let place : i ≡ exp_sender - 1 = unfold pid2idx in ground arith in
      subst (Choice k.proc_set (curr_pid k) exp_sender) (ok-injective (rw place at e'))
        (Choice-one k.proc_set k.proc_curr_idx (curr_pid k) h exp_sender low high)
]

rendezvous_recv-Inv :
    (o : Option ℕ) (exp_sender : ℕ) (k k' : Kernel)
    → IsLive k
    → (curr k).from_sender_pid ≡ exp_sender
    → Choice k.proc_set (curr_pid k) exp_sender o
    → rendezvous_recv o k ≡ ok k'
    → Inv k'
unfolding rendezvous_recv
rendezvous_recv-Inv none exp_sender k k' (h, live) e (nobody n) r = rw (← ok-injective r) (
    recv_blocked-IsConsistent k.proc_set k.proc_curr_idx h live (curr k).from_sender_pid
      (λ i hi s. rw e (n i hi s)))
rendezvous_recv-Inv (some sender) exp_sender k k' (h, live) e (offers i hi at owner offer) r =
    let (s, sent, r') =
      >>=-ok (msgcpy sender (curr_pid k) sc_sender sc_sender sys_msg_size k.mmu) _ r in
    let (done, low, high) = runnable_lem (with_mmu k s) k' sender r' in
    let place : sender - 1 ≡ i = omega arith in
    rw (done, place)
      (wake-IsConsistent k.proc_set k.proc_curr_idx h i hi (λ u. ground (arith, offer.0)))

-- `from_sender_pid` of the running process may change.
abbrev expecting : Kernel → ℕ → Kernel
expecting k exp_sender = record k {
  proc_set = put k.proc_set k.proc_curr_idx (record (curr k) { from_sender_pid = exp_sender });
}

expecting-IsLive : (k : Kernel) (exp_sender : ℕ) → IsLive k → IsLive (expecting k exp_sender)
expecting-IsLive k exp_sender (h, live) = (
  record {
    current = h.current;
    pids = λ i hi. ground (arith, h.pids i hi);
    one_running = λ i hi r. ground (arith, h.one_running i hi);
    no_missed = λ i j hi hj s. ground (arith, h.no_missed i j hi hj);
  },
  ground arith,
)

-- A receive that returns, blocked or served, leaves a consistent table and a running process.
pub proc_recv-IsLive :
    (k k' : Kernel) (r : Resume) → IsLive k → proc_recv k ≡ ok (k', r) → IsLive k'
unfolding proc_recv
proc_recv-IsLive k k' r live h =
    let exp_sender : ℕ = load32 k.mem sc_sender in
    let (_, bound, h1) = >>=-ok (assert (ltb exp_sender max_nprocess)) _ h in
    let k1 : Kernel = expecting k exp_sender in
    let live1 : IsLive k1 = expecting-IsLive k exp_sender live in
    let (o, choice, h2) = >>=-ok (choose_sender exp_sender k1) _ h1 in
    let (k2, met, yielded) = >>=-ok (rendezvous_recv o k1) _ h2 in
    proc_yield-Inv k2 k' r
      (rendezvous_recv-Inv o exp_sender k1 k2 live1 (ground arith)
        (choose_sender-Choice exp_sender k1 o live1.0 (ground arith) choice) met)
      yielded
