-- ===== src/Grass/Syscall/User.antt =====
-- grass/syscall.c, the half that runs in the process: sys_yield, sys_send and sys_recv up to the
-- interrupt that sys_invoke raises. `none` stands for the result -1.
use egos_project.Prelude.{
  ℕ, ◌+◌, ◌<◌, ◌≤◌, ◌≡◌, refl, ◌∙◌, ◌⊎◌, inl, inr, arith, ltb, if◌then◌else◌, Option, none, some,
  Run, ok, assert, Bool-cases, ◌>>◌,
}
use egos_project.Machine.{max_nprocess}
use egos_project.Machine.Memory.{
  Memory, Outside, memcpy, load32, store32, memcpy-Outside, memcpy_within, store32-Outside,
  load32-store32, load32_ext,
}
use egos_project.Grass.Syscall.{
  syscall_msg_len, sys_recv_type, sys_send_type, sys_yield_type, sc_type, sc_sender, sc_receiver,
  sc_content, msip,
}

-- The write that raises the interrupt; the wait for the kernel follows it.
unfoldable pub sys_invoke : Memory → Memory
sys_invoke m = store32 msip 1 m

unfoldable pub sys_yield : Memory → Memory
unfolding sys_invoke
sys_yield m = sys_invoke (store32 sc_type sys_yield_type m)

unfoldable pub sys_send : (receiver msg size : ℕ) → Memory → Option Memory
unfolding sys_invoke
sys_send receiver msg size m =
    if ltb syscall_msg_len size
    then none
    else some (
        sys_invoke (
          memcpy sc_content msg size
            (store32 sc_receiver receiver (store32 sc_type sys_send_type m))))

-- The part before the wait; an expected sender that is not positive counts as 0.
unfoldable pub sys_recv : (sender size : ℕ) → Memory → Run (Option Memory)
unfolding sys_invoke
sys_recv sender size m = if ltb syscall_msg_len size then ok none else do
  assert (ltb sender max_nprocess)
  ok (some (sys_invoke (store32 sc_sender sender (store32 sc_type sys_recv_type m))))

-- The request that the kernel finds in `m'`: its type, its receiver, and its first `size` bytes.
pub record Requests (receiver msg size : ℕ) (m m' : Memory) : Type 0 where
  pub type : load32 m' sc_type ≡ sys_send_type
  pub to : load32 m' sc_receiver ≡ receiver
  pub content : (i : ℕ) → i < size → m' (sc_content + i) ≡ m (msg + i)

-- A word that the later writes do not touch is read as it was written.
load32-kept :
    (a : ℕ) (m m' : Memory) → ((k : ℕ) → k < 4 → m' (a + k) ≡ m (a + k)) → load32 m' a ≡ load32 m a
load32-kept a m m' h =
    let zero_offset : a + 0 ≡ a = omega arith in
    let first = h 0 (omega arith) in load32_ext m m' a a h (rw zero_offset at first)

written-Requests :
    (receiver msg size : ℕ) (m : Memory)
    → size ≤ syscall_msg_len
    → receiver < 0x1_0000_0000
    → ((i : ℕ) → i < size → Outside sc_type 1036 (msg + i))
    → Requests receiver msg size m (
        store32 msip 1 (
          memcpy sc_content msg size
            (store32 sc_receiver receiver (store32 sc_type sys_send_type m))))
written-Requests receiver msg size m fits small apart =
    let m1 = store32 sc_type sys_send_type m in
    let m2 = store32 sc_receiver receiver m1 in
    let m3 = memcpy sc_content msg size m2 in
    record {
      type =
          load32-kept sc_type m1 (store32 msip 1 m3) (λ k h.
            store32-Outside msip 1 m3 (sc_type + k) (inr (omega arith))
            ∙ memcpy-Outside sc_content msg size m2 (sc_type + k) (inl (omega arith))
            ∙ store32-Outside sc_receiver receiver m1 (sc_type + k) (inl (omega arith)))
          ∙ load32-store32 sc_type sys_send_type m (omega arith);
      to =
          load32-kept sc_receiver m2 (store32 msip 1 m3) (λ k h.
            store32-Outside msip 1 m3 (sc_receiver + k) (inr (omega arith))
            ∙ memcpy-Outside sc_content msg size m2 (sc_receiver + k) (inl (omega arith)))
          ∙ load32-store32 sc_receiver receiver m1 small;
      content = λ i h.
          store32-Outside msip 1 m3 (sc_content + i) (inr (omega arith))
          ∙ memcpy_within sc_content msg size m2 i h
          ∙ unwritten receiver msg m i (apart i h);
    }
  where
    unwritten :
        (receiver msg : ℕ) (m : Memory) (i : ℕ)
        → Outside sc_type 1036 (msg + i)
        → store32 sc_receiver receiver (store32 sc_type sys_send_type m) (msg + i) ≡ m (msg + i)
    unwritten receiver msg m i (inl low) =
        store32-Outside sc_receiver receiver _ (msg + i) (inl (omega arith))
        ∙ store32-Outside sc_type sys_send_type m (msg + i) (inl (omega arith))
    unwritten receiver msg m i (inr high) =
        store32-Outside sc_receiver receiver _ (msg + i) (inr (omega arith))
        ∙ store32-Outside sc_type sys_send_type m (msg + i) (inr (omega arith))

-- sys_send refuses a message that is longer than the request has room for; otherwise, with the
-- message outside the request, the kernel's reads give the type, the receiver and the message.
pub sys_send-Requests :
    (receiver msg size : ℕ) (m : Memory)
    → receiver < 0x1_0000_0000
    → ((i : ℕ) → i < size → Outside sc_type 1036 (msg + i))
    → ((syscall_msg_len < size) × (sys_send receiver msg size m ≡ none))
      ⊎ ((m' : Memory) × (size ≤ syscall_msg_len)
          × (sys_send receiver msg size m ≡ some m')
          × Requests receiver msg size m m')
unfolding sys_send sys_invoke
sys_send-Requests receiver msg size m small apart = elim (Bool-cases (ltb syscall_msg_len size)) [
  | inl long ↦ inl (ground arith, rw long refl)
  | inr short ↦
      let fits : size ≤ syscall_msg_len = ground arith in
      inr (_, fits, rw short refl, written-Requests receiver msg size m fits small apart)
]
