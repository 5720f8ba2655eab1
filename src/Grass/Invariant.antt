-- ===== src/Grass/Invariant.antt =====
-- What holds of the process table between two operations of the kernel.
pub mod Yield
pub mod Rendezvous
pub mod Receive
pub mod System
pub mod Free
pub mod Trapped
use egos_project.Prelude.{ℕ, ◌+◌, ◌<◌, ◌≡◌, ◌⊎◌, true, false}
use egos_project.Machine.{max_nprocess}
use egos_project.Grass.Process.{unused, running, Table, Kernel}
use egos_project.Grass.Syscall.{sends_to, accepts}

-- A slot's pid is its number plus one, or 0 before its first use. Only the current process runs.
-- No process waits to send to one that waits to receive from it.
pub record IsConsistent (f : Table) (c : ℕ) : Type 0 where
  pub current : c < max_nprocess
  pub pids :
      (i : ℕ) → i < max_nprocess → ((f i).pid ≡ i + 1) ⊎ (((f i).status ≡ unused) × ((f i).pid ≡ 0))
  pub one_running : (i : ℕ) → i < max_nprocess → (f i).status ≡ running → i ≡ c
  pub no_missed :
      (i j : ℕ)
      → i < max_nprocess
      → j < max_nprocess
      → sends_to (f i) (f j).pid ≡ true
      → accepts (f j) (f i).pid ≡ false

abbrev pub Inv : Kernel → Type 0
Inv k = IsConsistent k.proc_set k.proc_curr_idx
