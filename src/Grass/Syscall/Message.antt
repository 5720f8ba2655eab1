-- ===== src/Grass/Syscall/Message.antt =====
-- What a message transfer moves: the bytes, and nothing that another process sees.
use egos_project.Prelude.{ℕ, ◌+◌, ◌<◌, ◌≡◌, refl, ◌≢◌, arith, true, false, List, some, ok}
use egos_project.Machine.{page_size}
use egos_project.Machine.Memory.{Outside, paste, paste_within, paste-Outside}
use egos_project.Earth.Mmu.{Mapping, Mmu, with_mem, soft_tlb_switch}
use egos_project.Earth.Mmu.Rows.{copied}
use egos_project.Earth.Mmu.Isolation.{HasRow, switched, soft_tlb_switch-ok}
use egos_project.Grass.Syscall.{msgcpy}

stay : (s : Mmu) (pid : ℕ) → s.curr_vm_pid ≡ some pid → soft_tlb_switch pid s ≡ ok s
unfolding soft_tlb_switch
stay s pid h = ground arith

-- From the running process `p` to `q`: the transfer succeeds, leaves the machine in the address
-- space of `q`, and `q` sees there the bytes that `p` sent.
pub msgcpy-delivers :
    (s : Mmu) (p q src dst size : ℕ) (ps qs : List Mapping)
    → s.curr_vm_pid ≡ some p
    → p ≢ q
    → HasRow s p ps
    → HasRow s q qs
    → 0 < size
    → size < page_size
    → (s' : Mmu) × (msgcpy p q src dst size s ≡ ok s')
      × (s'.curr_vm_pid ≡ some q)
      × ((i : ℕ) → i < size → s'.mem (dst + i) ≡ s.mem (src + i))
      × ((a : ℕ) → Outside dst size a → s'.mem a ≡ copied true qs (copied false ps s.mem) a)
unfolding msgcpy
msgcpy-delivers s p q src dst size ps qs curr ne hp hq low high =
    let buf = λ (i : ℕ). s.mem (src + i) in
    (
      with_mem (switched s ps q qs) (paste dst size buf (switched s ps q qs).mem),
      ground (arith, stay s p curr, soft_tlb_switch-ok s p q ps qs curr ne hp hq),
      refl,
      λ i h. paste_within dst size buf (switched s ps q qs).mem i h,
      λ a h. paste-Outside dst size buf (switched s ps q qs).mem a h,
    )
