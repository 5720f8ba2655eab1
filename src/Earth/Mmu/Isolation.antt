-- ===== src/Earth/Mmu/Isolation.antt =====
-- A process finds its pages as it left them, whatever ran in between.
use egos_project.Prelude.{
  ℕ, ◌+◌, ◌≤◌, ◌<◌, ◌≡◌, ◌≢◌, ◌∙◌, refl, sym, ap, ok-injective, arith, Bool, true, false, List, [],
  ◌∷◌, some, All, All-mono, All-get_elem?, get_elem?, ok,
}
use egos_project.Machine.{page_size, free_mem_start, max_nprocess}
use egos_project.Machine.Memory.{Memory}
use egos_project.Earth.Mmu.{Mapping, Mmu, with_mem, memcopy_helper, soft_tlb_switch}
use egos_project.Earth.Mmu.Rows.{
  PrivateApart, IsRow, copied, copy_row-copied, Avoids, copied_outside, IsRow-IsPlaced,
  copied_within,
}

-- Process `pid` has the pages `row`. The pid 16 has no row in `app_pages`.
pub record HasRow (s : Mmu) (pid : ℕ) (row : List Mapping) : Type 0 where
  pub positive : 0 < pid
  pub in_range : pid ≤ max_nprocess
  pub found : get_elem? s.app_pages pid ≡ some row
  pub is_row : IsRow row

memcopy_helper-ok :
    (s : Mmu) (pid : ℕ) (row : List Mapping) (dir : Bool)
    → HasRow s pid row
    → memcopy_helper pid dir s ≡ ok (with_mem s (copied dir row s.mem))
unfolding memcopy_helper
memcopy_helper-ok s pid row dir h = ground (arith, copy_row-copied dir row s.mem h.is_row)

-- The state after a switch from `p` to `q`.
abbrev pub switched : Mmu → List Mapping → ℕ → List Mapping → Mmu
switched s ps q qs = record (with_mem s (copied true qs (copied false ps s.mem))) {
  curr_vm_pid = some q;
}

pub soft_tlb_switch-ok :
    (s : Mmu) (p q : ℕ) (ps qs : List Mapping)
    → s.curr_vm_pid ≡ some p
    → p ≢ q
    → HasRow s p ps
    → HasRow s q qs
    → soft_tlb_switch q s ≡ ok (switched s ps q qs)
unfolding soft_tlb_switch
soft_tlb_switch-ok s p q ps qs curr ne hp hq = ground (
  arith,
  memcopy_helper-ok s p ps false hp,
  memcopy_helper-ok (with_mem s (copied false ps s.mem)) q qs true (record {
    positive = hq.positive;
    in_range = hq.in_range;
    found = hq.found;
    is_row = hq.is_row;
  }),
)

-- Copying out touches no private page.
copied_out_private :
    (qs : List Mapping) (mem : Memory) (a : ℕ)
    → IsRow qs
    → free_mem_start ≤ a
    → copied true qs mem a ≡ mem a
copied_out_private qs mem a h high = copied_outside true qs mem a (low qs h)
  where
    low : (ms : List Mapping) → IsRow ms → All (Avoids true a) ms
    low [] r = tt
    low (m ∷ ms) r = (ground arith, low ms r.2)

module _ (s : Mmu) (p q : ℕ) (ps qs : List Mapping) (curr : s.curr_vm_pid ≡ some p) (ne : p ≢ q)
    (hp : HasRow s p ps) (hq : HasRow s q qs) (apart : All (λ m. All (PrivateApart m) qs) ps) where
  module _ (k off : ℕ) {x : Mapping} (slot : get_elem? ps k ≡ some x) (live : x.private_addr ≢ 0)
      (inside : off < page_size) where
    high : free_mem_start ≤ x.private_addr + off
    high = let placed = IsRow-IsPlaced ps k hp.is_row slot in ground arith

    -- While `q` runs, the private page holds what `p` saw.
    saved : (switched s ps q qs).mem (x.private_addr + off) ≡ s.mem (x.exec_addr + off)
    saved =
        copied_out_private qs (copied false ps s.mem) (x.private_addr + off) hq.is_row high
        ∙ copied_within false ps s.mem k off hp.is_row slot live inside

    -- Copying the pages of `q` back spares it.
    spared :
        (mem : Memory) → copied false qs mem (x.private_addr + off) ≡ mem (x.private_addr + off)
    spared mem = copied_outside false qs mem (x.private_addr + off) (
        All-mono (PrivateApart x) (Avoids false (x.private_addr + off)) qs (λ n h. ground arith)
          (All-get_elem? (λ m. All (PrivateApart m) qs) ps k apart slot))

  -- Process `p` runs, the machine switches to `q`, which may write anything below the free
  -- memory, and back. The second switch succeeds, and `p` sees every byte of its pages as it was.
  pub switch_isolates :
      (run : Mmu) (mem : Memory) (k off : ℕ) {x : Mapping}
      → soft_tlb_switch q s ≡ ok run
      → ((a : ℕ) → free_mem_start ≤ a → mem a ≡ run.mem a)
      → get_elem? ps k ≡ some x
      → x.private_addr ≢ 0
      → off < page_size
      → (back : Mmu) × (soft_tlb_switch p (with_mem run mem) ≡ ok back)
        × (back.mem (x.exec_addr + off) ≡ s.mem (x.exec_addr + off))
  switch_isolates run mem k off {x} e kept slot live inside =
      let same : run ≡ switched s ps q qs =
        ok-injective (sym e ∙ soft_tlb_switch-ok s p q ps qs curr ne hp hq) in
      (
        switched (with_mem (switched s ps q qs) mem) qs p ps,
        rw same (
            soft_tlb_switch-ok (with_mem (switched s ps q qs) mem) q p qs ps refl (λ e. ne (sym e))
              (record {
                positive = hq.positive;
                in_range = hq.in_range;
                found = hq.found;
                is_row = hq.is_row;
              })
              (record {
                positive = hp.positive;
                in_range = hp.in_range;
                found = hp.found;
                is_row = hp.is_row;
              })),
        copied_within true ps (copied false qs mem) k off hp.is_row slot live inside
            ∙ spared k off slot live inside mem
            ∙ kept (x.private_addr + off) (high k off slot live inside)
            ∙ ap (λ (r : Mmu). r.mem (x.private_addr + off)) same
            ∙ saved k off slot live inside,
      )
