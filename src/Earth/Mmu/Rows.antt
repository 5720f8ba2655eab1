-- ===== src/Earth/Mmu/Rows.antt =====
-- What copying the pages of one process does to the memory.
use egos_project.Prelude.{
  ℕ, zero, suc, ◌+◌, ◌≤◌, ◌<◌, ◌≡◌, refl, ◌∙◌, ◌≢◌, ◌⊎◌, arith, Bool, true, false, List, [], ◌∷◌,
  some, ◌==◌, if◌then◌else◌, All, All-mono, subst, get_elem?, ok,
}
use egos_project.Machine.{page_size, free_mem_start}
use egos_project.Machine.Memory.{Memory, Outside, memcpy, memcpy-Outside, memcpy_within}
use egos_project.Earth.Mmu.{Mapping, copy_src, copy_dst, copy_page, copy_row}

-- Two pages that share no address.
abbrev pub Apart : ℕ → ℕ → Type 0
Apart a b = (a + page_size ≤ b) ⊎ (b + page_size ≤ a)

-- A slot is empty, or maps a page of the free memory to an address below it.
abbrev pub IsPlaced : Mapping → Type 0
IsPlaced m =
    (m.private_addr ≡ 0)
    ⊎ ((m.exec_addr ≢ 0)
        × (m.exec_addr + page_size ≤ free_mem_start)
        × (free_mem_start ≤ m.private_addr))

-- Two slots of one process.
abbrev pub Disjoint : Mapping → Mapping → Type 0
Disjoint m n =
    (m.private_addr ≡ 0)
    ⊎ (n.private_addr ≡ 0)
    ⊎ (Apart m.private_addr n.private_addr × Apart m.exec_addr n.exec_addr)

-- Two slots of different processes, which share the addresses where the pages are seen.
abbrev pub PrivateApart : Mapping → Mapping → Type 0
PrivateApart m n = (m.private_addr ≡ 0) ⊎ (n.private_addr ≡ 0) ⊎ Apart m.private_addr n.private_addr

abbrev pub IsRow : List Mapping → Type 0
IsRow [] = Unit {0}
IsRow (m ∷ ms) = IsPlaced m × All (Disjoint m) ms × IsRow ms

-- The memory after the loop, where no assertion fails.
copied_page : Bool → Mapping → Memory → Memory
copied_page dir m mem =
    if m.private_addr == 0 then mem else memcpy (copy_dst dir m) (copy_src dir m) page_size mem

pub copied : Bool → List Mapping → Memory → Memory
copied dir [] mem = mem
copied dir (m ∷ ms) mem = copied dir ms (copied_page dir m mem)

copy_page-copied :
    (dir : Bool) (m : Mapping) (mem : Memory)
    → IsPlaced m
    → copy_page dir m mem ≡ ok (copied_page dir m mem)
unfolding copy_page copied_page
copy_page-copied dir m mem h = ground arith

pub copy_row-copied :
    (dir : Bool) (ms : List Mapping) (mem : Memory)
    → IsRow ms
    → copy_row dir ms mem ≡ ok (copied dir ms mem)
unfolding copy_row copied
copy_row-copied dir [] mem h = refl
copy_row-copied dir (m ∷ ms) mem h =
    rw (copy_page-copied dir m mem h.0) (copy_row-copied dir ms (copied_page dir m mem) h.2)

-- The loop writes nothing at `a`.
abbrev pub Avoids : Bool → ℕ → Mapping → Type 0
Avoids dir a m = (m.private_addr ≡ 0) ⊎ Outside (copy_dst dir m) page_size a

copied_page_outside :
    (dir : Bool) (m : Mapping) (mem : Memory) (a : ℕ)
    → Avoids dir a m
    → copied_page dir m mem a ≡ mem a
unfolding copied_page
copied_page_outside dir m mem a h =
    ground (arith, memcpy-Outside (copy_dst dir m) (copy_src dir m) page_size mem a)

pub copied_outside :
    (dir : Bool) (ms : List Mapping) (mem : Memory) (a : ℕ)
    → All (Avoids dir a) ms
    → copied dir ms mem a ≡ mem a
unfolding copied
copied_outside dir [] mem a h = refl
copied_outside dir (m ∷ ms) mem a h =
    copied_outside dir ms (copied_page dir m mem) a h.1 ∙ copied_page_outside dir m mem a h.0

pub IsRow-IsPlaced :
    (ms : List Mapping) (k : ℕ) {x : Mapping} → IsRow ms → get_elem? ms k ≡ some x → IsPlaced x
IsRow-IsPlaced [] k h e = cc
IsRow-IsPlaced (m ∷ ms) zero h e = subst IsPlaced (cc) h.0
IsRow-IsPlaced (m ∷ ms) (suc k) h e = IsRow-IsPlaced ms k h.2 e

copied_page_within :
    (dir : Bool) (m : Mapping) (mem : Memory) (off : ℕ)
    → m.private_addr ≢ 0
    → off < page_size
    → copied_page dir m mem (copy_dst dir m + off) ≡ mem (copy_src dir m + off)
unfolding copied_page
copied_page_within dir m mem off live h =
    ground (arith, memcpy_within (copy_dst dir m) (copy_src dir m) page_size mem off h)

-- A page that one slot fills is not written for another.
spared :
    (dir : Bool) (m : Mapping) (off : ℕ)
    → m.private_addr ≢ 0
    → off < page_size
    → (n : Mapping) → Disjoint m n
    → Avoids dir (copy_dst dir m + off) n
spared true m off live h n d = ground arith
spared false m off live h n d = ground arith

-- A page that one slot is filled from is not written for another.
source_kept :
    (dir : Bool) (m x : Mapping) (off : ℕ)
    → IsPlaced m
    → IsPlaced x
    → x.private_addr ≢ 0
    → off < page_size
    → Avoids dir (copy_src dir x + off) m
source_kept true m x off hm hx live h = ground arith
source_kept false m x off hm hx live h = ground arith

-- The loop copies the page of each slot in use.
pub copied_within :
    (dir : Bool) (ms : List Mapping) (mem : Memory) (k off : ℕ) {x : Mapping}
    → IsRow ms
    → get_elem? ms k ≡ some x
    → x.private_addr ≢ 0
    → off < page_size
    → copied dir ms mem (copy_dst dir x + off) ≡ mem (copy_src dir x + off)
unfolding copied
copied_within dir [] mem k off h e live small = cc
copied_within dir (m ∷ ms) mem zero off {x} h e live small =
    let same : m ≡ x = cc in
    rw (← same) (
      copied_outside dir ms (copied_page dir m mem) (copy_dst dir m + off) (
        All-mono (Disjoint m) (Avoids dir (copy_dst dir m + off)) ms
          (spared dir m off (rw same live) small) h.1)
      ∙ copied_page_within dir m mem off (rw same live) small)
copied_within dir (m ∷ ms) mem (suc k) off {x} h e live small =
    copied_within dir ms (copied_page dir m mem) k off h.2 e live small
    ∙ copied_page_outside dir m mem (copy_src dir x + off)
        (source_kept dir m x off h.0 (IsRow-IsPlaced ms k h.2 e) live small)
