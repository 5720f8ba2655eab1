-- ===== src/Earth/PageAlloc/Laws.antt =====
-- What the page allocator promises.
use egos_project.Prelude.{
  ℕ, zero, suc, ◌+◌, ◌-◌, ◌*◌, ◌/◌, ◌%◌, ◌<◌, ◌≡◌, refl, sym, ap, ok-injective, ◌∙◌, ◌⊎◌, inl, inr,
  arith, Bool, true, false, List, ◌==◌, Bool-cases, if◌then◌else◌, length, Run, ok, fatal,
  no_more_page,
}
use egos_project.Machine.{page_size, free_mem_start}
use egos_project.Machine.Memory.{memset}
use egos_project.Bitmap.Laws.{IsBytes, bit_at, bit_set_lem, bit_clear_lem, bit_test_lem}
use egos_project.Earth.PageAlloc.{
  npages, roundup, pageid2paddr, paddr2pageid, Pages, Alloc, take_page, pmalloc_from, pmalloc,
  pfree,
}

-- The array `bitmap` has a bit for each page.
pub record IsMap (map : List ℕ) : Type 0 where
  pub bytes : IsBytes map
  pub size : length map ≡ roundup npages 8

abbrev pub page_addr : ℕ → ℕ
page_addr i = free_mem_start + i * page_size

-- The outcome of an allocation that succeeds: the lowest free page, its bit set and no other
-- changed, and its memory cleared if the caller asked for that.
pub record Allocated (clear_page : Bool) (s : Pages) (r : Run Alloc) : Type 0 where
  pub page : ℕ
  pub after : Pages
  pub result : r ≡ ok (page_addr page, after)
  pub in_range : page < npages
  pub was_free : bit_at s.bitmap page ≡ false
  pub lowest : (j : ℕ) → j < page → bit_at s.bitmap j ≡ true
  pub still_map : IsMap after.bitmap
  pub only : (j : ℕ) → bit_at after.bitmap j ≡ (if page == j then true else bit_at s.bitmap j)
  pub memory : after.mem ≡ (if clear_page then memset (page_addr page) 0 page_size s.mem else s.mem)

pageid2paddr-ok : (i : ℕ) → i < npages → pageid2paddr i ≡ ok (page_addr i)
unfolding pageid2paddr
pageid2paddr-ok i h = ground arith

-- A page's address is translated back to the page.
pub paddr2pageid-addr : (i : ℕ) → i < npages → paddr2pageid (page_addr i) ≡ ok i
unfolding paddr2pageid
paddr2pageid-addr i h =
    let wrap : ((page_addr i + 0x1_0000_0000 - free_mem_start) % 0x1_0000_0000) / page_size ≡ i =
      omega arith in
    ground arith

module _ (clear_page : Bool) (s : Pages) (m : IsMap s.bitmap) where
  take_page-Allocated :
      (i : ℕ)
      → i < npages
      → bit_at s.bitmap i ≡ false
      → ((j : ℕ) → j < i → bit_at s.bitmap j ≡ true)
      → Allocated clear_page s (take_page i clear_page s)
  unfolding take_page
  take_page-Allocated i h free below =
      let (map', e, u) = bit_set_lem s.bitmap i m.bytes (omega (arith, m.size)) in
      record {
        page = i;
        after = record {
          bitmap = map';
          mem = if clear_page then memset (page_addr i) 0 page_size s.mem else s.mem;
        };
        result = rw (e, pageid2paddr-ok i h) refl;
        in_range = h;
        was_free = free;
        lowest = below;
        still_map = record { bytes = u.bytes; size = u.size ∙ m.size };
        only = u.bits;
        memory = refl;
      }

  -- With all pages below `i` in use, the loop hands out the lowest free one or finds none.
  pmalloc_from-Allocated :
      (left i : ℕ)
      → i + left ≡ npages
      → ((j : ℕ) → j < i → bit_at s.bitmap j ≡ true)
      → Allocated clear_page s (pmalloc_from left i clear_page s)
        ⊎ ((pmalloc_from left i clear_page s ≡ fatal no_more_page)
            × ((j : ℕ) → j < npages → bit_at s.bitmap j ≡ true))
  unfolding pmalloc_from
  pmalloc_from-Allocated zero i e below = inr (refl, λ j h. below j (omega arith))
  pmalloc_from-Allocated (suc left) i e below =
      let test = bit_test_lem s.bitmap i m.bytes (omega (arith, m.size)) in
      elim (Bool-cases (bit_at s.bitmap i)) [
        | inl used ↦
            rw (test, used)
              (pmalloc_from-Allocated left (i + 1) (omega arith) λ j h. elim (Bool-cases (j == i)) [
                | inl same ↦ ground arith
                | inr other ↦ below j (ground arith)
              ])
        | inr free ↦ rw (test, free) (inl (take_page-Allocated i (omega arith) free below))
      ]

  -- `pmalloc` hands out the lowest free page, and stops the machine only when every page is in use.
  pub pmalloc-Allocated :
      Allocated clear_page s (pmalloc clear_page s)
      ⊎ ((pmalloc clear_page s ≡ fatal no_more_page)
          × ((j : ℕ) → j < npages → bit_at s.bitmap j ≡ true))
  unfolding pmalloc
  pmalloc-Allocated = pmalloc_from-Allocated npages 0 (omega arith) (λ j h. elim h [ ])

-- Freeing a page succeeds, clears its bit and no other, and leaves the memory as it was.
pub pfree_lem :
    (s : Pages) (i : ℕ)
    → IsMap s.bitmap
    → i < npages
    → (s' : Pages) × (pfree (page_addr i) s ≡ ok s')
      × IsMap s'.bitmap
      × ((j : ℕ) → bit_at s'.bitmap j ≡ (if i == j then false else bit_at s.bitmap j))
      × (s'.mem ≡ s.mem)
unfolding pfree
pfree_lem s i m h =
    let (map', e, u) = bit_clear_lem s.bitmap i m.bytes (omega (arith, m.size)) in
    (
      record s { bitmap = map' },
      rw (paddr2pageid-addr i h, e) refl,
      record { bytes = u.bytes; size = u.size ∙ m.size },
      u.bits,
      refl,
    )

-- A page that was just handed out can be given back, and then the map is as before.
pub pfree-pmalloc :
    (clear_page : Bool) (s s1 : Pages) (a : ℕ)
    → IsMap s.bitmap
    → pmalloc clear_page s ≡ ok (a, s1)
    → (s2 : Pages) × (pfree a s1 ≡ ok s2)
      × ((j : ℕ) → bit_at s2.bitmap j ≡ bit_at s.bitmap j)
      × (s2.mem ≡ s1.mem)
pfree-pmalloc clear_page s s1 a m e = elim (pmalloc-Allocated clear_page s m) [
  | inl w ↦
      let got : ◌≡◌ {A = Alloc} (a, s1) (page_addr w.page, w.after) =
        ok-injective (sym e ∙ w.result) in
      let at : a ≡ page_addr w.page = ap (λ (p : Alloc). p.0) got in
      let after : s1 ≡ w.after = ap (λ (p : Alloc). p.1) got in
      let (s2, done, _, bits, mem) = pfree_lem w.after w.page w.still_map w.in_range in
      rw (at, after)
        (
          s2,
          done,
          λ j.
              bits j
              ∙ restored w.page j (bit_at s.bitmap) (bit_at w.after.bitmap) w.was_free (w.only j),
          mem,
        )
  | inr (full, _) ↦ absurd (clash (sym full ∙ e))
]
  where
    clash : ◌≡◌ {A = Run Alloc} (fatal no_more_page) (ok (a, s1)) → ⊥
    clash h = cc

    restored :
        (i j : ℕ) (old new : ℕ → Bool)
        → old i ≡ false
        → new j ≡ (if i == j then true else old j)
        → (if i == j then false else new j) ≡ old j
    restored i j old new free only = ground arith
