-- ===== src/Earth/PageTable/Leaves.antt =====
-- The loop of setup_identity_region over the pages: the entries that it writes.
use egos_project.Prelude.{
  ℕ, zero, suc, ◌+◌, ◌*◌, ◌<◌, ◌≤◌, ◌≡◌, refl, ◌∙◌, ◌⊎◌, inl, inr, arith, ◌==◌, ltb, Run, ok,
  undefined, assert, Bool-cases, >>=-ok, ok-injective,
}
use egos_project.Machine.{page_size}
use egos_project.Machine.Memory.{
  Memory, Outside, load32, store32, load32-store32, store32-Outside, load32_ext,
}
use egos_project.Earth.PageTable.{entry_at, leaf, map_pages}

-- A load of a word that a store has not touched.
load32-Outside :
    (a v b : ℕ) (m : Memory) → (b + 4 ≤ a) ⊎ (a + 4 ≤ b) → load32 (store32 a v m) b ≡ load32 m b
load32-Outside a v b m h =
    load32_ext m (store32 a v m) b b (λ k l. store32-Outside a v m (b + k) (apart b k h l))
      (store32-Outside a v m b (first b h))
  where
    apart : (b k : ℕ) → (b + 4 ≤ a) ⊎ (a + 4 ≤ b) → k < 4 → Outside a 4 (b + k)
    apart b k (inl low) l = inl (omega arith)
    apart b k (inr high) l = inr (omega arith)

    first : (b : ℕ) → (b + 4 ≤ a) ⊎ (a + 4 ≤ b) → Outside a 4 b
    first b (inl low) = inl (omega arith)
    first b (inr high) = inr (omega arith)

-- The entries from `i` on that the loop has written, and the words it has left alone.
pub record Mapped (left i l2_pa vpn0 addr : ℕ) (m m' : Memory) : Type 0 where
  pub in_table : (j : ℕ) → i ≤ j → j < i + left → vpn0 + j < 1024
  pub entries :
      (j : ℕ)
      → i ≤ j
      → j < i + left
      → load32 m' (entry_at l2_pa (vpn0 + j)) ≡ leaf (addr + j * page_size)
  pub others :
      (b : ℕ) → (b + 4 ≤ l2_pa + 4 * (vpn0 + i)) ⊎ (l2_pa + 4096 ≤ b) → load32 m' b ≡ load32 m b

leaf_small : (addr : ℕ) → leaf addr < 0x1_0000_0000
leaf_small addr = omega arith

pub map_pages-Mapped :
    (left i l2_pa vpn0 addr : ℕ) (m m' : Memory)
    → map_pages left i l2_pa vpn0 addr m ≡ ok m'
    → Mapped left i l2_pa vpn0 addr m m'
unfolding map_pages
map_pages-Mapped zero i l2_pa vpn0 addr m m' h = record {
  in_table = λ j p q. absurd (omega arith);
  entries = λ j p q. absurd (omega arith);
  others = λ b p. let same : m ≡ m' = ok-injective h in rw same refl;
}
map_pages-Mapped (suc left) i l2_pa vpn0 addr m m' h = elim (Bool-cases (ltb (vpn0 + i) 1024)) [
  | inr out ↦ absurd (lost (rw (map_pages, out) at h))
  | inl inside ↦
      let at = entry_at l2_pa (vpn0 + i) in
      let m1 = store32 at (leaf (addr + i * page_size)) m in
      let (_, _, h1) = >>=-ok (assert (load32 m at == 0)) _ (rw (map_pages, inside) at h) in
      let rest = map_pages-Mapped left (i + 1) l2_pa vpn0 addr m1 m' h1 in
      record {
        in_table = λ j p q. elim (Bool-cases (i == j)) [
          | inl here ↦ ground arith
          | inr later ↦ rest.in_table j (ground arith) (omega arith)
        ];
        entries = λ j p q. elim (Bool-cases (i == j)) [
          | inl here ↦
              let e : j ≡ i = ground arith in
              rw e (
                rest.others at (inl (omega arith))
                ∙ load32-store32 at (leaf (addr + i * page_size)) m
                    (leaf_small (addr + i * page_size)))
          | inr later ↦ rest.entries j (ground arith) (omega arith)
        ];
        others = λ b p.
            rest.others b (further b p)
            ∙ load32-Outside at (leaf (addr + i * page_size)) b m (beside b (ground arith) p);
      }
]
  where
    lost : ◌≡◌ {A = Run Memory} undefined (ok m') → ⊥
    lost e = cc

    further :
        (b : ℕ)
        → (b + 4 ≤ l2_pa + 4 * (vpn0 + i)) ⊎ (l2_pa + 4096 ≤ b)
        → (b + 4 ≤ l2_pa + 4 * (vpn0 + (i + 1))) ⊎ (l2_pa + 4096 ≤ b)
    further b (inl low) = inl (omega arith)
    further b (inr high) = inr high

    beside :
        (b : ℕ)
        → vpn0 + i < 1024
        → (b + 4 ≤ l2_pa + 4 * (vpn0 + i)) ⊎ (l2_pa + 4096 ≤ b)
        → (b + 4 ≤ l2_pa + 4 * (vpn0 + i)) ⊎ (l2_pa + 4 * (vpn0 + i) + 4 ≤ b)
    beside b h (inl low) = inl low
    beside b h (inr high) = inr (omega arith)
