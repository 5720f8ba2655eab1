-- ===== src/TreeDisk/Tree/Graft/Walk.antt =====
-- The walk down the tree, level by level.
use egos_project.Prelude.{
  ℕ, zero, suc, ◌<◌, ◌≤◌, ◌≡◌, ◌≢◌, refl, sym, ap, subst, ◌∙◌, arith, false, ◌==◌, List, [], ◌∷◌,
  length, Run,
}
use egos_project.TreeDisk.Store.{Block, InodeStore, IsDisk}
use egos_project.TreeDisk.Layout.{u32_mod, null_block, index_at, Snapshot}
use egos_project.TreeDisk.Alloc.Allocation.{HasFree}
use egos_project.TreeDisk.Access.{Parent, indirect_block, write_walk}
use egos_project.TreeDisk.Access.Way.{Blocks}
use egos_project.TreeDisk.Access.Walk.{
  child_of-NewChild, old-Linked, child_of-old, indirect_block-old,
}
use egos_project.TreeDisk.Tree.{
  Role, free_block, reserved_block, file_block, role_differs, Agrees, Placed, hole, leaf, node,
  Placed-agree, block_at,
}
use egos_project.TreeDisk.Tree.Digits.{pre, pre-up, pre-below}
use egos_project.TreeDisk.Tree.Graft.{
  with_role, with_role-same, with_role-other, with_role-free, FreeRoles, NotIn-free, level_eq,
  prefix_eq, index_at-eq, block_at-hole, Placed-below, OffWay, Grafted,
}
use egos_project.TreeDisk.Tree.Graft.Steps.{leaf-Grafted, node-Grafted}

module _ (below : InodeStore) (ino : ℕ) (disk : IsDisk below ino) (size k o : ℕ)
    (small : o < u32_mod) (block : Block) where
  -- The way to a block whose number differs above the level `n` is left alone.
  beside :
      (n : ℕ) (p : Parent) (s : below.State) (role : ℕ → Role) (free : List ℕ) (b : ℕ)
      (r : Run below.State) (w : Grafted below ino disk size k o small block n p s role free b r)
      → role 0 ≡ reserved_block
      → ((l q : ℕ) → l ≤ n → role p.parent_off ≢ file_block k l q)
      → (o' : ℕ) → o' < u32_mod
      → pre n o' ≢ pre n o
      → Agrees (disk.content s) (disk.content w.after) role w.role_after k o' n
  beside n p s role free b r w r0 parent o' l' d m l h e =
      let used : role m ≢ free_block = λ x. role_differs (sym e ∙ x) in
      (
        w.kept m (λ x. role_differs (sym e ∙ ap role x ∙ r0))
            (λ x. parent l (pre l o') h (ap role (sym x) ∙ e)) used
            (λ j hj x.
              let q : file_block k l (pre l o') ≡ file_block k j (pre j o) = sym e ∙ x in
              let at = level_eq q in
              pre-below o o' small l' n l h d (prefix_eq q ∙ ap (λ i. pre i o) (sym at))),
        w.role_kept m used,
      )

  -- With the file's tree in place, and a free block for every level, the walk puts the block where
  -- it belongs.
  pub write_walk-Grafted :
      (n : ℕ) (p : Parent) (t : Snapshot) (s : below.State) (role : ℕ → Role) (chain free : List ℕ)
      (b : ℕ)
      → role 0 ≡ reserved_block
      → p.parent_block p.word ≡ b
      → Placed (disk.content s) role size k o n b
      → ((o' : ℕ) → o' < u32_mod → pre n o' ≡ pre n o → Placed (disk.content s) role size k o' n b)
      → (b ≢ 0 → (j : ℕ) → disk.content s p.parent_off j ≡ p.parent_block j)
      → p.parent_off ≢ 0
      → p.parent_off < size
      → role p.parent_off ≢ free_block
      → OffWay below ino disk size k o small block role n p.parent_off
      → Blocks size free
      → FreeRoles role free
      → HasFree below ino disk size t s chain free
      → n < length free
      → Grafted below ino disk size k o small block n p s role free b
          (write_walk below ino n o block p t s)
  unfolding write_walk indirect_block
  write_walk-Grafted n p t s role chain [] b r0 e way all sync pz pl pr po apart roles h enough =
      absurd (omega arith)
  write_walk-Grafted zero p t s role chain (f ∷ free) b r0 e hole all sync pz pl pr po
        ((fz, fl, new), apart) (rf, roles) h enough =
      let c =
        child_of-NewChild below ino disk size p t s chain f free e
          ((pz, pl, NotIn-free role p.parent_off (f ∷ free) pr (rf, roles)), ((fz, fl, new), apart))
          h in
      let role1 = with_role f (file_block k 0 (pre 0 o)) role in
      let off : (m : ℕ) → role m ≢ free_block → m ≢ f = λ m d at. d (ap role at ∙ rf) in
      rw c.result (
        leaf-Grafted below ino disk size k o small block p s c.disk_after role role1 f 0 c.after
          c.chain_after (f ∷ []) free (f ∷ free) fz fl (off p.parent_off pr) new
          (with_role-same f (file_block k 0 (pre 0 o)) role)
          (λ m d. with_role-other f (file_block k 0 (pre 0 o)) role m (off m d)) (λ m d _. off m d)
          roles (with_role-free f (file_block k 0 (pre 0 o)) role free new roles) c.linked
          c.has_free refl (omega arith))
  write_walk-Grafted zero p t s role chain (f ∷ free) b r0 e (leaf z l r) all sync pz pl pr po apart
        roles h enough =
      let used : role b ≢ free_block = λ x. cc in
      rw (child_of-old below ino disk size p t s b e z) (
        leaf-Grafted below ino disk size k o small block p s s role role b b t chain [] (f ∷ free)
          (f ∷ free) z l (λ at. po 0 (omega arith) (ap role at ∙ r))
          (NotIn-free role b (f ∷ free) used roles) r (λ m d. refl)
          (λ m d mo at. mo 0 (omega arith) (ap role at ∙ r)) roles roles
          (old-Linked below ino disk size p s b (b ∷ (f ∷ free)) e (sync z) h.size_eq) h refl
          (omega arith))
  write_walk-Grafted (suc n) p t s role chain (f ∷ free) b r0 e hole all sync pz pl pr po
        ((fz, fl, new), apart) (rf, roles) h enough =
      let c =
        child_of-NewChild below ino disk size p t s chain f free e
          ((pz, pl, NotIn-free role p.parent_off (f ∷ free) pr (rf, roles)), ((fz, fl, new), apart))
          h in
      let here : Role = file_block k (suc n) (pre (suc n) o) in
      let role1 = with_role f here role in
      let off : (m : ℕ) → role m ≢ free_block → m ≢ f = λ m d at. d (ap role at ∙ rf) in
      let at_f = with_role-same f here role in
      let p' : Parent = record { parent_off = f; parent_block = null_block; word = index_at o n } in
      let level : (j : ℕ) → j ≤ n → role1 f ≢ file_block k j (pre j o) =
        λ j l x. absurd (omega (arith, level_eq (sym at_f ∙ x))) in
      let w =
        write_walk-Grafted n p' c.after c.disk_after role1 c.chain_after free 0
          (with_role-other f here role 0 (λ x. fz (sym x)) ∙ r0) refl hole (λ o' l' q. hole)
          (λ z. absurd (z refl)) fz fl (λ x. role_differs (sym at_f ∙ x)) level apart
          (with_role-free f here role free new roles) c.has_free (omega arith) in
      rw c.result (
        node-Grafted below ino disk size k o small block n p s c.disk_after role role1 f 0 0
          null_block (f ∷ []) free free (f ∷ free) _ pz pr po fz fl at_f
          (λ m d. with_role-other f here role m (off m d)) (λ m d _. off m d) roles c.linked refl
          (omega arith) w (λ o' l' q d. (hole, block_at-hole (disk.content w.after) n o'))
          (λ o' l' q i. block_at-hole (disk.content c.disk_after) n o'))
  write_walk-Grafted (suc n) p t s role chain (f ∷ free) b r0 e (node z l r way) all sync pz pl pr
        po apart roles h enough =
      let some_block : (b == 0) ≡ false = ground arith in
      let tib = disk.content s b in
      let used : role b ≢ free_block = λ x. role_differs (sym r ∙ x) in
      let level : (j : ℕ) → j ≤ n → role b ≢ file_block k j (pre j o) =
        λ j h x. absurd (omega (arith, level_eq (sym r ∙ x))) in
      let p' : Parent = record { parent_off = b; parent_block = tib; word = index_at o n } in
      let Under : (o' i : ℕ) → Type 0 = λ o' i. Placed (disk.content s) role size k o' n (tib i) in
      let w =
        write_walk-Grafted n p' t s role chain (f ∷ free) (tib (index_at o n)) r0 refl way
          (λ o' l' q.
            subst (Under o') (index_at-eq o o' n q)
              (Placed-below z (all o' l' (pre-up o o' small l' n q))))
          (λ d j. refl) z l used level apart roles h (omega arith) in
      let found = indirect_block-old below ino disk size b s (omega (arith, h.size_eq)) in
      rw (child_of-old below ino disk size p t s b e z, found)
        (node-Grafted below ino disk size k o small block n p s s role role b b (tib (index_at o n))
          tib [] (f ∷ free) (f ∷ free) (f ∷ free) _ pz pr po z l r (λ m d. refl)
          (λ m d mo at. mo (suc n) (omega arith) (ap role at ∙ r)) roles
          (old-Linked below ino disk size p s b (b ∷ (f ∷ free)) e (sync z) h.size_eq) refl
          (omega arith) w
          (λ o' l' q d.
            let (placed, same) = Placed-agree (Placed-below z (all o' l' q)) (
              beside n p' s role (f ∷ free) (tib (index_at o n)) _ w r0
                (λ j q h x. absurd (omega (arith, level_eq (sym r ∙ x)))) o' l'
                (λ x. d (index_at-eq o o' n x))) in
            (placed, rw some_block same))
          (λ o' l' q i. rw some_block (ap (λ j. block_at (disk.content s) n o' (tib j)) (sym i))))
