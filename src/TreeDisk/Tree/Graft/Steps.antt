-- ===== src/TreeDisk/Tree/Graft/Steps.antt =====
-- One level of the walk: the block at the bottom, and an indirect block above it.
use mathlib.Core.List.{append_assoc}
use egos_project.Prelude.{
  ℕ, suc, ◌<◌, ◌≤◌, ◌≡◌, ◌≢◌, sym, ap, subst, ◌∙◌, inl, inr, arith, false, ◌==◌, List, ◌∷◌, ◌++◌,
  length, length-append, Run, Bool-cases,
}
use egos_project.TreeDisk.Store.{Block, InodeStore, IsDisk}
use egos_project.TreeDisk.Layout.{u32_mod, index_at, Snapshot}
use egos_project.TreeDisk.Alloc.{must_write}
use egos_project.TreeDisk.Alloc.Allocation.{content-same, must_write-ok, HasFree}
use egos_project.TreeDisk.Access.{Parent}
use egos_project.TreeDisk.Access.Way.{NotIn}
use egos_project.TreeDisk.Access.Links.{HasFree-put, HasFree-list, Linked, Linked-put}
use egos_project.TreeDisk.Tree.{Role, free_block, file_block, Placed, leaf, node, block_at}
use egos_project.TreeDisk.Tree.Digits.{pre, pre-zero, pre-down}
use egos_project.TreeDisk.Tree.Graft.{FreeRoles, NotIn-free, OffWay, Grafted}

module _ (below : InodeStore) (ino : ℕ) (disk : IsDisk below ino) (size k o : ℕ)
    (small : o < u32_mod) (block : Block) where
  -- At the bottom: the block `b`, new or old, is written.
  pub leaf-Grafted :
      (p : Parent) (s s1 : below.State) (role role1 : ℕ → Role) (b b0 : ℕ) (t : Snapshot)
      (chain taken rest free : List ℕ)
      → b ≢ 0
      → b < size
      → p.parent_off ≢ b
      → NotIn rest b
      → role1 b ≡ file_block k 0 (pre 0 o)
      → ((m : ℕ) → role m ≢ free_block → role1 m ≡ role m)
      → ((m : ℕ)
          → role m ≢ free_block
          → OffWay below ino disk size k o small block role 0 m
          → m ≢ b)
      → FreeRoles role rest
      → FreeRoles role1 rest
      → Linked below ino disk size p s s1 b (b ∷ rest)
      → HasFree below ino disk size t s1 chain rest
      → free ≡ taken ++ rest
      → length taken ≤ 1
      → Grafted below ino disk size k o small block 0 p s role free b0
          (must_write below ino b block s1)
  leaf-Grafted p s s1 role role1 b b0 t chain taken rest free z l apart new r grows off roles roles1
        k1 h split few =
      let some_block : (b == 0) ≡ false = ground arith in
      let done = Linked-put below ino disk size p s s1 b rest block z apart k1 in
      let left = HasFree-put below ino disk size t s1 chain rest b block z new h in
      let here : block_at (disk.content (disk.put b block s1)) 0 o b ≡ block =
        rw some_block (content-same below ino disk b block s1) in
      record {
        after = disk.put b block s1;
        result = must_write-ok below ino disk b block s1 (omega (arith, k1.size_eq));
        child = b;
        role_after = role1;
        taken = taken;
        free_after = rest;
        chain_after = chain;
        size_eq = done.size_eq;
        entry = done.entry;
        others = done.others;
        same_inodeblocks = done.same_inodeblocks;
        kept = λ m mz mp mr mo.
            done.elsewhere m mz (mp, (off m mr mo, NotIn-free role m rest mr roles));
        role_kept = grows;
        split = split;
        at_most = few;
        free_roles = roles1;
        list = HasFree-list below ino disk size t (disk.put b block s1) chain rest left;
        placed = λ o' l' e. leaf z l (r ∙ ap (λ q. file_block k 0 q) (sym e));
        reads = here;
        others_read = λ o' l' d e. absurd (d (sym (pre-zero o') ∙ e ∙ pre-zero o));
      }

  -- One level up: behind the indirect block `b`, new or old, stands what the walk below has left.
  pub node-Grafted :
      (n : ℕ) (p : Parent) (s s1 : below.State) (role role1 : ℕ → Role) (b b0 child0 : ℕ)
      (tib : Block) (extra mid rest free : List ℕ) (r : Run below.State)
      → p.parent_off ≢ 0
      → role p.parent_off ≢ free_block
      → OffWay below ino disk size k o small block role (suc n) p.parent_off
      → b ≢ 0
      → b < size
      → role1 b ≡ file_block k (suc n) (pre (suc n) o)
      → ((m : ℕ) → role m ≢ free_block → role1 m ≡ role m)
      → ((m : ℕ)
          → role m ≢ free_block
          → OffWay below ino disk size k o small block role (suc n) m
          → m ≢ b)
      → FreeRoles role rest
      → Linked below ino disk size p s s1 b (b ∷ rest)
      → free ≡ extra ++ mid
      → length extra ≤ 1
      → (w : Grafted below ino disk size k o small block n
          (record { parent_off = b; parent_block = tib; word = index_at o n })
          s1
          role1
          mid
          child0
          r)
      → ((o' : ℕ)
          → o' < u32_mod
          → pre (suc n) o' ≡ pre (suc n) o
          → index_at o' n ≢ index_at o n
          → Placed (disk.content w.after) w.role_after size k o' n (tib (index_at o' n))
            × (block_at (disk.content w.after) n o' (tib (index_at o' n))
                ≡ block_at (disk.content s) (suc n) o' b0))
      → ((o' : ℕ)
          → o' < u32_mod
          → pre (suc n) o' ≡ pre (suc n) o
          → index_at o' n ≡ index_at o n
          → block_at (disk.content s1) n o' child0 ≡ block_at (disk.content s) (suc n) o' b0)
      → Grafted below ino disk size k o small block (suc n) p s role free b0 r
  node-Grafted n p s s1 role role1 b b0 child0 tib extra mid rest free r pz pr po z l rb grows off
        roles k1 split few w side down =
      let some_block : (b == 0) ≡ false = ground arith in
      let used : role1 b ≢ free_block = λ e. cc in
      let keep : (m : ℕ)
          → m ≢ 0
          → role m ≢ free_block
          → OffWay below ino disk size k o small block role (suc n) m
          → disk.content w.after m ≡ disk.content s1 m =
        λ m mz mr mo.
          w.kept m mz (off m mr mo) (λ e. mr (sym (grows m mr) ∙ e))
            (λ j h e. mo j (omega arith) (sym (grows m mr) ∙ e)) in
      let parent = keep p.parent_off pz pr po in
      let Behind : ℕ → ℕ → Type 0 = λ o' child.
        Placed (disk.content w.after) w.role_after size k o' n child
        × (o' ≢ o
            → block_at (disk.content w.after) n o' child
              ≡ block_at (disk.content s) (suc n) o' b0) in
      let next : (o' : ℕ)
          → o' < u32_mod
          → pre (suc n) o' ≡ pre (suc n) o
          → Behind o' (disk.content w.after b (index_at o' n)) =
        λ o' l' e. elim (Bool-cases (index_at o' n == index_at o n)) [
          | inl same ↦
              let i : index_at o' n ≡ index_at o n = ground arith in
              let q = pre-down o o' small l' n e i in
              subst (Behind o') (sym (ap (disk.content w.after b) i ∙ w.entry))
                (w.placed o' l' q, λ d. w.others_read o' l' d q ∙ down o' l' e i)
          | inr differs ↦
              let d : index_at o' n ≢ index_at o n = ground arith in
              let (placed, reads) = side o' l' e d in
              subst (Behind o') (sym (w.others (index_at o' n) d)) (placed, λ _. reads)
        ] in
      record {
        after = w.after;
        result = w.result;
        child = b;
        role_after = w.role_after;
        taken = extra ++ w.taken;
        free_after = w.free_after;
        chain_after = w.chain_after;
        size_eq = w.size_eq;
        entry = ap (λ (x : Block). x p.word) parent ∙ k1.entry;
        others = λ j d. ap (λ (x : Block). x j) parent ∙ k1.others j d;
        same_inodeblocks = w.same_inodeblocks ∙ k1.same_inodeblocks;
        kept = λ m mz mp mr mo.
            keep m mz mr mo
            ∙ k1.elsewhere m mz (mp, (off m mr mo, NotIn-free role m rest mr roles));
        role_kept = λ m mr. w.role_kept m (λ e. mr (sym (grows m mr) ∙ e)) ∙ grows m mr;
        split =
            split ∙ ap (λ x. extra ++ x) w.split ∙ sym (append_assoc extra w.taken w.free_after);
        at_most = let more = w.at_most in omega (arith, length-append extra w.taken);
        free_roles = w.free_roles;
        list = w.list;
        placed = λ o' l' e.
            node z l (w.role_kept b used ∙ rb ∙ ap (λ q. file_block k (suc n) q) (sym e))
              (next o' l' e).0;
        reads = rw (some_block, w.entry) w.reads;
        others_read = λ o' l' d e. rw some_block ((next o' l' e).1 d);
      }
