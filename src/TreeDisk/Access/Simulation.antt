-- ===== src/TreeDisk/Access/Simulation.antt =====
-- Two inode stores that read alike carry the same files.
use egos_project.Prelude.{
  ℕ, zero, suc, ◌+◌, ◌/◌, ◌*◌, ◌%◌, ◌≡◌, inl, inr, Bool-cases, leb, ◌==◌, Option, none, some, Run,
  ok, >>=-ok,
}
use egos_project.TreeDisk.Store.{Block, InodeStore}
use egos_project.TreeDisk.Layout.{
  inodes_per_block, u32_mod, n_inodeblocks_word, index_at, levels, Snapshot, inode_root,
  inode_nblocks, read_inode, treedisk_get_snapshot,
}
use egos_project.TreeDisk.Access.{read_walk, read_inode_block, treedisk_read}

-- After a read that may fail, only what follows a success matters.
on_block {ℓ κ} :
    {A : Type ℓ} {B : Type κ} (got : Option A) (f g : A → Run (Option B)) {r : Option B}
    → ((x : A) → f x ≡ ok r → g x ≡ ok r)
    → (elim got [ none ↦ ok none | some x ↦ f x ]) ≡ ok r
    → (elim got [ none ↦ ok none | some x ↦ g x ]) ≡ ok r
on_block none f g h e = e
on_block (some x) f g h e = h x e

module _ (a b : InodeStore) (ino : ℕ) (s : a.State) (t : b.State) where
  -- What can be read from the first store can be read from the second.
  abbrev pub Reads : Type 0
  Reads = (n : ℕ) (r : Option Block) → a.read ino n s ≡ ok r → b.read ino n t ≡ ok r

  read_walk-Reads :
      (nlevels offset block : ℕ) (r : Option Block)
      → Reads
      → read_walk a ino nlevels offset block s ≡ ok r
      → read_walk b ino nlevels offset block t ≡ ok r
  unfolding read_walk
  read_walk-Reads zero offset block r alike h = elim (Bool-cases (block == 0)) [
    | inl hole ↦ rw hole (rw hole at h)
    | inr more ↦ rw more (alike block r (rw more at h))
  ]
  read_walk-Reads (suc nlevels) offset block r alike h = elim (Bool-cases (block == 0)) [
    | inl hole ↦ rw hole (rw hole at h)
    | inr more ↦
        let (got, found, rest) = >>=-ok (a.read ino block s) _ (rw more at h) in
        rw (more, alike block got found)
          (on_block got _ _
            (λ tib. read_walk-Reads nlevels offset (tib (index_at offset nlevels)) r alike) rest)
  ]

  get_snapshot-Reads :
      (inode_no : ℕ) (r : Option Snapshot)
      → Reads
      → treedisk_get_snapshot a ino inode_no s ≡ ok r
      → treedisk_get_snapshot b ino inode_no t ≡ ok r
  unfolding treedisk_get_snapshot read_inode
  get_snapshot-Reads inode_no r alike h =
      let (got, found, rest) = >>=-ok (a.read ino 0 s) _ h in
      rw (alike 0 got found) (
        on_block got _ _
          (λ sb e.
            elim (Bool-cases (leb (sb n_inodeblocks_word * inodes_per_block % u32_mod) inode_no)) [
              | inl large ↦ rw large (rw large at e)
              | inr small ↦
                  let (got', found', rest') =
                    >>=-ok (a.read ino (1 + inode_no / inodes_per_block) s) _ (rw small at e) in
                  rw (small, alike (1 + inode_no / inodes_per_block) got' found') rest'
            ])
          rest)

  -- What treedisk_read finds in a file of the first store, a block, a hole or an error, it finds in
  -- that file of the second.
  pub treedisk_read-Reads :
      (inode_no offset : ℕ) (r : Option Block)
      → Reads
      → treedisk_read a ino inode_no offset s ≡ ok r
      → treedisk_read b ino inode_no offset t ≡ ok r
  unfolding treedisk_read read_inode_block
  treedisk_read-Reads inode_no offset r alike h =
      let (got, found, rest) = >>=-ok (treedisk_get_snapshot a ino inode_no s) _ h in
      rw (get_snapshot-Reads inode_no got alike found) (
        on_block got _ _
          (λ snap e. elim (Bool-cases (leb (inode_nblocks snap) offset)) [
            | inl behind ↦ rw behind (rw behind at e)
            | inr inside ↦ rw inside (
                read_walk-Reads (levels (inode_nblocks snap)) offset (inode_root snap) r alike
                  (rw inside at e))
          ])
          rest)
