-- ===== src/TreeDisk/Files/View.antt =====
-- A file system as what its files hold, and any sequence of writes to it.
use egos_project.Prelude.{
  ℕ, zero, suc, ◌+◌, ◌-◌, ◌*◌, ◌/◌, ◌%◌, ◌<◌, ◌≤◌, ◌≡◌, refl, ap, ◌∙◌, inl, inr, arith, true, false,
  ltb, leb, ◌==◌, if◌then◌else◌, Option, none, some, List, [], ◌∷◌, length, length-append, ok, All,
  Bool-cases,
}
use egos_project.TreeDisk.Store.{Block, InodeStore, IsDisk}
use egos_project.TreeDisk.Layout.{
  u32_mod, null_block, inodes_per_block, n_inodeblocks_word, root_word, nblocks_word,
}
use egos_project.TreeDisk.Create.{treedisk_create}
use egos_project.TreeDisk.Create.Fresh.{Fresh, treedisk_create-Fresh}
use egos_project.TreeDisk.Create.Writable.{countdown-Blocks, length-countdown}
use egos_project.TreeDisk.Create.ListBlock.{countdown}
use egos_project.TreeDisk.Access.{treedisk_read}
use egos_project.TreeDisk.Files.{FilePut, put_all}
use egos_project.TreeDisk.Tree.{Role, free_block, reserved_block, hole}
use egos_project.TreeDisk.Tree.Graft.{FreeRoles, block_at-hole}
use egos_project.TreeDisk.Tree.Forest.{
  Forest, FileTree, size_of, root_of, contents_of, treedisk_read-contents_of,
}
use egos_project.TreeDisk.Tree.Write.{contents_with, treedisk_write-WriteDone}

-- The block `o` of the file `k`, and nothing behind the file's end.
abbrev pub View : Type 0
View = (k o : ℕ) → Option Block

-- A block that was there, or one of zeros up to the end `o`.
abbrev pub kept_or_empty : Option Block → (o' o : ℕ) → Option Block
kept_or_empty (some b) o' o = some b
kept_or_empty none o' o = if ltb o' o then some null_block else none

-- The block that is written, a hole up to it, and everything else as it was.
abbrev pub put_view : FilePut → View → View
put_view p v k o =
    if k == p.inode_no
    then (if o == p.offset then some p.block else kept_or_empty (v k o) o p.offset)
    else v k o

abbrev pub view_all : List FilePut → View → View
view_all [] v = v
view_all (p ∷ ps) v = view_all ps (put_view p v)

-- A new file system holds nothing.
abbrev pub empty_view : View
empty_view k o = none

abbrev pub Writes : (bound : ℕ) → List FilePut → Type 0
Writes bound = All (λ p. (p.inode_no < bound) × (p.offset + 1 < u32_mod))

module _ (below : InodeStore) (ino : ℕ) (disk : IsDisk below ino) (size n : ℕ)
    (small : n * inodes_per_block < u32_mod) (room : n < size) where
  -- The files hold what the view says.
  abbrev Shows : below.State → View → Type 0
  Shows s v =
      (k o : ℕ)
      → k < n * inodes_per_block
      → o < u32_mod
      → contents_of below ino disk size n s k o ≡ v k o

  -- The change of a write in terms of what is held.
  contents_with-put_view :
      (s : below.State) (v : View) (p : FilePut) (k o : ℕ)
      → contents_of below ino disk size n s k o ≡ v k o
      → contents_with below ino disk size n s p.inode_no p.offset p.block k o ≡ put_view p v k o
  contents_with-put_view s v p k o e = elim (Bool-cases (k == p.inode_no)) [
    | inl same ↦
        let at : p.inode_no ≡ k = ground arith in
        let nblocks = size_of below ino disk size n s k in
        rw (same, at)
          (elim (Bool-cases (o == p.offset)) [
            | inl here ↦ rw here refl
            | inr beside ↦ elim (Bool-cases (ltb o nblocks)) [
              | inl inside ↦ rw (beside, inside, ← e) (rw inside refl)
              | inr behind ↦ rw (beside, behind, ← e) (rw behind refl)
            ]
          ])
    | inr other ↦ rw other e
  ]

  put_all-Shows :
      (ps : List FilePut) (s : below.State) (role : ℕ → Role) (free : List ℕ) (v : View)
      → Forest below ino disk size n s role free
      → Shows s v
      → Writes (n * inodes_per_block) ps
      → 11 * length ps ≤ length free
      → (after : below.State) × (role_after : ℕ → Role) × (free_after : List ℕ) × (put_all below ino
            ps s
          ≡ ok after)
        × Forest below ino disk size n after role_after free_after
        × Shows after (view_all ps v)
  unfolding put_all
  put_all-Shows [] s role free v f shows w enough = (s, role, free, refl, f, shows)
  put_all-Shows (p ∷ ps) s role free v f shows ((known, l), w) enough =
      let one =
        treedisk_write-WriteDone below ino disk size n p.inode_no p.offset p.block s role free small
          room known l (omega arith) f in
      let few = one.at_most in
      let parts = ap (λ (x : List ℕ). length x) one.split in
      let (after, role_after, free_after, result, forest, shown) =
        put_all-Shows ps one.after one.role_after one.free_after (put_view p v) one.forest
          (λ k o hk ho. one.contents k o hk ho ∙ contents_with-put_view s v p k o (shows k o hk ho))
          w (omega (arith, length-append one.taken one.free_after)) in
      (after, role_after, free_after, rw one.result result, forest, shown)

  -- What the blocks of a new file system are for.
  abbrev new_role : ℕ → Role
  new_role m = if leb m n then reserved_block else free_block

  new_role-FreeRoles : (low count : ℕ) → n < low → FreeRoles new_role (countdown low count [])
  new_role-FreeRoles low zero h = tt
  new_role-FreeRoles low (suc count) h =
      let behind : leb (low + count) n ≡ false = ground arith in
      (rw behind refl, new_role-FreeRoles low count h)

  new_file :
      (s : below.State) (k : ℕ)
      → root_of below ino disk size n s k ≡ 0
      → size_of below ino disk size n s k ≡ 0
      → FileTree below ino disk size n s new_role k
  new_file s k no_root no_blocks = record {
    placed = rw no_root (λ o l e. hole);
    zeros = rw no_root (λ o l h e. block_at-hole (disk.content s) _ o);
    small = omega (arith, no_blocks);
  }

  Fresh-Forest :
      (s : below.State)
      → Fresh below ino disk size n size s
      → Forest below ino disk size n s new_role (countdown (n + 1) (size - (n + 1)) [])
  Fresh-Forest s f = record {
    size_eq = f.same_size;
    n_inodeblocks = f.n_inodeblocks;
    chain = f.chain;
    list = f.list;
    blocks = countdown-Blocks size (n + 1) (size - (n + 1)) (omega arith) (omega arith);
    free_roles = new_role-FreeRoles (n + 1) (size - (n + 1)) (omega arith);
    reserved = λ m h. let inside : leb m n ≡ true = ground arith in rw inside refl;
    trees = λ k h.
        let inode = f.inodes (1 + k / inodes_per_block) (omega arith) (omega arith) in
        new_file s k (ap (λ (x : Block). x (root_word (k % inodes_per_block))) inode)
          (ap (λ (x : Block). x (nblocks_word (k % inodes_per_block))) inode);
  }

-- On a disk that holds no file system, treedisk_create makes one with room for `ninodes` files.
-- Any sequence of writes to them that starts with eleven free blocks for each write returns, and
-- every block of every file is then what the writes, as changes of what the files hold, have made
-- of a system that holds nothing: the last one written there, zeros in a hole, -1 behind the end.
pub treedisk_create-view_all :
    (below : InodeStore) (ino : ℕ) (disk : IsDisk below ino) (size ninodes : ℕ) (old : Block)
    (s : below.State) (ps : List FilePut)
    → below.getsize ino s ≡ size
    → disk.content s 0 n_inodeblocks_word ≡ 0
    → ninodes + 63 < u32_mod
    → (ninodes + 63) / inodes_per_block + 2 + 11 * length ps ≤ size
    → Writes ninodes ps
    → (made after : below.State) × (treedisk_create below ino ninodes old s ≡ ok (some made))
      × (put_all below ino ps made ≡ ok after)
      × ((k o : ℕ)
          → k < ninodes
          → o < u32_mod
          → treedisk_read below ino k o after ≡ ok (view_all ps empty_view k o))
treedisk_create-view_all below ino disk size ninodes old s ps e blank small room writes =
    let n = (ninodes + 63) / inodes_per_block in
    let count : (ninodes + inodes_per_block - 1) % u32_mod / inodes_per_block ≡ n = omega arith in
    elim (treedisk_create-Fresh below ino disk size ninodes n old s count e) [
      | inl (full, _) ↦ absurd (omega arith)
      | inr (inl (_, used, _)) ↦ absurd (used blank)
      | inr (inr i) ↦
          let bound : ninodes ≤ n * inodes_per_block = omega arith in
          let fits : n * inodes_per_block < u32_mod = omega arith in
          let inside : n < size = omega arith in
          let forest = Fresh-Forest below ino disk size n fits inside i.after i.fresh in
          let (after, role, free, result, f, shows) =
            put_all-Shows below ino disk size n fits inside ps i.after
              (new_role below ino disk size n fits inside) (countdown (n + 1) (size - (n + 1)) [])
              empty_view forest
              (λ k o hk ho.
                nothing_there i.after k o
                  (i.fresh.inodes (1 + k / inodes_per_block) (omega arith) (omega arith)))
              (Writes-mono ninodes (n * inodes_per_block) bound ps writes)
              (omega (arith, length-countdown (n + 1) (size - (n + 1)))) in
          (
            i.after,
            after,
            i.result,
            result,
            λ k o hk ho.
                treedisk_read-contents_of below ino disk size n fits inside after role free k o f
                  (omega arith) ho
                ∙ ap ok (shows k o (omega arith) ho),
          )
    ]
  where
    Writes-mono : (a b : ℕ) → a ≤ b → (qs : List FilePut) → Writes a qs → Writes b qs
    Writes-mono a b l [] w = tt
    Writes-mono a b l (q ∷ qs) ((known, o), w) = ((omega arith, o), Writes-mono a b l qs w)

    nothing_there :
        (s' : below.State) (k o : ℕ)
        → disk.content s' (1 + k / inodes_per_block) ≡ null_block
        → contents_of below ino disk size ((ninodes + 63) / inodes_per_block) s' k o ≡ none
    nothing_there s' k o inode =
        let no_blocks : disk.content s' (1 + k / inodes_per_block)
              (nblocks_word (k % inodes_per_block))
            ≡ 0 =
          ap (λ (x : Block). x (nblocks_word (k % inodes_per_block))) inode in
        let behind : ltb o 0 ≡ false = ground arith in rw (no_blocks, behind) refl
