-- ===== src/Apps/Commands/Printing.antt =====
-- ls and cat over the file server: what they print of a file of the read-only file system.
use egos_project.Prelude.{
  ℕ, zero, suc, ◌+◌, ◌≤◌, ◌<◌, ◌≡◌, ◌≢◌, false, refl, ap, sym, ◌∙◌, arith, inl, inr, ◌⊎◌, true, ltb,
  ◌==◌, Option, none, some, List, [], ◌∷◌, ◌++◌, All, map, ok, Bool-cases, if◌then◌else◌,
}
use egos_project.TreeDisk.Store.{Block, InodeStore}
use egos_project.TreeDisk.Access.{treedisk_read}
use egos_project.Earth.Disk.{block_size}
use egos_project.Apps.Servers.{Bytes, copy_bytes, DirRequest, DirReply, Service}
use egos_project.Apps.Shell.Batch.{ends_with}
use egos_project.Apps.Shell.Batch.Runs.{ends_with-append}
use egos_project.Apps.FileServer.{fs_root_inode, bytes_of, file_service}
use egos_project.Apps.FileServer.Reads.{file_read-received}
use egos_project.Apps.DirServer.{c_string}
use egos_project.Apps.DirServer.Entries.{IsEntry, Entry, text_of}
use egos_project.Apps.Commands.{newline, crlf, Workdir, lookup_in, string_in, printed, ls, cat}
use egos_project.Apps.Commands.Listing.{StartsPlain, blanked, without_numbers-text}

-- The string in the first bytes of a copy.
c_string-copy :
    (len n i : ℕ) (src dst : Bytes)
    → i + n ≤ len
    → c_string n i (copy_bytes len src dst) ≡ c_string n i src
unfolding c_string
c_string-copy len zero i src dst h = refl
c_string-copy len (suc n) i src dst h =
    let inside : ltb i len ≡ true = ground arith in
    let byte : copy_bytes len src dst i ≡ src i = rw inside refl in
    let step : ℕ → Option (List ℕ) → Option (List ℕ) =
      λ x r. if x == 0 then some [] else elim r [ none ↦ none | some cs ↦ some (x ∷ cs) ] in
    ap (λ x. step x (c_string n (i + 1) (copy_bytes len src dst))) byte
    ∙ ap (step (src i)) (c_string-copy len n (i + 1) src dst (omega arith))

string_in-copy :
    (src dst : Bytes) (cs : List ℕ)
    → c_string block_size 0 src ≡ some cs
    → string_in (copy_bytes block_size src dst) ≡ ok cs
string_in-copy src dst cs e =
    let same = c_string-copy block_size block_size 0 src dst (omega arith) ∙ e in
    rw (string_in, same) refl

module _ (below : InodeStore) (below_ino : ℕ) (stale : Bytes) where
  -- In a directory of the read-only file system whose text is that of entries, with names that
  -- start with no digit, ls prints the text with a space for each digit of an inode number.
  pub ls-entries :
      (ino : ℕ) (w : Workdir) (b : Block) (es : List Entry) (buf unset : Bytes) (s : below.State)
      → w.workdir_ino ≡ some ino
      → ino < fs_root_inode
      → treedisk_read below below_ino ino 0 s ≡ ok (some b)
      → c_string block_size 0 (bytes_of b) ≡ some (text_of es)
      → All (λ e. IsEntry e × StartsPlain e.name) es
      → ls (file_service below below_ino stale) w buf unset (none, s)
        ≡ ok (text_of (map blanked es) ++ crlf, (none, s))
  unfolding ls
  ls-entries ino w b es buf unset s cwd rofs found text names =
      let read =
        file_read-received below below_ino stale ino 0 block_size buf unset (none, s) rofs
          (omega arith) in
      let small : ltb ino fs_root_inode ≡ true = ground arith in
      rw
        (
          cwd,
          read,
          found,
          small,
          string_in-copy (bytes_of b) buf (text_of es) text,
          without_numbers-text es names,
        )
        refl

-- A text that ends in a line break is printed as it is, any other with a line break behind it.
abbrev pub Line : (text out : List ℕ) → Type 0
Line text out =
    ((before : List ℕ) × (text ≡ before ++ (newline ∷ [])) × (out ≡ text))
    ⊎ (((before : List ℕ) → text ≢ before ++ (newline ∷ [])) × (out ≡ text ++ crlf))

before_end :
    (c : ℕ) (text : List ℕ)
    → ends_with c text ≡ true
    → (before : List ℕ) × (text ≡ before ++ (c ∷ []))
before_end c [] h = cc
before_end c (x ∷ []) h = let same : x ≡ c = ground arith in ([], ap (λ y. y ∷ []) same)
before_end c (x ∷ y ∷ xs) h =
    let (before, e) = before_end c (y ∷ xs) h in (x ∷ before, ap (λ ys. x ∷ ys) e)

printed-Line :
    (c : ℕ) (cs : List ℕ) → (out : List ℕ) × (printed (c ∷ cs) ≡ ok out) × Line (c ∷ cs) out
unfolding printed
printed-Line c cs = elim (Bool-cases (ends_with newline (c ∷ cs))) [
  | inl ends ↦
      let (before, e) = before_end newline (c ∷ cs) ends in
      (c ∷ cs, rw ends refl, inl (before, e, refl))
  | inr open_line ↦ (
    (c ∷ cs) ++ crlf,
    rw open_line refl,
    inr (
      λ before e.
          true_false
            (sym (ends_with-append newline before) ∙ ap (ends_with newline) (sym e) ∙ open_line),
      refl,
    ),
  )
]
  where
    true_false : true ≡ false → ⊥
    true_false e = cc

-- For a name that the directory server finds in the read-only file system, whose first block holds
-- a text that is not empty, cat prints exactly the text if it ends in a line break, and else the
-- text and a line break.
pub cat-Line :
    (below : InodeStore) (below_ino : ℕ) (stale : Bytes) (dirs : Service DirRequest DirReply)
    (name : List ℕ) (w : Workdir) (ino : ℕ) (b : Block) (c : ℕ) (cs : List ℕ) (buf unset : Bytes)
    (d d1 : dirs.State) (s : below.State)
    → lookup_in dirs w.workdir_ino name d ≡ ok (some ino, d1)
    → ino < fs_root_inode
    → treedisk_read below below_ino ino 0 s ≡ ok (some b)
    → c_string block_size 0 (bytes_of b) ≡ some (c ∷ cs)
    → (out : List ℕ) × (cat
          (file_service below below_ino stale)
          dirs
          name
          w
          buf
          unset
          (d, (none, s))
        ≡ ok (some out, d1, (none, s)))
      × Line (c ∷ cs) out
unfolding cat
cat-Line below below_ino stale dirs name w ino b c cs buf unset d d1 s looked rofs found text =
    let read =
      file_read-received below below_ino stale ino 0 block_size buf unset (none, s) rofs
        (omega arith) in
    let (out, prints, line) = printed-Line c cs in
    (
      out,
      rw (looked, read, found, string_in-copy (bytes_of b) buf (c ∷ cs) text, prints) refl,
      line,
    )
