-- ===== src/Tests/Commands.antt =====
-- The commands over a directory server that finds every name, and a disk with a directory and a text.
use egos_project.Prelude.{
  ◌+◌, ◌&&◌, leb, length, inl, inr, Option, Bool-cases, fatal, server_error, invalid_request, false,
  ℕ, ◌≡◌, refl, arith, ◌==◌, if◌then◌else◌, List, [], ◌∷◌, ◌++◌, map, some, none, true, ok,
}
use egos_project.Grass.Process.{gpid_dir, gpid_file}
use egos_project.TreeDisk.Store.{Block}
use egos_project.TreeDisk.Access.{treedisk_read}
use egos_project.TreeDisk.RamDisk.{ramdisk_init, ramread}
use egos_project.TreeDisk.Layout.{treedisk_get_snapshot, read_inode, levels, log_shift_r}
use egos_project.Apps.Servers.{
  Service, DirRequest, DirReply, FileRequest, FileReply, file_getsize_op, file_write_op, dir_lookup,
}
use egos_project.Apps.FileServer.{bytes_of, file_service}
use egos_project.Apps.DirServer.{c_string}
use egos_project.Apps.DirServer.Entries.{Entry, text_of}
use egos_project.Apps.Commands.{Workdir, slash, crlf, cd, ls, cat, without_numbers, echo, pwd}
use egos_project.Apps.Commands.Paths.{path_text, cd-enter}
use egos_project.Apps.Commands.Listing.{blanked}
use egos_project.Apps.Commands.Printing.{Line, ls-entries, cat-Line}
use egos_project.Apps.Commands.Appending.{taken, FileStore}

-- Every name is the inode 1.
abbrev finds : Service DirRequest DirReply
finds = record {
  State = ℕ;
  send = λ req s. ok s;
  recv = λ s. ok (gpid_dir, record { status = true; ino = some 1 }, s);
}

-- "home" and "bin" on the way to the working directory "/bin/home"
abbrev home : List ℕ
home = 104 ∷ (111 ∷ (109 ∷ (101 ∷ [])))

abbrev bin : List ℕ
bin = 98 ∷ (105 ∷ (110 ∷ []))

abbrev names : List (List ℕ)
names = home ∷ (bin ∷ [])

abbrev here : Workdir
here = record { workdir_ino = some 0; workdir = path_text names }

abbrev dot_dot : List ℕ
dot_dot = 46 ∷ (46 ∷ [])

cd-enter_example :
    cd finds (some dot_dot) here 7
    ≡ ok (true, record { workdir_ino = some 1; workdir = path_text (bin ∷ []) }, 7)
unfolding dir_lookup
cd-enter_example =
    cd-enter finds dot_dot names here 7 7 (some 1)
      (
        (
          (λ e. cc),
          (
            (λ e. omega arith),
            ((λ e. omega arith), ((λ e. omega arith), ((λ e. omega arith), tt))),
          ),
        ),
        (((λ e. cc), ((λ e. omega arith), ((λ e. omega arith), ((λ e. omega arith), tt)))), tt),
      )
      refl (omega arith) refl

-- "bin 1 ", as the directory's only entry.
abbrev entry : Entry
entry = record { name = bin; gap = 0; number = 49 ∷ []; pad = 0 }

-- The block's words: "bin ", and "1 " with its 0.
abbrev listing : Block
listing i = if i == 0 then 0x206e_6962 else if i == 1 then 0x2031 else 0

-- The superblock, the inodes 0 and 1 with the blocks 2 and 3, the directory, and the text "bin 1 ".
abbrev disk : ℕ → Block
disk n =
    if n == 0
    then (λ i. if i == 0 then 1 else 0)
    else if n == 1
    then (λ i.
        if i == 0 then 2 else if i == 1 then 1 else if i == 2 then 3 else if i == 3 then 1 else 0)
    else listing

ls-entries_example :
    ls (file_service ramdisk_init 0 (λ i. 9)) here (λ i. 7) (λ i. 8) (none, disk)
    ≡ ok (text_of (map blanked (entry ∷ [])) ++ crlf, (none, disk))
unfolding treedisk_read treedisk_get_snapshot read_inode levels log_shift_r ramread c_string
ls-entries_example =
    ls-entries ramdisk_init 0 (λ i. 9) 0 here listing (entry ∷ []) (λ i. 7) (λ i. 8) disk refl
      (omega arith) refl refl
      (
        (
          (
            ((λ e. omega arith), ((λ e. omega arith), ((λ e. omega arith), tt))),
            (λ e. cc),
            ((omega arith, omega arith), tt),
          ),
          refl,
        ),
        tt,
      )

cat-Line_example :
    (out : List ℕ) × (cat
        (file_service ramdisk_init 0 (λ i. 9))
        finds
        home
        here
        (λ i. 7)
        (λ i. 8)
        (7, (none, disk))
      ≡ ok (some out, 7, (none, disk)))
    × Line (text_of (entry ∷ [])) out
unfolding dir_lookup treedisk_read treedisk_get_snapshot read_inode levels log_shift_r ramread
    c_string
cat-Line_example =
    cat-Line ramdisk_init 0 (λ i. 9) finds home here 1 listing 98
      (105 ∷ (110 ∷ (32 ∷ (49 ∷ (32 ∷ []))))) (λ i. 7) (λ i. 8) 7 7 disk refl (omega arith) refl
      refl

-- A file server in memory, whose files have at most 600 bytes.
abbrev in_memory : Service FileRequest FileReply
in_memory = record {
  State = Option FileReply × (ℕ → List ℕ);
  send = λ req (_, fs). elim req.type [
    | file_getsize_op ↦
        ok (some (record { status = true; block = bytes_of (λ i. length (fs req.ino)) }), fs)
    | file_write_op ↦
        if req.offset == length (fs req.ino) && leb (req.offset + req.len) 600
        then ok (
          some (record { status = true; block = λ i. 0 }),
          λ k. if k == req.ino then fs k ++ taken req.len req.block else fs k,
        )
        else ok (some (record { status = false; block = λ i. 0 }), fs)
    | _ ↦ fatal invalid_request
  ];
  recv = λ (waiting, fs). elim waiting [
    | none ↦ fatal server_error
    | some reply ↦ ok (gpid_file, reply, (none, fs))
  ];
}

in_memory-FileStore : FileStore in_memory
in_memory-FileStore = record {
  contents = λ s. s.1;
  tells_size = λ ino unset s small. (
    record { status = true; block = bytes_of (λ i. length (s.1 ino)) },
    (none, s.1),
    refl,
    refl,
    omega arith,
    λ k. refl,
  );
  writes_end = λ ino len block s fits. elim (Bool-cases (leb (length (s.1 ino) + len) 600)) [
    | inl room ↦
        let at : (length (s.1 ino) == length (s.1 ino)) ≡ true = ground arith in
        let itself : (ino == ino) ≡ true = ground arith in
        (
          record { status = true; block = λ i. 0 },
          (none, λ k. if k == ino then s.1 k ++ taken len block else s.1 k),
          rw (at, room) refl,
          rw itself refl,
          λ k apart. let other : (k == ino) ≡ false = ground arith in rw other refl,
        )
    | inr full ↦
        let at : (length (s.1 ino) == length (s.1 ino)) ≡ true = ground arith in
        (
          record { status = false; block = λ i. 0 },
          (none, s.1),
          rw (at, full) refl,
          refl,
          λ k apart. refl,
        )
  ];
}

-- The file 1 holds "home".
abbrev stored : Option FileReply × (ℕ → List ℕ)
stored = (none, λ k. if k == 1 then home else [])

-- "bin    " of "bin 1 ", and two arguments that are echoed.
blanks_one : without_numbers (text_of (entry ∷ [])) ≡ bin ++ (32 ∷ (32 ∷ (32 ∷ [])))
unfolding without_numbers
blanks_one = refl

echoes_two : echo (bin ∷ (home ∷ [])) ≡ bin ++ (32 ∷ (home ++ (32 ∷ crlf)))
unfolding echo
echoes_two = refl

shows_path : pwd here ≡ slash ∷ (bin ++ (slash ∷ (home ++ crlf)))
unfolding pwd
shows_path = refl
