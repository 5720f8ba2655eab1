-- ===== src/Apps/Commands.antt =====
-- The commands of apps/user that work on files: cd, ls, cat, append, pwd and echo. Characters are
-- their codes. What a command prints with printf is part of its result, its messages with INFO are not.
pub mod Paths
pub mod Listing
pub mod Printing
pub mod Appending
use egos_project.Prelude.{
  ℕ, zero, suc, ◌+◌, ◌-◌, Bool, true, false, not, ◌&&◌, ◌==◌, ltb, leb, if◌then◌else◌, Option, none,
  some, List, [], ◌∷◌, ◌++◌, length, get_or, take, Run, ok, fatal, undefined, server_error, ◌>>=◌,
}
use egos_project.Earth.Disk.{block_size}
use egos_project.RwFs.{same_string}
use egos_project.Apps.Shell.{space}
use egos_project.Apps.Shell.Batch.{ends_with}
use egos_project.Apps.Servers.{
  Bytes, FileRequest, FileReply, DirRequest, DirReply, Service, dir_lookup, file_read, file_write,
  file_size,
}
use egos_project.Apps.FileServer.{fs_root_inode}
use egos_project.Apps.DirServer.{c_string}

abbrev pub slash : ℕ
slash = 47

abbrev pub dot : ℕ
dot = 46

abbrev pub newline : ℕ
newline = 10

-- "\r\n"
abbrev pub crlf : List ℕ
crlf = 13 ∷ (newline ∷ [])

-- The fields of struct grass that hold the working directory; an inode number of -1 is `none`.
pub record Workdir : Type 0 where
  pub workdir_ino : Option ℕ
  pub workdir : List ℕ

-- char workdir[128]
abbrev pub workdir_len : ℕ
workdir_len = 128

-- A lookup in the directory -1 ends in the file server, which stops at an inode that is none of the
-- read-only file system.
abbrev pub lookup_in :
    (dirs : Service DirRequest DirReply)
    → Option ℕ
    → List ℕ
    → dirs.State
    → Run (Option ℕ × dirs.State)
lookup_in dirs none name s = fatal server_error
lookup_in dirs (some ino) name s = dir_lookup dirs ino name s

-- A path that fits into its array with its 0.
abbrev pub stored_path : Option ℕ → List ℕ → Run Workdir
stored_path ino path =
    if ltb (length path) workdir_len
    then ok (record { workdir_ino = ino; workdir = path })
    else undefined

-- The loop that goes back from `len` to a slash. Without one it leaves the array.
unfoldable pub back_to_slash : (len : ℕ) → List ℕ → Run ℕ
back_to_slash zero path = if get_or path 0 0 == slash then ok 0 else undefined
back_to_slash (suc len) path =
    let rest = back_to_slash len path in
    if get_or path (suc len) 0 == slash then ok (suc len) else rest

-- The path after "../".
unfoldable pub parent_path : List ℕ → Run (List ℕ)
unfolding back_to_slash
parent_path path = do
  len ← back_to_slash (length path) path
  ok (if len == 0 then take 1 path else take len path)

-- The path after any other name.
unfoldable pub child_path : List ℕ → (name : List ℕ) → List ℕ
child_path path name = if ltb 1 (length path) then path ++ (slash ∷ name) else path ++ name

-- The part behind the lookup. The name has its slash behind it in the source.
unfoldable pub change_path : (dir_ino : ℕ) → (name : List ℕ) → Workdir → Run Workdir
unfolding parent_path child_path
change_path dir_ino name w =
    if same_string name (dot ∷ [])
    then ok (record w { workdir_ino = some dir_ino })
    else if same_string name (dot ∷ (dot ∷ []))
    then (do path ← parent_path w.workdir; stored_path (some dir_ino) path)
    else stored_path (some dir_ino) (child_path w.workdir name)

-- "home/", "cs6640/" and "/home/cs6640"
abbrev pub home : List ℕ
home = 104 ∷ (111 ∷ (109 ∷ (101 ∷ [])))

abbrev pub cs6640 : List ℕ
cs6640 = 99 ∷ (115 ∷ (54 ∷ (54 ∷ (52 ∷ (48 ∷ [])))))

module _ (dirs : Service DirRequest DirReply) where
  -- main of cd.c for its first argument, if there is one. The result is whether it returns 0.
  unfoldable pub cd : Option (List ℕ) → Workdir → dirs.State → Run (Bool × Workdir × dirs.State)
  unfolding change_path
  cd none w s = do
    (home_ino, s1) ← dir_lookup dirs 0 (home ++ (slash ∷ [])) s
    (ino, s2) ← lookup_in dirs home_ino (cs6640 ++ (slash ∷ [])) s1
    ok (true, record { workdir_ino = ino; workdir = slash ∷ (home ++ (slash ∷ cs6640)) }, s2)
  cd (some name) w s = do
    (found, s1) ← lookup_in dirs w.workdir_ino (name ++ (slash ∷ [])) s
    elim found [
      | none ↦ ok (false, w, s1)
      | some dir_ino ↦ do w' ← change_path dir_ino name w; ok (true, w', s1)
    ]

-- The loop of ls.c over the characters behind the first one, where `prev` is the one before.
unfoldable pub blank_digits : (prev : ℕ) → List ℕ → List ℕ
blank_digits prev [] = []
blank_digits prev (c ∷ cs) =
    let c' = if prev == space && (leb 48 c && leb c 57) then space else c in c' ∷ blank_digits c' cs

unfoldable pub without_numbers : List ℕ → List ℕ
unfolding blank_digits
without_numbers [] = []
without_numbers (c ∷ cs) = c ∷ blank_digits c cs

-- What the string functions see in a buffer of a block: a string without its 0 leaves it.
abbrev pub string_in : Bytes → Run (List ℕ)
string_in buf = elim (c_string block_size 0 buf) [ none ↦ undefined | some cs ↦ ok cs ]

-- What cat prints of a text. The character before the 0 of an empty one stands before the buffer.
unfoldable pub printed : List ℕ → Run (List ℕ)
printed [] = undefined
printed (c ∷ cs) = if ends_with newline (c ∷ cs) then ok (c ∷ cs) else ok ((c ∷ cs) ++ crlf)

module _ (files : Service FileRequest FileReply) where
  -- main of ls.c, without arguments. A read that fails leaves the buffer as it is, and the inode
  -- number -1 is no file.
  unfoldable pub ls : Workdir → (buf unset : Bytes) → files.State → Run (List ℕ × files.State)
  unfolding without_numbers
  ls w buf unset s = elim w.workdir_ino [
    | none ↦ undefined
    | some ino ↦ do
      (found, text, s1) ← file_read files ino 0 block_size buf unset s
      if ltb ino fs_root_inode
          then (do cs ← string_in text; ok (without_numbers cs ++ crlf, s1))
          else fatal server_error
  ]

  module _ (dirs : Service DirRequest DirReply) where
    -- main of cat.c for one argument; `none` is the result -1.
    unfoldable pub cat :
        (name : List ℕ)
        → Workdir
        → (buf unset : Bytes) → dirs.State × files.State
        → Run (Option (List ℕ) × dirs.State × files.State)
    unfolding printed
    cat name w buf unset (d, s) = do
      (found, d1) ← lookup_in dirs w.workdir_ino name d
      elim found [
        | none ↦ ok (none, d1, s)
        | some ino ↦ do
          (done, text, s1) ← file_read files ino 0 block_size buf unset s
          cs ← string_in text
          out ← printed cs
          ok (some out, d1, s1)
      ]

    -- The bytes of a text.
    abbrev pub text_bytes : List ℕ → Bytes
    text_bytes cs i = get_or cs i 0

    -- main of append.c for its two arguments. A size of -1 goes on as an offset.
    unfoldable pub append :
        (name content : List ℕ)
        → Workdir
        → (buf unset : Bytes) → dirs.State × files.State
        → Run (Bool × dirs.State × files.State)
    append name content w buf unset (d, s) = do
      (found, d1) ← lookup_in dirs w.workdir_ino name d
      elim found [
        | none ↦ ok (false, d1, s)
        | some ino ↦ if length content == 0 then ok (true, d1, s) else (do
          (fsz, s1) ← file_size files ino buf unset s
          let offset : ℕ = elim fsz [ none ↦ 0xffff_ffff | some size ↦ size ]
          (done, _, s2) ← file_write files ino offset (length content) (text_bytes content) unset s1
          ok (done, d1, s2))
      ]

-- main of pwd.c and of echo.c
unfoldable pub pwd : Workdir → List ℕ
pwd w = w.workdir ++ crlf

unfoldable pub echo : (args : List (List ℕ)) → List ℕ
echo [] = crlf
echo (arg ∷ args) = arg ++ (space ∷ echo args)
