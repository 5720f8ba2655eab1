-- ===== src/Apps/DirServer.antt =====
-- apps/system/sys_dir.c, the read-only build: a directory is a text of names and inode numbers.
-- Characters are their codes; an inode number of -1 is `none`.
pub mod Lookup
pub mod Entries
use egos_project.Prelude.{
  ℕ, zero, suc, ◌+◌, ◌-◌, ◌*◌, ◌%◌, Bool, true, false, ◌&&◌, ◌==◌, ltb, leb, if◌then◌else◌, Option,
  none, some, List, [], ◌∷◌, length, Run, ok, fatal, undefined, server_error, invalid_request,
  ◌>>=◌,
}
use egos_project.Earth.Disk.{block_size}
use egos_project.Apps.Shell.{space}
use egos_project.Apps.Servers.{
  Bytes, FileRequest, FileReply, Service, file_read, dir_lookup_op, DirRequest, DirReply,
}
use egos_project.Apps.FileServer.{fs_root_inode}

-- The string in an array of `n` bytes, up to its 0.
unfoldable pub c_string : (n i : ℕ) → Bytes → Option (List ℕ)
c_string zero i buf = none
c_string (suc n) i buf =
    let rest = c_string n (i + 1) buf in
    if buf i == 0 then some [] else elim rest [ none ↦ none | some cs ↦ some (buf i ∷ cs) ]

-- What atoi does with spaces in front of a number that has no sign.
abbrev pub digits : (value : ℕ) → List ℕ → ℕ
digits value [] = value
digits value (c ∷ cs) =
    let rest = digits (value * 10 + (c - 48)) cs in if leb 48 c && leb c 57 then rest else value

abbrev pub as_int : ℕ → Run ℕ
as_int value = if ltb value 0x8000_0000 then ok value else undefined

-- A number behind the range of an int is undefined.
abbrev pub atoi : List ℕ → Run ℕ
atoi [] = ok 0
atoi (c ∷ cs) = let rest = atoi cs in if c == space then rest else as_int (digits 0 (c ∷ cs))

-- !strncmp(name, buf + i, namelen): what stands behind the name.
abbrev pub strip : (name text : List ℕ) → Option (List ℕ)
strip [] text = some text
strip (n ∷ name) [] = none
strip (n ∷ name) (c ∷ text) = let rest = strip name text in if n == c then rest else none

-- A space follows the name.
abbrev pub followed : Option (List ℕ) → Option (List ℕ)
followed none = none
followed (some []) = none
followed (some (c ∷ cs)) = if c == space then some (c ∷ cs) else none

abbrev pub hit_or : Option (List ℕ) → Run (Option ℕ) → Run (Option ℕ)
hit_or none later = later
hit_or (some behind) later = do ino ← atoi behind; ok (some ino)

-- The loop over the positions, with `left` to go, where the text is what stands there, and `start`
-- says that i is 0 or a space stands before. Behind the text it leaves what has been read.
unfoldable pub lookup_loop : (left : ℕ) (start : Bool) (text name : List ℕ) → Run (Option ℕ)
lookup_loop zero start text name = ok none
lookup_loop (suc left) start [] name = undefined
lookup_loop (suc left) start (c ∷ text) name =
    hit_or (if start then followed (strip name (c ∷ text)) else none)
      (lookup_loop left (c == space) text name)

-- strlen(buf) - namelen, which has 32 bits and no sign.
abbrev pub positions : (len namelen : ℕ) → ℕ
positions len namelen = (len + 0x1_0000_0000 - namelen % 0x1_0000_0000) % 0x1_0000_0000

unfoldable pub lookup_text : (text name : List ℕ) → Run (Option ℕ)
unfolding lookup_loop
lookup_text text name = lookup_loop (positions (length text) (length name)) true text name

module _ (srv : Service FileRequest FileReply) where
  -- A directory that cannot be read, or has no 0, leaves a buffer with no string.
  unfoldable pub dir_do_lookup :
      (dir_ino : ℕ) (name : List ℕ) (buf unset : Bytes) → srv.State → Run (Option ℕ × srv.State)
  unfolding lookup_text
  dir_do_lookup dir_ino name buf unset s = do
    (found, text, s1) ← file_read srv dir_ino 0 block_size buf unset s
    elim (c_string block_size 0 text) [
      | none ↦ undefined
      | some cs ↦ do ino ← lookup_text cs name; ok (ino, s1)
    ]

  abbrev found_ino : Option ℕ → DirReply
  found_ino none = record { status = false; ino = none }
  found_ino (some ino) = record { status = true; ino = some ino }

  -- The server's answer to a request.
  unfoldable pub answer : DirRequest → (buf unset : Bytes) → srv.State → Run (DirReply × srv.State)
  unfolding dir_do_lookup
  answer req buf unset s = elim req.type [
    | dir_lookup_op ↦
        if ltb req.ino fs_root_inode
        then (do (r, s1) ← dir_do_lookup req.ino req.name buf unset s; ok (found_ino r, s1))
        else fatal server_error
    | _ ↦ fatal invalid_request
  ]
