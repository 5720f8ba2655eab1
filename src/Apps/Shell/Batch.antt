-- ===== src/Apps/Shell/Batch.antt =====
-- parse_batch_cmds of apps/system/sys_shell.c, and the loop of main that calls it: a line is one
-- command, or a batch of commands in parentheses.
pub mod Runs
use egos_project.Prelude.{
  ℕ, zero, suc, ◌+◌, ◌-◌, Bool, true, false, ◌&&◌, ltb, leb, ◌==◌, if◌then◌else◌, Option, none,
  some, List, [], ◌∷◌, length, take, get_elem?, Run, ok, undefined, assert, ◌>>=◌, ◌>>◌,
}

abbrev pub semicolon : ℕ
semicolon = 59

abbrev pub open_paren : ℕ
open_paren = 40

abbrev pub close_paren : ℕ
close_paren = 41

abbrev pub max_cmds : ℕ
max_cmds = 10

abbrev pub cmd_len : ℕ
cmd_len = 256

-- The static variables: an index of -1 is `none`, and `count` is max_idx + 1.
pub record Batch : Type 0 where
  pub cmds : List (List ℕ)
  pub cmd_idx : Option ℕ
  pub count : ℕ

-- The last character of a text, and the text without it.
abbrev pub ends_with : ℕ → List ℕ → Bool
ends_with c [] = false
ends_with c (x ∷ []) = x == c
ends_with c (x ∷ y ∷ xs) = ends_with c (y ∷ xs)

abbrev pub drop_last : List ℕ → List ℕ
drop_last [] = []
drop_last (x ∷ []) = []
drop_last (x ∷ y ∷ xs) = x ∷ drop_last (y ∷ xs)

-- A character in front of the first piece, or a piece that ends there.
abbrev pub add_char : ℕ → List (List ℕ) → List (List ℕ)
add_char c [] = (c ∷ []) ∷ []
add_char c (piece ∷ pieces) = if c == semicolon then [] ∷ piece ∷ pieces else (c ∷ piece) ∷ pieces

abbrev pub pieces_of : List ℕ → List (List ℕ)
pieces_of [] = [] ∷ []
pieces_of (c ∷ cs) = add_char c (pieces_of cs)

-- What strtok gives: the pieces that are not empty.
abbrev pub some_pieces : List (List ℕ) → List (List ℕ)
some_pieces [] = []
some_pieces ([] ∷ pieces) = some_pieces pieces
some_pieces ((c ∷ piece) ∷ pieces) = (c ∷ piece) ∷ some_pieces pieces

-- A command of 256 characters has no 0 in its row.
abbrev pub copy_cmds : List (List ℕ) → Run (List (List ℕ))
copy_cmds [] = ok []
copy_cmds (cmd ∷ rest) =
    if ltb (length cmd) cmd_len then (do cs ← copy_cmds rest; ok (cmd ∷ cs)) else undefined

-- The first call for a line, of which strnlen sees 256 characters: the last of these is looked at,
-- and ends the batch. A command behind the tenth is written behind the array.
unfoldable pub start_batch : List ℕ → Run Batch
start_batch [] = do
  cmds ← copy_cmds ([] ∷ [])
  ok (record { cmds = cmds; cmd_idx = some 0; count = 1 })
start_batch (c ∷ text) =
    if c == open_paren && ends_with close_paren (take cmd_len (c ∷ text))
    then (let found = some_pieces (pieces_of (drop_last (take (cmd_len - 1) text))) in
        if leb (length found) max_cmds
        then (do
          cmds ← copy_cmds found
          ok (record { cmds = cmds; cmd_idx = some 0; count = length found }))
        else undefined)
    else (do
      cmds ← copy_cmds ((c ∷ text) ∷ [])
      ok (record { cmds = cmds; cmd_idx = some 0; count = 1 }))

-- The next command, or NULL at the end.
unfoldable pub next_cmd : ℕ → Batch → Run (Option (List ℕ) × Batch)
next_cmd cur b = do
  assert (leb cur b.count)
  if ltb cur b.count
      then elim (get_elem? b.cmds cur) [
        | none ↦ undefined
        | some cmd ↦ ok (some cmd, record b { cmd_idx = some (cur + 1) })
      ]
      else ok (none, record b { cmd_idx = none; count = 0 })

unfoldable pub parse_batch_cmds : List ℕ → Batch → Run (Option (List ℕ) × Batch)
unfolding start_batch next_cmd
parse_batch_cmds buf b = elim b.cmd_idx [
  | none ↦ do b1 ← start_batch buf; next_cmd 0 b1
  | some cur ↦ next_cmd cur b
]

-- The loop of main for one line: the commands that it runs, one after the other.
unfoldable pub run_batch : (fuel : ℕ) → List ℕ → Batch → Run (List (List ℕ) × Batch)
unfolding parse_batch_cmds
run_batch zero buf b = undefined
run_batch (suc fuel) buf b = do
  (nextcmd, b1) ← parse_batch_cmds buf b
  elim nextcmd [
    | none ↦ ok ([], b1)
    | some cmd ↦ do (cmds, b2) ← run_batch fuel buf b1; ok (cmd ∷ cmds, b2)
  ]
