-- ===== src/Apps/Shell/Batch/Runs.antt =====
-- The loop of the shell runs exactly the commands of a batch.
use egos_project.Prelude.{
  ℕ, zero, suc, ◌+◌, ◌-◌, ◌<◌, ◌≤◌, ◌≡◌, ◌≢◌, refl, ap, ◌∙◌, arith, true, false, ltb, leb, ◌==◌,
  none, some, List, [], ◌∷◌, ◌++◌, length, take, get_elem?, All, ok,
}
use egos_project.Apps.Shell.Batch.{
  semicolon, open_paren, close_paren, max_cmds, cmd_len, Batch, ends_with, drop_last, pieces_of,
  some_pieces, copy_cmds, start_batch, next_cmd, parse_batch_cmds, run_batch,
}

-- The commands with semicolons between them, in parentheses.
abbrev pub joined : List (List ℕ) → List ℕ
joined [] = []
joined (cmd ∷ []) = cmd
joined (cmd ∷ next ∷ rest) = cmd ++ (semicolon ∷ joined (next ∷ rest))

abbrev pub batch_text : List (List ℕ) → List ℕ
batch_text cmds = open_paren ∷ (joined cmds ++ (close_paren ∷ []))

-- A command that can stand in a batch.
abbrev pub IsCommand : List ℕ → Type 0
IsCommand cmd = (cmd ≢ []) × All (λ c. c ≢ semicolon) cmd × (length cmd < cmd_len)

pub ends_with-append : (c : ℕ) (xs : List ℕ) → ends_with c (xs ++ (c ∷ [])) ≡ true
ends_with-append c [] = ground arith
ends_with-append c (x ∷ []) = ground arith
ends_with-append c (x ∷ y ∷ xs) = ends_with-append c (y ∷ xs)

drop_last-append : (c : ℕ) (xs : List ℕ) → drop_last (xs ++ (c ∷ [])) ≡ xs
drop_last-append c [] = refl
drop_last-append c (x ∷ []) = refl
drop_last-append c (x ∷ y ∷ xs) = ap (λ ys. x ∷ ys) (drop_last-append c (y ∷ xs))

-- A text without semicolons goes in front of the first piece.
pieces_of-plain :
    (cmd rest piece : List ℕ) (pieces : List (List ℕ))
    → All (λ c. c ≢ semicolon) cmd
    → pieces_of rest ≡ piece ∷ pieces
    → pieces_of (cmd ++ rest) ≡ (cmd ++ piece) ∷ pieces
pieces_of-plain [] rest piece pieces h e = e
pieces_of-plain (c ∷ cmd) rest piece pieces (h, hs) e =
    let other : (c == semicolon) ≡ false = ground arith in
    rw (pieces_of-plain cmd rest piece pieces hs e, other) refl

append_nil : (xs : List ℕ) → xs ++ [] ≡ xs
append_nil [] = refl
append_nil (x ∷ xs) = ap (λ ys. x ∷ ys) (append_nil xs)

some_pieces-cons :
    (cmd : List ℕ) (pieces : List (List ℕ))
    → cmd ≢ []
    → some_pieces (cmd ∷ pieces) ≡ cmd ∷ some_pieces pieces
some_pieces-cons [] pieces h = absurd (h refl)
some_pieces-cons (c ∷ cmd) pieces h = refl

pieces_of-joined :
    (cmd : List ℕ) (rest : List (List ℕ))
    → All IsCommand (cmd ∷ rest)
    → pieces_of (joined (cmd ∷ rest)) ≡ cmd ∷ rest
pieces_of-joined cmd [] ((_, plain, _), _) =
    rw (append_nil cmd) at (pieces_of-plain cmd [] [] [] plain refl)
pieces_of-joined cmd (next ∷ rest) ((_, plain, _), good) =
    let others = pieces_of-joined next rest good in
    let behind : pieces_of (semicolon ∷ joined (next ∷ rest)) ≡ [] ∷ next ∷ rest = rw others refl in
    rw (append_nil cmd) at
      (pieces_of-plain cmd (semicolon ∷ joined (next ∷ rest)) [] (next ∷ rest) plain behind)

some_pieces-good : (cmds : List (List ℕ)) → All IsCommand cmds → some_pieces cmds ≡ cmds
some_pieces-good [] h = refl
some_pieces-good (cmd ∷ cmds) ((ne, _, _), h) =
    some_pieces-cons cmd cmds ne ∙ ap (λ xs. cmd ∷ xs) (some_pieces-good cmds h)

copy_cmds-good : (cmds : List (List ℕ)) → All IsCommand cmds → copy_cmds cmds ≡ ok cmds
copy_cmds-good [] h = refl
copy_cmds-good (cmd ∷ cmds) ((_, _, l), h) =
    let short : ltb (length cmd) cmd_len ≡ true = ground arith in
    rw (short, copy_cmds-good cmds h) refl

tokens-joined :
    (cmds : List (List ℕ)) → All IsCommand cmds → some_pieces (pieces_of (joined cmds)) ≡ cmds
tokens-joined [] h = refl
tokens-joined (cmd ∷ cmds) h =
    ap some_pieces (pieces_of-joined cmd cmds h) ∙ some_pieces-good (cmd ∷ cmds) h

ends_with-behind :
    (xs : List ℕ) → ends_with close_paren (open_paren ∷ (xs ++ (close_paren ∷ []))) ≡ true
ends_with-behind [] = refl
ends_with-behind (x ∷ xs) = ends_with-append close_paren (x ∷ xs)

take_all : (n : ℕ) (xs : List ℕ) → length xs ≤ n → take n xs ≡ xs
take_all zero [] h = refl
take_all zero (x ∷ xs) h = elim h [ ]
take_all (suc n) [] h = refl
take_all (suc n) (x ∷ xs) h = ap (λ ys. x ∷ ys) (take_all n xs (omega arith))

start_batch-text :
    (cmds : List (List ℕ))
    → All IsCommand cmds
    → length (batch_text cmds) ≤ cmd_len
    → length cmds ≤ max_cmds
    → start_batch (batch_text cmds)
      ≡ ok (record { cmds = cmds; cmd_idx = some 0; count = length cmds })
unfolding start_batch
start_batch-text cmds h short few =
    let whole = take_all cmd_len (batch_text cmds) short in
    let rest = take_all (cmd_len - 1) (joined cmds ++ (close_paren ∷ [])) (omega (arith, short)) in
    let closed = ends_with-behind (joined cmds) in
    let inner = drop_last-append close_paren (joined cmds) in
    let fits : leb (length cmds) max_cmds ≡ true = ground arith in
    rw (whole, rest, closed, inner, tokens-joined cmds h, fits, copy_cmds-good cmds h) refl

-- What is left of a batch is run to its end, and the next line can start.
run_rest :
    (fuel cur : ℕ) (buf : List ℕ) (all rest : List (List ℕ))
    → ((i : ℕ) → get_elem? rest i ≡ get_elem? all (cur + i))
    → length all ≡ cur + length rest
    → length rest < fuel
    → run_batch fuel buf (record { cmds = all; cmd_idx = some cur; count = length all })
      ≡ ok (rest, record { cmds = all; cmd_idx = none; count = 0 })
unfolding run_batch parse_batch_cmds next_cmd
run_rest zero cur buf all rest same total enough = absurd (omega arith)
run_rest (suc fuel) cur buf all [] same total enough =
    let inside : leb cur (length all) ≡ true = ground arith in
    let at_end : ltb cur (length all) ≡ false = ground arith in rw (inside, at_end) refl
run_rest (suc fuel) cur buf all (cmd ∷ rest) same total enough =
    let inside : leb cur (length all) ≡ true = ground arith in
    let more : ltb cur (length all) ≡ true = ground arith in
    let here : cur + 0 ≡ cur = omega arith in
    let found : some cmd ≡ get_elem? all cur = rw here at (same 0) in
    let later =
      run_rest fuel (cur + 1) buf all rest
        (λ i. let next : cur + 1 + i ≡ cur + suc i = omega arith in rw next (same (suc i)))
        (omega arith) (omega arith) in
    rw (inside, more, ← found, later) refl

-- The first call finds the batch, and goes on as a later one.
first_call :
    (fuel : ℕ) (cmds : List (List ℕ)) (b : Batch)
    → All IsCommand cmds
    → length (batch_text cmds) ≤ cmd_len
    → length cmds ≤ max_cmds
    → b.cmd_idx ≡ none
    → length cmds < fuel
    → run_batch fuel (batch_text cmds) b
      ≡ run_batch fuel
          (batch_text cmds)
          (record { cmds = cmds; cmd_idx = some 0; count = length cmds })
unfolding run_batch parse_batch_cmds
first_call zero cmds b good short few fresh enough = absurd (omega arith)
first_call (suc fuel) cmds b good short few fresh enough =
    rw (fresh, start_batch-text cmds good short few) refl

-- For at most ten commands that are not empty and hold no semicolon, whose batch has at most 256
-- characters with its parentheses and semicolons, the loop of the shell on the batch ends after one call more than there are commands,
-- runs exactly the commands, in order, and leaves the static variables ready for the next line.
pub run_batch-text :
    (fuel : ℕ) (cmds : List (List ℕ)) (b : Batch)
    → All IsCommand cmds
    → length (batch_text cmds) ≤ cmd_len
    → length cmds ≤ max_cmds
    → b.cmd_idx ≡ none
    → length cmds < fuel
    → run_batch fuel (batch_text cmds) b
      ≡ ok (cmds, record { cmds = cmds; cmd_idx = none; count = 0 })
run_batch-text fuel cmds b good short few fresh enough =
    first_call fuel cmds b good short few fresh enough
    ∙ run_rest fuel 0 (batch_text cmds) cmds cmds
        (λ i. let same : 0 + i ≡ i = omega arith in rw same refl) (omega arith) enough
