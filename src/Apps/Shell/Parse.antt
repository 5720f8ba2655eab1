-- ===== src/Apps/Shell/Parse.antt =====
-- The loop of parse_request: what its array holds, and how it goes on.
use egos_project.Prelude.{
  ℕ, suc, ◌+◌, ◌<◌, ◌≤◌, ◌≡◌, refl, sym, ◌⊎◌, inl, inr, arith, true, false, ◌&&◌, ◌==◌, ltb, leb,
  if◌then◌else◌, Option, none, some, List, [], ◌∷◌, ◌++◌, length, get_or, length-append, Bool-cases,
  Run, ok, ◌>>=◌,
}
use egos_project.Apps.Shell.{cmd_nargs, cmd_arg_len, Argv, ProcRequest, parse_loop, finish}
use egos_project.Apps.Shell.Words.{words_from, char_at, get_or-snoc, get_or-behind, append_nil}

-- The array in the loop: the finished words `past`, and the part `word` of the next.
abbrev pub Holds : Argv → List (List ℕ) → List ℕ → Type 0
Holds argv past word =
    (i j : ℕ) → argv i j ≡ (if i == length past then get_or word j 0 else char_at past i j)

Holds-char :
    (argv : Argv) (past : List (List ℕ)) (word : List ℕ) (c : ℕ)
    → Holds argv past word
    → Holds
        (λ i j. if i == length past && j == length word then c else argv i j)
        past
        (word ++ (c ∷ []))
Holds-char argv past word c h i j = ground (arith, h i j, get_or-snoc word c 0 j)

Holds-word :
    (argv : Argv) (past : List (List ℕ)) (word : List ℕ)
    → Holds argv past word
    → Holds
        (λ i j. if i == length past && j == length word then 0 else argv i j)
        (past ++ (word ∷ []))
        []
Holds-word argv past word h i j =
    let size : length (past ++ (word ∷ [])) ≡ length past + 1 = length-append past (word ∷ []) in
    let row = get_or-snoc past word [] i in
    elim (Bool-cases (i == length past)) [
      | inl here ↦
          let over : (i == length (past ++ (word ∷ []))) ≡ false = ground (arith, size) in
          elim (Bool-cases (j == length word)) [
            | inl ends ↦
                let e = get_or-behind word 0 j (ground arith) in
                rw (here, ends, over, row, here) (sym e)
            | inr inside ↦ let e = h i j in rw (here, inside, over, row, here) (rw here at e)
          ]
      | inr other ↦ elim (Bool-cases (i == length (past ++ (word ∷ [])))) [
        | inl behind ↦
            let e = h i j in
            let out = get_or-behind past [] i (ground (arith, size)) in
            rw (other, behind) (rw (other, out) at e)
        | inr before ↦ let e = h i j in rw (other, before, row, other) (rw other at e)
      ]
    ]

-- The command is refused: a word with no room for its 0, or a word for each row that ends in a
-- space.
pub data Refused (ws : List (List ℕ)) : Type 0 where
  long_word : (i : ℕ) → i < length ws → cmd_arg_len ≤ length (get_or ws i []) → Refused ws
  many_words : cmd_nargs ≤ length ws → Refused ws

-- The outcome for a text with the words `ws`.
pub record Split (ws : List (List ℕ)) (out : Run (Option ProcRequest)) : Type 0 where
  pub request : ProcRequest
  pub result : out ≡ ok (some request)
  pub argc : request.argc ≡ length ws
  pub fits : length ws ≤ cmd_nargs
  pub short : (i : ℕ) → i < length ws → length (get_or ws i []) < cmd_arg_len
  pub argv : (i j : ℕ) → request.argv i j ≡ char_at ws i j

abbrev pub Outcome : List (List ℕ) → Run (Option ProcRequest) → Type 0
Outcome ws out = (Refused ws × (out ≡ ok none)) ⊎ Split ws out

abbrev pub finished : List ℕ → ℕ → ℕ → Argv → Run (Option ProcRequest)
finished cs idx nargs argv = parse_loop cs idx nargs argv >>= λ out. ok (finish out)

abbrev pub AllShort : List (List ℕ) → Type 0
AllShort ws = (i : ℕ) → i < length ws → length (get_or ws i []) < cmd_arg_len

-- The state of the loop.
pub record Going (past : List (List ℕ)) (word : List ℕ) (argv : Argv) : Type 0 where
  pub room : length past < cmd_nargs
  pub fits : length word < cmd_arg_len
  pub short : AllShort past
  pub holds : Holds argv past word

AllShort-snoc :
    (past : List (List ℕ)) (word : List ℕ)
    → length word < cmd_arg_len
    → AllShort past
    → AllShort (past ++ (word ∷ []))
AllShort-snoc past word h short i hi =
    let size : length (past ++ (word ∷ [])) ≡ length past + 1 = length-append past (word ∷ []) in
    let row = get_or-snoc past word [] i in
    elim (Bool-cases (i == length past)) [
      | inl here ↦ rw (row, here) h
      | inr other ↦ rw (row, other) (short i (ground (arith, size)))
    ]

pub parse_loop-end :
    (past : List (List ℕ)) (word : List ℕ) (argv : Argv)
    → Going past word argv
    → Outcome (past ++ words_from word []) (finished [] (length word) (length past) argv)
unfolding parse_loop
parse_loop-end past [] argv g = rw (append_nil past) (
    inr (record {
      request = record { argc = length past; argv = argv };
      result = refl;
      argc = refl;
      fits = let room = g.room in omega arith;
      short = g.short;
      argv = λ i j. elim (Bool-cases (i == length past)) [
        | inl behind ↦
            let e = g.holds i j in
            let out = get_or-behind past [] i (ground arith) in rw out (rw behind at e)
        | inr inside ↦ let e = g.holds i j in rw inside at e
      ];
    }))
parse_loop-end past (w ∷ word) argv g =
    let size : length (past ++ ((w ∷ word) ∷ [])) ≡ length past + 1 =
      length-append past ((w ∷ word) ∷ []) in
    let some_chars : (suc (length word) == 0) ≡ false = ground arith in
    let room = g.room in
    inr (record {
      request = record { argc = length past + 1; argv = argv };
      result = rw some_chars refl;
      argc = sym size;
      fits = omega (arith, size);
      short = AllShort-snoc past (w ∷ word) g.fits g.short;
      argv = λ i j.
          let row = get_or-snoc past (w ∷ word) [] i in
          elim (Bool-cases (i == length past)) [
            | inl here ↦ let e = g.holds i j in rw (row, here) (rw here at e)
            | inr other ↦ let e = g.holds i j in rw (row, other) (rw other at e)
          ];
    })

pub in_array :
    (past : List (List ℕ)) (word : List ℕ) (argv : Argv)
    → Going past word argv
    → (ltb (length past) cmd_nargs && ltb (length word) cmd_arg_len) ≡ true
in_array past word argv g = let room = g.room in let fits = g.fits in ground arith

pub next_char :
    (past : List (List ℕ)) (word : List ℕ) (c : ℕ) (argv : Argv)
    → Going past word argv
    → leb cmd_arg_len (length word + 1) ≡ false
    → Going past
        (word ++ (c ∷ []))
        (λ i j. if i == length past && j == length word then c else argv i j)
next_char past word c argv g h = record {
  room = g.room;
  fits = let size = length-append word (c ∷ []) in ground (arith, size);
  short = g.short;
  holds = Holds-char argv past word c g.holds;
}

pub next_word :
    (past : List (List ℕ)) (word : List ℕ) (argv : Argv)
    → Going past word argv
    → leb cmd_nargs (length past + 1) ≡ false
    → Going
        (past ++ (word ∷ []))
        []
        (λ i j. if i == length past && j == length word then 0 else argv i j)
next_word past word argv g h = record {
  room = let size = length-append past (word ∷ []) in ground (arith, size);
  fits = omega arith;
  short = AllShort-snoc past word g.fits g.short;
  holds = Holds-word argv past word g.holds;
}

pub too_long : (n : ℕ) → leb cmd_arg_len (n + 1) ≡ true → cmd_arg_len ≤ n + 1
too_long n h = ground arith
