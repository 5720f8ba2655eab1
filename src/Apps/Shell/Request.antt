-- ===== src/Apps/Shell/Request.antt =====
-- parse_request splits a command into its words.
use egos_project.Prelude.{
  ℕ, ◌+◌, ◌≡◌, refl, subst, inl, inr, arith, true, false, ◌&&◌, ◌==◌, leb, if◌then◌else◌, List, [],
  ◌∷◌, ◌++◌, length, length-append, Bool-cases,
}
use egos_project.Apps.Shell.{
  cmd_nargs, cmd_arg_len, space, Argv, put_char, parse_loop, parse_request,
}
use egos_project.Apps.Shell.Words.{
  words_from, words, append_snoc, words_from-char, begun_char, get_or-length, words_from-skip,
  words_from-gap,
}
use egos_project.Apps.Shell.Parse.{
  Going, Outcome, finished, long_word, many_words, in_array, next_char, next_word, too_long,
  parse_loop-end,
}

-- What holds of the loop over `cs` from every state.
abbrev Later : List ℕ → Type 0
Later cs =
    (past : List (List ℕ)) (word : List ℕ) (argv : Argv)
    → Going past word argv
    → Outcome (past ++ words_from word cs) (finished cs (length word) (length past) argv)

module _ (c : ℕ) (cs : List ℕ) (later : Later cs) (past : List (List ℕ)) (word : List ℕ)
    (argv : Argv) (g : Going past word argv) where
  after_char :
      (c == space) ≡ false
      → Outcome
          (past ++ words_from word (c ∷ cs))
          (finished (c ∷ cs) (length word) (length past) argv)
  unfolding parse_loop put_char
  after_char char =
      let inside = in_array past word argv g in
      let word' = word ++ (c ∷ []) in
      let ws = words_from word' cs in
      elim (Bool-cases (leb cmd_arg_len (length word + 1))) [
        | inl long ↦
            let (some_words, longer) = begun_char word c cs in
            let size = length-append past ws in
            rw (words_from-char word c cs char) (
              inl (
                long_word (length past) (omega (arith, size, some_words)) (
                    rw (get_or-length past ws)
                      (omega (arith, longer, too_long (length word) long))),
                rw (parse_loop, char, put_char, inside, long) refl,
              ))
        | inr short ↦
            let argv' : Argv =
              λ i j. if i == length past && j == length word then c else argv i j in
            rw (words_from-char word c cs char, parse_loop, char, put_char, inside, short)
              (subst (λ n. Outcome (past ++ ws) (finished cs n (length past) argv'))
                (length-append word (c ∷ []))
                (later past word' argv' (next_char past word c argv g short)))
      ]

  after_word :
      (c == space) ≡ true
      → (length word == 0) ≡ false
      → Outcome
          (past ++ words_from word (c ∷ cs))
          (finished (c ∷ cs) (length word) (length past) argv)
  unfolding parse_loop put_char
  after_word gap ended =
      let inside = in_array past word argv g in
      let ws = words_from [] cs in
      elim (Bool-cases (leb cmd_nargs (length past + 1))) [
        | inl full ↦ rw (words_from-gap word c cs gap ended) (
            inl (
              many_words (ground (arith, length-append past (word ∷ ws))),
              rw (parse_loop, gap, ended, put_char, inside, full) refl,
            ))
        | inr room ↦
            let argv' : Argv =
              λ i j. if i == length past && j == length word then 0 else argv i j in
            let past' = past ++ (word ∷ []) in
            rw (words_from-gap word c cs gap ended, parse_loop, gap, ended, put_char, inside, room)
              (subst (λ n. Outcome (past ++ (word ∷ ws)) (finished cs 0 n argv'))
                (length-append past (word ∷ []))
                (subst (λ all. Outcome all (finished cs 0 (length past') argv'))
                  (append_snoc past word ws)
                  (later past' [] argv' (next_word past word argv g room))))
      ]

parse_loop-Outcome : (cs : List ℕ) → Later cs
unfolding parse_loop
parse_loop-Outcome [] past word argv g = parse_loop-end past word argv g
parse_loop-Outcome (c ∷ cs) past word argv g = elim (Bool-cases (c == space)) [
  | inl gap ↦ elim (Bool-cases (length word == 0)) [
    | inl empty ↦
        rw (words_from-skip word c cs gap empty, parse_loop, gap, empty)
          (parse_loop-Outcome cs past word argv g)
    | inr ended ↦ after_word c cs (parse_loop-Outcome cs) past word argv g gap ended
  ]
  | inr char ↦ after_char c cs (parse_loop-Outcome cs) past word argv g char
]

-- parse_request never writes outside its array, and refuses a command only if it has a word with
-- no room or sixteen words; otherwise it counts the words and puts each in its row, all other
-- characters 0.
pub parse_request-Outcome : (buf : List ℕ) → Outcome (words buf) (parse_request buf)
unfolding parse_request
parse_request-Outcome buf =
    parse_loop-Outcome buf [] [] (λ i j. 0)
      (record {
        room = omega arith;
        fits = omega arith;
        short = λ i h. absurd (omega arith);
        holds = λ i j. ground arith;
      })
