-- ===== src/Tests/Shell.antt =====
-- The parsing of a command: "ls  a", and the row of its second word.
use egos_project.Prelude.{ℕ, ◌≡◌, refl, List, [], ◌∷◌, Option, none, some, Run, ok, arith}
use egos_project.Apps.Shell.{ProcRequest, put_char, parse_loop, parse_request}
use egos_project.Apps.Shell.Batch.{Batch, run_batch}
use egos_project.Apps.Shell.Batch.Runs.{run_batch-text}
use egos_project.Apps.Shell.Words.{words}
use egos_project.Apps.Shell.Parse.{Outcome}
use egos_project.Apps.Shell.Request.{parse_request-Outcome}

abbrev command : List ℕ
command = 108 ∷ 115 ∷ 32 ∷ 32 ∷ 97 ∷ []

abbrev request_of : Run (Option ProcRequest) → ProcRequest
request_of (ok (some r)) = r
request_of _ = record { argc = 0; argv = λ i j. 0 }

second_word :
    ((request_of (parse_request command)).argc ≡ 2)
    × ((request_of (parse_request command)).argv 1 0 ≡ 97)
unfolding parse_request parse_loop put_char
second_word = (refl, refl)

parse_request-Outcome_example : Outcome (words command) (parse_request command)
parse_request-Outcome_example = parse_request-Outcome command

-- The batch "(ls;cd)".
abbrev batch : List (List ℕ)
batch = (108 ∷ 115 ∷ []) ∷ (99 ∷ 100 ∷ []) ∷ []

abbrev old_line : Batch
old_line = record { cmds = []; cmd_idx = none; count = 0 }

run_batch-text_example :
    run_batch 3 (40 ∷ 108 ∷ 115 ∷ 59 ∷ 99 ∷ 100 ∷ 41 ∷ []) old_line
    ≡ ok (batch, record { cmds = batch; cmd_idx = none; count = 0 })
run_batch-text_example =
    run_batch-text 3 batch old_line
      (
        ((λ e. cc), ((λ e. omega arith), ((λ e. omega arith), tt)), omega arith),
        (((λ e. cc), ((λ e. omega arith), ((λ e. omega arith), tt)), omega arith), tt),
      )
      (omega arith) (omega arith) refl (omega arith)
