-- ===== src/Apps/Shell.antt =====
-- parse_request of apps/system/sys_shell.c, and struct proc_request of library/servers/servers.h.
pub mod Words
pub mod Batch
pub mod Parse
pub mod Request
use egos_project.Prelude.{
  ℕ, ◌+◌, Bool, true, false, ◌&&◌, ◌==◌, ltb, leb, if◌then◌else◌, Option, none, some, List, [], ◌∷◌,
  Run, ok, undefined, ◌>>=◌,
}

-- CMD_NARGS
abbrev pub cmd_nargs : ℕ
cmd_nargs = 16

-- CMD_ARG_LEN
abbrev pub cmd_arg_len : ℕ
cmd_arg_len = 32

-- ' '
abbrev pub space : ℕ
space = 32

abbrev pub Argv : Type 0
Argv = ℕ → ℕ → ℕ

pub record ProcRequest : Type 0 where
  pub argc : ℕ
  pub argv : Argv

-- req->argv[nargs][idx] = c
unfoldable pub put_char : (nargs idx c : ℕ) → Argv → Run Argv
put_char nargs idx c argv =
    if ltb nargs cmd_nargs && ltb idx cmd_arg_len
    then ok (λ i j. if i == nargs && j == idx then c else argv i j)
    else undefined

-- What the loop leaves: `idx`, `nargs` and the array.
abbrev pub Parsed : Type 0
Parsed = ℕ × ℕ × Argv

-- The loop over the characters of `buf` before its 0; `none` stands for the result -1.
unfoldable pub parse_loop : List ℕ → (idx nargs : ℕ) → Argv → Run (Option Parsed)
parse_loop [] idx nargs argv = ok (some (idx, nargs, argv))
parse_loop (c ∷ cs) idx nargs argv = elim (c == space) [
  | false ↦ do
    argv' ← put_char nargs idx c argv
    elim (leb cmd_arg_len (idx + 1)) [
      | true ↦ ok none
      | false ↦ parse_loop cs (idx + 1) nargs argv'
    ]
  | true ↦ elim (idx == 0) [
    | true ↦ parse_loop cs idx nargs argv
    | false ↦ do
      argv' ← put_char nargs idx 0 argv
      elim (leb cmd_nargs (nargs + 1)) [
        | true ↦ ok none
        | false ↦ parse_loop cs 0 (nargs + 1) argv'
      ]
  ]
]

abbrev pub finish : Option Parsed → Option ProcRequest
finish none = none
finish (some (idx, nargs, argv)) =
    some (record { argc = if idx == 0 then nargs else nargs + 1; argv = argv })

unfoldable pub parse_request : List ℕ → Run (Option ProcRequest)
parse_request buf = do out ← parse_loop buf 0 0 (λ i j. 0); ok (finish out)
