-- ===== src/Earth/Tty.antt =====
-- tty_read of earth/dev_tty.c, and tty_intr. The characters that uart_getc gives, one after the
-- other, are a list; the calls that give none only wait. What is echoed is not modelled.
pub mod Editing
use egos_project.Prelude.{
  ℕ, ◌+◌, ◌-◌, ◌<◌, ◌≡◌, Bool, true, false, ◌==◌, ltb, if◌then◌else◌, Option, none, some, List, [],
  ◌∷◌,
}

abbrev pub ctrl_c : ℕ
ctrl_c = 0x03

abbrev pub enter_key : ℕ
enter_key = 0x0d

abbrev pub backspace : ℕ
backspace = 0x7f

abbrev pub put_byte : ℕ → ℕ → (ℕ → ℕ) → ℕ → ℕ
put_byte i c buf j = if i == j then c else buf j

-- The call waits for more characters, or has returned a length.
pub data Reading : Type 0 where
  waiting : Reading
  returned : (result : ℕ) (buf : ℕ → ℕ) → Reading

-- The loop from `i` on. A backspace takes `i` to the character before, or to 0; the place it was
-- read into is written again. When `i` has reached len - 1 the buffer is full.
unfoldable pub read_loop : (input : List ℕ) (i len : ℕ) (buf : ℕ → ℕ) → Reading
read_loop [] i len buf = elim (ltb i (len - 1)) [
  | true ↦ waiting
  | false ↦ returned (len - 1) (put_byte (len - 1) 0 buf)
]
read_loop (c ∷ cs) i len buf = elim (ltb i (len - 1)) [
  | true ↦ elim (c == ctrl_c) [
    | true ↦ returned 0 (put_byte i 0 (put_byte 0 0 (put_byte i c buf)))
    | false ↦ elim (c == enter_key) [
      | true ↦ returned i (put_byte i 0 (put_byte i c buf))
      | false ↦ elim (c == backspace) [
        | true ↦ read_loop cs (i - 1) len (put_byte i c buf)
        | false ↦ read_loop cs (i + 1) len (put_byte i c buf)
      ]
    ]
  ]
  | false ↦ returned (len - 1) (put_byte (len - 1) 0 buf)
]

unfoldable pub tty_read : (input : List ℕ) (len : ℕ) (buf : ℕ → ℕ) → Reading
unfolding read_loop
tty_read input len buf = read_loop input 0 len buf

-- uart_getc, where `none` is -1, is called unless a read is going on.
unfoldable pub tty_intr : (is_reading : Bool) (received : Option ℕ) → Bool
tty_intr true received = false
tty_intr false none = false
tty_intr false (some c) = c == ctrl_c
