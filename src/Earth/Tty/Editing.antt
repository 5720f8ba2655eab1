-- ===== src/Earth/Tty/Editing.antt =====
-- tty_read is a line editor.
use egos_project.Prelude.{
  ℕ, ◌+◌, ◌-◌, ◌<◌, ◌≤◌, ◌≡◌, refl, subst, inl, inr, arith, false, ◌==◌, ltb, if◌then◌else◌, List,
  [], ◌∷◌, length, Bool-cases,
}
use egos_project.Earth.Tty.{
  ctrl_c, enter_key, backspace, put_byte, Reading, waiting, returned, read_loop, tty_read,
}

-- A line is still typed, is finished, or was given up. Its last character stands first.
pub data Line : Type 0 where
  open_line : Line
  line : List ℕ → Line
  cancelled : Line

abbrev erase : List ℕ → List ℕ
erase [] = []
erase (c ∷ text) = text

-- The keys typed, with room for `cap` characters: the line ends by itself when it is full.
abbrev pub edit : (cap : ℕ) (text keys : List ℕ) → Line
edit cap text [] = if ltb (length text) cap then open_line else line text
edit cap text (c ∷ keys) =
    let erased = edit cap (erase text) keys in
    let typed = edit cap (c ∷ text) keys in
    if ltb (length text) cap
    then (if c == ctrl_c
        then cancelled
        else if c == enter_key
        then line text
        else if c == backspace
        then erased
        else typed)
    else line text

-- The buffer starts with the characters of the line.
abbrev pub Holds : (ℕ → ℕ) → List ℕ → Type 0
Holds buf [] = Unit
Holds buf (c ∷ text) = (buf (length text) ≡ c) × Holds buf text

-- What tty_read has returned: the line, ended by a 0, and its length, or the empty string.
pub data Shows : Line → Reading → Type 0 where
  still_open : Shows open_line waiting
  ended :
      {text : List ℕ} {buf : ℕ → ℕ}
      → Holds buf text
      → buf (length text) ≡ 0
      → Shows (line text) (returned (length text) buf)
  given_up : {buf : ℕ → ℕ} → buf 0 ≡ 0 → Shows cancelled (returned 0 buf)

-- A write behind the line leaves it.
Holds-put_byte :
    (text : List ℕ) (i c : ℕ) (buf : ℕ → ℕ)
    → length text ≤ i
    → Holds buf text
    → Holds (put_byte i c buf) text
Holds-put_byte [] i c buf h held = tt
Holds-put_byte (x ∷ text) i c buf h (here, held) =
    let other : (i == length text) ≡ false = ground arith in
    (rw other here, Holds-put_byte text i c buf (omega arith) held)

put_byte_same : (i c : ℕ) (buf : ℕ → ℕ) → put_byte i c buf i ≡ c
put_byte_same i c buf = ground arith

Holds-end :
    (text : List ℕ) (buf : ℕ → ℕ)
    → Holds buf text
    → Shows (line text) (returned (length text) (put_byte (length text) 0 buf))
Holds-end text buf held =
    ended (Holds-put_byte text (length text) 0 buf (omega arith) held)
      (put_byte_same (length text) 0 buf)

Holds-erase : (text : List ℕ) (buf : ℕ → ℕ) → Holds buf text → Holds buf (erase text)
Holds-erase [] buf held = tt
Holds-erase (c ∷ text) buf held = held.1

emptied : (i : ℕ) (buf : ℕ → ℕ) → buf 0 ≡ 0 → put_byte i 0 buf 0 ≡ 0
emptied i buf h = ground arith

length-erase : (text : List ℕ) → length (erase text) ≡ length text - 1
length-erase [] = refl
length-erase (c ∷ text) = omega arith

read_loop-Shows :
    (keys text : List ℕ) (len : ℕ) (buf : ℕ → ℕ)
    → length text < len
    → Holds buf text
    → Shows (edit (len - 1) text keys) (read_loop keys (length text) len buf)
unfolding read_loop
read_loop-Shows [] text len buf room held = elim (Bool-cases (ltb (length text) (len - 1))) [
  | inl more ↦ rw (read_loop, more) still_open
  | inr full ↦
      let end : len - 1 ≡ length text = ground arith in
      rw (read_loop, full, end) (Holds-end text buf held)
]
read_loop-Shows (c ∷ keys) text len buf room held =
    let buf' = put_byte (length text) c buf in
    let held' = Holds-put_byte text (length text) c buf (omega arith) held in
    elim (Bool-cases (ltb (length text) (len - 1))) [
      | inr full ↦
          let end : len - 1 ≡ length text = ground arith in
          rw (read_loop, full, end) (Holds-end text buf held)
      | inl more ↦ elim (Bool-cases (c == ctrl_c)) [
        | inl stop ↦
            rw (read_loop, more, stop) (given_up (emptied (length text) (put_byte 0 0 buf') refl))
        | inr go ↦ elim (Bool-cases (c == enter_key)) [
          | inl ends ↦ rw (read_loop, more, go, ends) (Holds-end text buf' held')
          | inr goes_on ↦ elim (Bool-cases (c == backspace)) [
            | inl erased ↦
                rw (read_loop, more, go, goes_on, erased)
                  (subst (λ i. Shows (edit (len - 1) (erase text) keys) (read_loop keys i len buf'))
                    (length-erase text)
                    (read_loop-Shows keys (erase text) len buf' (omega (arith, length-erase text))
                      (Holds-erase text buf' held')))
            | inr typed ↦
                let one_more : length (c ∷ text) ≡ length text + 1 = omega arith in
                rw (read_loop, more, go, goes_on, typed)
                  (subst (λ i. Shows (edit (len - 1) (c ∷ text) keys) (read_loop keys i len buf'))
                    one_more
                    (read_loop-Shows keys (c ∷ text) len buf' (ground arith)
                      (put_byte_same (length text) c buf, held')))
          ]
        ]
      ]
    ]

-- For a buffer of at least one byte, tty_read gives what the line editor makes of the keys: it
-- waits while the line is open, returns the finished line and its length, or the empty string and
-- 0 when ctrl+c gave the line up.
pub tty_read-Shows :
    (keys : List ℕ) (len : ℕ) (buf : ℕ → ℕ)
    → 0 < len
    → Shows (edit (len - 1) [] keys) (tty_read keys len buf)
unfolding tty_read
tty_read-Shows keys len buf room = read_loop-Shows keys [] len buf room tt
