-- ===== src/Apps/Commands/Listing.antt =====
-- What ls prints of the text of a directory.
use egos_project.Prelude.{
  ℕ, zero, suc, ◌≤◌, ◌≡◌, ◌≢◌, refl, ap, ◌∙◌, arith, Bool, true, false, ◌&&◌, ◌==◌, leb, List, [],
  ◌∷◌, ◌++◌, All, length, replicate, map,
}
use egos_project.Apps.Shell.{space}
use egos_project.Apps.DirServer.Entries.{Entry, IsEntry, blanks, text_of}
use egos_project.Apps.Commands.{blank_digits, without_numbers}

abbrev pub is_digit : ℕ → Bool
is_digit c = leb 48 c && leb c 57

-- A name that starts with no digit.
abbrev pub StartsPlain : List ℕ → Type 0
StartsPlain [] = ⊥
StartsPlain (c ∷ cs) = is_digit c ≡ false

-- The entry with spaces for the digits of its inode number.
abbrev pub blanked : Entry → Entry
blanked e = record e { number = replicate (length e.number) space }

-- A character that is no space keeps what follows it from being a number.
blank_digits-word :
    (prev : ℕ) (word rest : List ℕ)
    → prev ≢ space
    → All (λ c. c ≢ space) word
    → blank_digits prev (word ++ (space ∷ rest)) ≡ word ++ (space ∷ blank_digits space rest)
unfolding blank_digits
blank_digits-word prev [] rest p h =
    let other : (prev == space) ≡ false = ground arith in rw other refl
blank_digits-word prev (c ∷ word) rest p (h, hs) =
    let other : (prev == space) ≡ false = ground arith in
    rw (other, blank_digits-word c word rest h hs) refl

-- Spaces stay, and digits behind a space turn into spaces, one after the other.
blank_digits-blanks :
    (n : ℕ) (rest : List ℕ)
    → blank_digits space (blanks n rest) ≡ blanks n (blank_digits space rest)
unfolding blank_digits
blank_digits-blanks zero rest = refl
blank_digits-blanks (suc n) rest = ap (λ t. space ∷ t) (blank_digits-blanks n rest)

blank_digits-number :
    (number rest : List ℕ)
    → All (λ c. (48 ≤ c) × (c ≤ 57)) number
    → blank_digits space (number ++ (space ∷ rest))
      ≡ replicate (length number) space ++ (space ∷ blank_digits space rest)
unfolding blank_digits
blank_digits-number [] rest h = refl
blank_digits-number (c ∷ number) rest (h, hs) =
    let digit : (leb 48 c && leb c 57) ≡ true = ground arith in
    rw (digit, blank_digits-number number rest hs) refl

-- Behind the name.
blank_digits-behind :
    (e : Entry) (rest : List ℕ)
    → All (λ c. (48 ≤ c) × (c ≤ 57)) e.number
    → blank_digits space (blanks e.gap (e.number ++ (space ∷ blanks e.pad rest)))
      ≡ blanks e.gap
          (replicate (length e.number) space ++ (space ∷ blanks e.pad (blank_digits space rest)))
blank_digits-behind e rest h =
    blank_digits-blanks e.gap (e.number ++ (space ∷ blanks e.pad rest))
    ∙ ap (blanks e.gap) (
        blank_digits-number e.number (blanks e.pad rest) h
        ∙ ap (λ t. replicate (length e.number) space ++ (space ∷ t))
            (blank_digits-blanks e.pad rest))

-- A first character that is no digit, and the rest of its word.
blank_digits-plain :
    (word rest : List ℕ)
    → All (λ c. c ≢ space) word
    → StartsPlain word
    → blank_digits space (word ++ (space ∷ rest)) ≡ word ++ (space ∷ blank_digits space rest)
unfolding blank_digits
blank_digits-plain [] rest h plain = absurd plain
blank_digits-plain (c ∷ word) rest (h, hs) plain =
    rw plain (ap (λ t. c ∷ t) (blank_digits-word c word rest h hs))

blank_digits-text :
    (es : List Entry)
    → All (λ e. IsEntry e × StartsPlain e.name) es
    → blank_digits space (text_of es) ≡ text_of (map blanked es)
unfolding blank_digits
blank_digits-text [] h = refl
blank_digits-text (e ∷ es) (((words, _, digits), plain), h) =
    let rest = text_of es in
    blank_digits-plain e.name (blanks e.gap (e.number ++ (space ∷ blanks e.pad rest))) words plain
    ∙ ap (λ t. e.name ++ (space ∷ t))
        (blank_digits-behind e rest digits
          ∙ ap (λ t. blanks e.gap (replicate (length e.number) space ++ (space ∷ blanks e.pad t)))
              (blank_digits-text es h))

-- The first character of a text stays without a test.
first_kept :
    (word rest : List ℕ)
    → All (λ c. c ≢ space) word
    → StartsPlain word
    → without_numbers (word ++ (space ∷ rest)) ≡ blank_digits space (word ++ (space ∷ rest))
unfolding without_numbers blank_digits
first_kept [] rest h plain = absurd plain
first_kept (c ∷ word) rest h plain = rw plain refl

-- Of the text of a directory, whose names start with no digit, ls keeps the names and every space,
-- and puts a space for each digit of an inode number.
pub without_numbers-text :
    (es : List Entry)
    → All (λ e. IsEntry e × StartsPlain e.name) es
    → without_numbers (text_of es) ≡ text_of (map blanked es)
unfolding without_numbers
without_numbers-text [] h = refl
without_numbers-text (e ∷ es) (((words, digit, digits), plain), h) =
    first_kept e.name (blanks e.gap (e.number ++ (space ∷ blanks e.pad (text_of es)))) words plain
    ∙ blank_digits-text (e ∷ es) (((words, digit, digits), plain), h)
