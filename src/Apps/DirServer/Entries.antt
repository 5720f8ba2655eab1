-- ===== src/Apps/DirServer/Entries.antt =====
-- A directory as a list of entries: its text, and what a lookup finds in it.
use egos_project.Prelude.{
  ℕ, zero, suc, ◌+◌, ◌-◌, ◌*◌, ◌<◌, ltb, ok, Run, ◌>>=◌, length, ◌≤◌, ◌≡◌, ◌≢◌, refl, ap, sym, ◌∙◌,
  inl, inr, arith, Bool, true, false, ◌&&◌, ◌==◌, leb, if◌then◌else◌, Option, none, some, List, [],
  ◌∷◌, ◌++◌, All, replicate, Bool-cases,
}
use egos_project.Earth.Disk.{block_size}
use egos_project.Apps.Shell.{space}
use egos_project.Apps.DirServer.{digits, atoi, positions, lookup_text}
use egos_project.Apps.DirServer.Lookup.{
  NoSpace, search, lookup_loop-search, other_word, spaces_passed, found_word,
}

-- A name, `gap` + 1 spaces, the digits of an inode number, `pad` + 1 spaces.
pub record Entry : Type 0 where
  pub name : List ℕ
  pub gap : ℕ
  pub number : List ℕ
  pub pad : ℕ

abbrev pub blanks : ℕ → List ℕ → List ℕ
blanks n rest = replicate n space ++ rest

-- The text of a directory, as tools/mkfs.c writes it.
abbrev pub text_of : List Entry → List ℕ
text_of [] = []
text_of (e ∷ es) =
    e.name ++ (space ∷ blanks e.gap (e.number ++ (space ∷ blanks e.pad (text_of es))))

abbrev pub same_text : List ℕ → List ℕ → Bool
same_text [] [] = true
same_text [] (b ∷ ys) = false
same_text (a ∷ xs) [] = false
same_text (a ∷ xs) (b ∷ ys) = a == b && same_text xs ys

-- The number that decimal digits stand for, by the places of the digits.
abbrev pub power10 : ℕ → ℕ
power10 zero = 1
power10 (suc n) = 10 * power10 n

abbrev pub number_of : List ℕ → ℕ
number_of [] = 0
number_of (c ∷ cs) = (c - 48) * power10 (length cs) + number_of cs

-- The inode number of the first entry with the name.
abbrev pub find_entry : List Entry → List ℕ → Option ℕ
find_entry [] name = none
find_entry (e ∷ es) name =
    let later = find_entry es name in
    if same_text name e.name then some (number_of e.number) else later

-- Names have no spaces, and inode numbers have digits only.
abbrev pub IsEntry : Entry → Type 0
IsEntry e = NoSpace e.name × (e.number ≢ []) × All (λ c. (48 ≤ c) × (c ≤ 57)) e.number

same_text-eq : (xs ys : List ℕ) → same_text xs ys ≡ true → xs ≡ ys
same_text-eq [] [] h = refl
same_text-eq [] (b ∷ ys) h = cc
same_text-eq (a ∷ xs) [] h = cc
same_text-eq (a ∷ xs) (b ∷ ys) h = elim (Bool-cases (a == b)) [
  | inl same ↦
      let first : a ≡ b = ground arith in let others = same_text-eq xs ys (rw same at h) in cc
  | inr other ↦ absurd (false_true (rw other at h))
]
  where
    false_true : false ≡ true → ⊥
    false_true e = cc

same_text_refl : (xs : List ℕ) → same_text xs xs ≡ true
same_text_refl [] = refl
same_text_refl (a ∷ xs) = ground (arith, same_text_refl xs)

digits-NoSpace : (number : List ℕ) → All (λ c. (48 ≤ c) × (c ≤ 57)) number → NoSpace number
digits-NoSpace [] h = tt
digits-NoSpace (c ∷ cs) (h, hs) = (λ e. absurd (omega (arith, e, h.0)), digits-NoSpace cs hs)

digits-space :
    (value : ℕ) (number rest : List ℕ)
    → All (λ c. (48 ≤ c) × (c ≤ 57)) number
    → digits value (number ++ (space ∷ rest)) ≡ digits value number
digits-space value [] rest h = refl
digits-space value (c ∷ cs) rest (h, hs) =
    let digit : (leb 48 c && leb c 57) ≡ true = ground arith in
    rw digit (digits-space (value * 10 + (c - 48)) cs rest hs)

shift_digit : (v d p n : ℕ) → (v * 10 + d) * p + n ≡ v * (10 * p) + (d * p + n)
shift_digit v d p n = omega arith

digits-number_of :
    (value : ℕ) (number : List ℕ)
    → All (λ c. (48 ≤ c) × (c ≤ 57)) number
    → digits value number ≡ value * power10 (length number) + number_of number
digits-number_of value [] h = omega arith
digits-number_of value (c ∷ cs) (h, hs) =
    let digit : (leb 48 c && leb c 57) ≡ true = ground arith in
    rw digit (
      digits-number_of (value * 10 + (c - 48)) cs hs
      ∙ shift_digit value (c - 48) (power10 (length cs)) (number_of cs))

atoi-blanks : (n : ℕ) (text : List ℕ) → atoi (blanks n text) ≡ atoi text
atoi-blanks zero text = refl
atoi-blanks (suc n) text = atoi-blanks n text

atoi-number :
    (number rest : List ℕ)
    → number ≢ []
    → All (λ c. (48 ≤ c) × (c ≤ 57)) number
    → number_of number < 0x8000_0000
    → atoi (number ++ (space ∷ rest)) ≡ ok (number_of number)
atoi-number [] rest ne h small = absurd (ne refl)
atoi-number (c ∷ cs) rest ne h small =
    let some_digit : (c == space) ≡ false = let low = h.0.0 in ground arith in
    let in_range : ltb (number_of (c ∷ cs)) 0x8000_0000 ≡ true = ground arith in
    let value : digits 0 (c ∷ cs) ≡ number_of (c ∷ cs) =
      digits-number_of 0 (c ∷ cs) h ∙ (omega arith) in
    rw (some_digit, digits-space 0 (c ∷ cs) rest h, value, in_range) refl

search-find_entry :
    (es : List Entry) (name : List ℕ)
    → All IsEntry es
    → All (λ e. number_of e.number < 0x8000_0000) es
    → NoSpace name
    → name ≢ []
    → All (λ e. name ≢ e.number) es
    → search true (text_of es) name ≡ ok (find_entry es name)
search-find_entry [] name good small plain some_name apart = refl
search-find_entry (e ∷ es) name ((words, digit, all_digits), good) (in_range, small) plain some_name
      (other, apart) =
    let rest = blanks e.pad (text_of es) in
    let behind = blanks e.gap (e.number ++ (space ∷ rest)) in
    elim (Bool-cases (same_text name e.name)) [
      | inl same ↦
          let at : name ≡ e.name = same_text-eq name e.name same in
          rw (same, ← at)
            (found_word name behind
              ∙ ap (λ (r : Run ℕ). do ino ← r; ok (some ino))
                  (atoi-blanks e.gap (e.number ++ (space ∷ rest))
                    ∙ atoi-number e.number rest digit all_digits in_range))
      | inr differs ↦ rw differs (
          other_word name e.name behind plain words (unlike name e.name differs)
          ∙ spaces_passed e.gap name (e.number ++ (space ∷ rest)) plain some_name
          ∙ other_word name e.number rest plain (digits-NoSpace e.number all_digits) other
          ∙ spaces_passed e.pad name (text_of es) plain some_name
          ∙ search-find_entry es name good small plain some_name apart)
    ]
  where
    true_false : true ≡ false → ⊥
    true_false e = cc

    unlike : (xs ys : List ℕ) → same_text xs ys ≡ false → xs ≢ ys
    unlike xs ys h e = true_false (sym (same_text_refl ys) ∙ (rw e at h))

-- For a text of entries that is shorter than a block, with inode numbers below 2^31, and a name that
-- has no spaces, is not empty, is no longer than the text and is none of the numbers, the loop of the
-- directory server finds the inode number of the first entry with that name, and nothing if there is
-- none.
pub lookup_text-find_entry :
    (es : List Entry) (name : List ℕ)
    → All IsEntry es
    → All (λ e. number_of e.number < 0x8000_0000) es
    → length (text_of es) < block_size
    → NoSpace name
    → name ≢ []
    → length name ≤ length (text_of es)
    → All (λ e. name ≢ e.number) es
    → lookup_text (text_of es) name ≡ ok (find_entry es name)
unfolding lookup_text
lookup_text-find_entry es name good small fits plain some_name short apart =
    lookup_loop-search (positions (length (text_of es)) (length name)) true (text_of es) name
      (omega arith)
    ∙ search-find_entry es name good small plain some_name apart
