-- ===== src/Apps/Shell/Words.antt =====
-- The words of a command.
use egos_project.Prelude.{
  ℕ, zero, suc, ◌+◌, ◌<◌, ◌≤◌, ◌≡◌, refl, ap, inl, inr, arith, true, false, ◌==◌, if◌then◌else◌,
  List, [], ◌∷◌, ◌++◌, length, get_or, length-append, Bool-cases,
}
use egos_project.Apps.Shell.{space}

-- The words of a text behind the part `word` of a word: the longest runs with no space.
abbrev pub words_from : List ℕ → List ℕ → List (List ℕ)
words_from [] [] = []
words_from (w ∷ word) [] = (w ∷ word) ∷ []
words_from [] (c ∷ cs) = if c == space then words_from [] cs else words_from (c ∷ []) cs
words_from (w ∷ word) (c ∷ cs) =
    if c == space then (w ∷ word) ∷ words_from [] cs else words_from ((w ∷ word) ++ (c ∷ [])) cs

abbrev pub words : List ℕ → List (List ℕ)
words text = words_from [] text

-- The character `j` of the word `i`, and 0 behind the words' ends.
abbrev pub char_at : List (List ℕ) → ℕ → ℕ → ℕ
char_at ws i j = get_or (get_or ws i []) j 0

pub get_or-snoc {ℓ} :
    {A : Type ℓ} (xs : List A) (x d : A) (i : ℕ)
    → get_or (xs ++ (x ∷ [])) i d ≡ (if i == length xs then x else get_or xs i d)
get_or-snoc [] x d zero = refl
get_or-snoc [] x d (suc i) = ground arith
get_or-snoc (y ∷ ys) x d zero = ground arith
get_or-snoc (y ∷ ys) x d (suc i) = ground (arith, get_or-snoc ys x d i)

pub get_or-behind {ℓ} :
    {A : Type ℓ} (xs : List A) (d : A) (i : ℕ) → length xs ≤ i → get_or xs i d ≡ d
get_or-behind [] d i h = refl
get_or-behind (x ∷ xs) d zero h = elim h [ ]
get_or-behind (x ∷ xs) d (suc i) h = get_or-behind xs d i (omega arith)

pub append_nil : (xs : List (List ℕ)) → xs ++ [] ≡ xs
append_nil [] = refl
append_nil (x ∷ xs) = ap (λ ys. x ∷ ys) (append_nil xs)

pub append_snoc :
    (xs : List (List ℕ)) (y : List ℕ) (zs : List (List ℕ)) → (xs ++ (y ∷ [])) ++ zs ≡ xs ++ (y ∷ zs)
append_snoc [] y zs = refl
append_snoc (x ∷ xs) y zs = ap (λ ys. x ∷ ys) (append_snoc xs y zs)

-- A word goes on with a character that is no space.
pub words_from-char :
    (word : List ℕ) (c : ℕ) (cs : List ℕ)
    → (c == space) ≡ false
    → words_from word (c ∷ cs) ≡ words_from (word ++ (c ∷ [])) cs
words_from-char [] c cs e = rw e refl
words_from-char (w ∷ word) c cs e = rw e refl

-- The word that is begun only grows.
begun_word :
    (w : ℕ) (word cs : List ℕ)
    → (0 < length (words_from (w ∷ word) cs))
      × (length (w ∷ word) ≤ length (get_or (words_from (w ∷ word) cs) 0 []))
begun_word w word [] = (omega arith, omega arith)
begun_word w word (c ∷ cs) = elim (Bool-cases (c == space)) [
  | inl gap ↦ rw gap (omega arith, omega arith)
  | inr more ↦
      let (some_words, longer) = begun_word w (word ++ (c ∷ [])) cs in
      let size = length-append word (c ∷ []) in rw more (some_words, omega (arith, size, longer))
]

pub begun_char :
    (word : List ℕ) (c : ℕ) (cs : List ℕ)
    → (0 < length (words_from (word ++ (c ∷ [])) cs))
      × (length word + 1 ≤ length (get_or (words_from (word ++ (c ∷ [])) cs) 0 []))
begun_char [] c cs = begun_word c [] cs
begun_char (w ∷ word) c cs =
    let (some_words, longer) = begun_word w (word ++ (c ∷ [])) cs in
    let size = length-append word (c ∷ []) in (some_words, omega (arith, size, longer))

pub get_or-length :
    (past ys : List (List ℕ)) → get_or (past ++ ys) (length past) [] ≡ get_or ys 0 []
get_or-length [] ys = refl
get_or-length (x ∷ past) ys = get_or-length past ys

pub words_from-skip :
    (word : List ℕ) (c : ℕ) (cs : List ℕ)
    → (c == space) ≡ true
    → (length word == 0) ≡ true
    → words_from word (c ∷ cs) ≡ words_from word cs
words_from-skip [] c cs e h = rw e refl
words_from-skip (w ∷ word) c cs e h = absurd (ground arith)

pub words_from-gap :
    (word : List ℕ) (c : ℕ) (cs : List ℕ)
    → (c == space) ≡ true
    → (length word == 0) ≡ false
    → words_from word (c ∷ cs) ≡ word ∷ words_from [] cs
words_from-gap [] c cs e h = absurd (ground arith)
words_from-gap (w ∷ word) c cs e h = rw e refl
