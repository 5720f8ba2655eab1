-- ===== src/Apps/DirServer/Lookup.antt =====
-- How the loop of dir_do_lookup passes over a text, word by word.
use egos_project.Prelude.{
  ℕ, zero, suc, ◌+◌, ◌-◌, ◌≤◌, ◌≡◌, ◌≢◌, refl, sym, ◌∙◌, inl, inr, arith, Bool, true, false, ◌==◌,
  ltb, if◌then◌else◌, none, some, List, [], ◌∷◌, ◌++◌, length, length-append, Option, Run, ok,
  ◌>>=◌, All, replicate, Bool-cases,
}
use egos_project.Apps.Shell.{space}
use egos_project.Apps.DirServer.{atoi, strip, followed, hit_or, lookup_loop}

abbrev pub NoSpace : List ℕ → Type 0
NoSpace = All (λ c. c ≢ space)

-- The loop without its count: it ends where no more than the name's length is left.
abbrev pub search : (start : Bool) (text name : List ℕ) → Run (Option ℕ)
search start [] name = ok none
search start (c ∷ text) name =
    let later = search (c == space) text name in
    if ltb (length name) (length (c ∷ text))
    then hit_or (if start then followed (strip name (c ∷ text)) else none) later
    else ok none

pub lookup_loop-search :
    (left : ℕ) (start : Bool) (text name : List ℕ)
    → left ≡ length text - length name
    → lookup_loop left start text name ≡ search start text name
unfolding lookup_loop
lookup_loop-search zero start [] name e = refl
lookup_loop-search (suc left) start [] name e = absurd (omega (arith, e))
lookup_loop-search zero start (c ∷ text) name e =
    let over : ltb (length name) (length (c ∷ text)) ≡ false = ground (arith, e) in rw over refl
lookup_loop-search (suc left) start (c ∷ text) name e =
    let more : ltb (length name) (length (c ∷ text)) ≡ true = ground (arith, e) in
    let rest = lookup_loop-search left (c == space) text name (omega (arith, e)) in
    rw (more, rest) refl

-- Where no more than the name's length is left, nothing is found.
short_text :
    (start : Bool) (text name : List ℕ)
    → length text ≤ length name
    → search start text name ≡ ok none
short_text start [] name h = refl
short_text start (c ∷ text) name h =
    let over : ltb (length name) (length (c ∷ text)) ≡ false = ground arith in rw over refl

-- A position where the name does not stand is passed over.
passed :
    (start : Bool) (c : ℕ) (text name : List ℕ)
    → (if start then followed (strip name (c ∷ text)) else none) ≡ none
    → search start (c ∷ text) name ≡ search (c == space) text name
passed start c text name h = elim (Bool-cases (ltb (length name) (length (c ∷ text)))) [
  | inl longer ↦ rw (longer, h) refl
  | inr over ↦ rw over (sym (short_text (c == space) text name (ground arith)))
]

-- Inside a word nothing is found.
rest_of_word :
    (word rest name : List ℕ)
    → NoSpace word
    → search false (word ++ (space ∷ rest)) name ≡ search true rest name
rest_of_word [] rest name h = passed false space rest name refl
rest_of_word (c ∷ word) rest name (h, hs) =
    let inside : (c == space) ≡ false = ground arith in
    passed false c (word ++ (space ∷ rest)) name refl ∙ rw inside (rest_of_word word rest name hs)

strip_same : (name rest : List ℕ) → strip name (name ++ rest) ≡ some rest
strip_same [] rest = refl
strip_same (n ∷ name) rest =
    let e = strip_same name rest in let same : (n == n) ≡ true = ground arith in rw same e

strip_other :
    (name word rest : List ℕ)
    → NoSpace name
    → NoSpace word
    → name ≢ word
    → followed (strip name (word ++ (space ∷ rest))) ≡ none
strip_other [] [] rest hn hw ne = absurd (ne refl)
strip_other [] (c ∷ word) rest hn (h, hw) ne =
    let other : (c == space) ≡ false = ground arith in rw other refl
strip_other (n ∷ name) [] rest (h, hn) hw ne =
    let other : (n == space) ≡ false = ground arith in rw other refl
strip_other (n ∷ name) (c ∷ word) rest (h, hn) (h', hw) ne = elim (Bool-cases (n == c)) [
  | inr other ↦ rw other refl
  | inl same ↦
      let at : n ≡ c = ground arith in rw same (strip_other name word rest hn hw λ e. ne (cc))
]

-- Another word than the name is passed over.
pub other_word :
    (name word rest : List ℕ)
    → NoSpace name
    → NoSpace word
    → name ≢ word
    → search true (word ++ (space ∷ rest)) name ≡ search true rest name
other_word name [] rest hn hw ne = passed true space rest name (strip_other name [] rest hn hw ne)
other_word name (c ∷ word) rest hn (h, hw) ne =
    let inside : (c == space) ≡ false = ground arith in
    passed true c (word ++ (space ∷ rest)) name (strip_other name (c ∷ word) rest hn (h, hw) ne)
    ∙ rw inside (rest_of_word word rest name hw)

-- So are spaces, since no name is empty.
pub spaces_passed :
    (n : ℕ) (name rest : List ℕ)
    → NoSpace name
    → name ≢ []
    → search true (replicate n space ++ rest) name ≡ search true rest name
spaces_passed zero name rest hn ne = refl
spaces_passed (suc n) name rest hn ne =
    other_word name [] (replicate n space ++ rest) hn tt ne ∙ spaces_passed n name rest hn ne

-- The name itself is found.
pub found_word :
    (name rest : List ℕ)
    → search true (name ++ (space ∷ rest)) name ≡ (atoi (space ∷ rest) >>= λ ino. ok (some ino))
found_word [] rest = let more : ltb 0 (length (space ∷ rest)) ≡ true = ground arith in rw more refl
found_word (n ∷ name) rest =
    let all : length (n ∷ (name ++ (space ∷ rest))) ≡ suc (length name) + suc (length rest) =
      omega (arith, length-append name (space ∷ rest)) in
    let more : ltb (length (n ∷ name)) (length (n ∷ (name ++ (space ∷ rest)))) ≡ true =
      ground (arith, all) in
    let same : (n == n) ≡ true = ground arith in
    rw (more, same, strip_same name (space ∷ rest)) refl
