-- ===== src/Apps/Commands/Paths.antt =====
-- The working directory as the names on the way to it, and what cd does to them.
use egos_project.Prelude.{
  ℕ, zero, suc, ◌+◌, ◌<◌, ◌≡◌, ◌≢◌, refl, sym, ap, ◌∙◌, inl, inr, arith, true, false, ◌==◌, ltb,
  if◌then◌else◌, Option, none, some, List, [], ◌∷◌, ◌++◌, All, length, length-append, get_or, take,
  ok, Bool-cases,
}
use egos_project.RwFs.{same_string}
use egos_project.Apps.Servers.{DirRequest, DirReply, Service}
use egos_project.Apps.Commands.{
  slash, dot, Workdir, workdir_len, lookup_in, stored_path, back_to_slash, parent_path, child_path,
  change_path, cd,
}

-- The names, the last one first.
abbrev pub below_root : List (List ℕ) → List ℕ
below_root [] = []
below_root (name ∷ names) = below_root names ++ (slash ∷ name)

abbrev pub path_text : List (List ℕ) → List ℕ
path_text [] = slash ∷ []
path_text (name ∷ names) = below_root (name ∷ names)

-- What a name does to them.
abbrev pub enter : List ℕ → List (List ℕ) → List (List ℕ)
enter name names =
    if same_string name (dot ∷ [])
    then names
    else if same_string name (dot ∷ (dot ∷ []))
    then (elim names [ [] ↦ [] | _ ∷ up ↦ up ])
    else name ∷ names

abbrev pub IsName : List ℕ → Type 0
IsName name = (name ≢ []) × All (λ c. c ≢ slash) name

get_or-append : (xs ys : List ℕ) (i : ℕ) → get_or (xs ++ ys) (length xs + i) 0 ≡ get_or ys i 0
get_or-append [] ys i = let e : 0 + i ≡ i = omega arith in rw e refl
get_or-append (x ∷ xs) ys i =
    let e : suc (length xs) + i ≡ suc (length xs + i) = omega arith in rw e (get_or-append xs ys i)

take-append : (xs ys : List ℕ) → take (length xs) (xs ++ ys) ≡ xs
take-append [] ys = refl
take-append (x ∷ xs) ys = ap (λ t. x ∷ t) (take-append xs ys)

-- A character of a name, or the 0 behind it, is no slash.
no_slash : (name : List ℕ) (i : ℕ) → All (λ c. c ≢ slash) name → get_or name i 0 ≢ slash
no_slash [] i h e = omega arith
no_slash (c ∷ cs) zero h e = h.0 e
no_slash (c ∷ cs) (suc i) h e = no_slash cs i h.1 e

stops_here : (len : ℕ) (path : List ℕ) → get_or path len 0 ≡ slash → back_to_slash len path ≡ ok len
unfolding back_to_slash
stops_here zero path e = ground arith
stops_here (suc len) path e = ground arith

goes_on :
    (len : ℕ) (path : List ℕ)
    → get_or path (suc len) 0 ≢ slash
    → back_to_slash (suc len) path ≡ back_to_slash len path
unfolding back_to_slash
goes_on len path d = ground arith

-- From anywhere in the last name the loop goes back to the slash in front of it.
back_to_slash-name :
    (before name : List ℕ) (i : ℕ)
    → All (λ c. c ≢ slash) name
    → back_to_slash (length before + i) (before ++ (slash ∷ name)) ≡ ok (length before)
back_to_slash-name before name zero h =
    let at : length before + 0 ≡ length before = omega arith in
    let found = get_or-append before (slash ∷ name) 0 in
    rw at (stops_here (length before) (before ++ (slash ∷ name)) (rw at at found))
back_to_slash-name before name (suc i) h =
    let at : length before + suc i ≡ suc (length before + i) = omega arith in
    let char = get_or-append before (slash ∷ name) (suc i) in
    let other = no_slash name i h in
    rw at (
      goes_on (length before + i) (before ++ (slash ∷ name)) (λ e. other (sym (rw at at char) ∙ e))
      ∙ back_to_slash-name before name i h)

rest_of_path :
    (before name : List ℕ)
    → (if length before == 0
        then take 1 (before ++ (slash ∷ name))
        else take (length before) (before ++ (slash ∷ name)))
      ≡ (if length before == 0 then slash ∷ [] else before)
rest_of_path [] name = refl
rest_of_path (b ∷ before) name =
    let more : (suc (length before) == 0) ≡ false = ground arith in
    rw more (take-append (b ∷ before) (slash ∷ name))

-- The loop starts at the 0 behind the name.
parent_path-name :
    (before name : List ℕ)
    → All (λ c. c ≢ slash) name
    → parent_path (before ++ (slash ∷ name))
      ≡ ok (if length before == 0 then slash ∷ [] else before)
unfolding parent_path
parent_path-name before name h =
    let size = length-append before (slash ∷ name) in
    let whole : length (before ++ (slash ∷ name)) ≡ length before + suc (length name) = size in
    rw (whole, back_to_slash-name before name (suc (length name)) h)
      (ap ok (rest_of_path before name))

length-path : (names : List (List ℕ)) → All IsName names → names ≢ [] → 1 < length (path_text names)
length-path [] h ne = absurd (ne refl)
length-path ([] ∷ names) ((some_name, _), _) ne = absurd (some_name refl)
length-path ((c ∷ cs) ∷ names) h ne =
    omega (arith, length-append (below_root names) (slash ∷ (c ∷ cs)))

parent-path_text :
    (name : List ℕ) (names : List (List ℕ))
    → All IsName (name ∷ names)
    → parent_path (path_text (name ∷ names)) ≡ ok (path_text names)
parent-path_text name [] (h, _) = parent_path-name [] name h.1
parent-path_text name (up ∷ names) (h, hs) =
    let some_text : (length (below_root (up ∷ names)) == 0) ≡ false =
      let l = length-path (up ∷ names) hs (λ e. cc) in ground arith in
    parent_path-name (below_root (up ∷ names)) name h.1 ∙ rw some_text refl

child-path_text :
    (name : List ℕ) (names : List (List ℕ))
    → All IsName names
    → child_path (path_text names) name ≡ path_text (name ∷ names)
unfolding child_path
child-path_text name [] h = refl
child-path_text name (up ∷ names) h =
    let long : ltb 1 (length (below_root (up ∷ names))) ≡ true =
      let l = length-path (up ∷ names) h (λ e. cc) in ground arith in
    rw long refl

-- The parent of the root is the root.
parent-up :
    (names : List (List ℕ))
    → All IsName names
    → parent_path (path_text names) ≡ ok (path_text (elim names [ [] ↦ [] | _ ∷ up ↦ up ]))
unfolding parent_path back_to_slash
parent-up [] h = refl
parent-up (name ∷ names) h = parent-path_text name names h

stored_path-fits :
    (ino : Option ℕ) (path : List ℕ)
    → length path < workdir_len
    → stored_path ino path ≡ ok (record { workdir_ino = ino; workdir = path })
stored_path-fits ino path l =
    let fits : ltb (length path) workdir_len ≡ true = ground arith in rw fits refl

change_path-enter :
    (dir_ino : ℕ) (name : List ℕ) (names : List (List ℕ)) (w : Workdir)
    → All IsName names
    → w.workdir ≡ path_text names
    → length (path_text (enter name names)) < workdir_len
    → change_path dir_ino name w
      ≡ ok (record { workdir_ino = some dir_ino; workdir = path_text (enter name names) })
unfolding change_path
change_path-enter dir_ino name names w good e fits =
    elim (Bool-cases (same_string name (dot ∷ []))) [
      | inl here ↦ rw (here, ← e) refl
      | inr away ↦ elim (Bool-cases (same_string name (dot ∷ (dot ∷ [])))) [
        | inl up ↦
            rw (away, up, e, parent-up names good)
              (stored_path-fits (some dir_ino) _ (rw (away, up) at fits))
        | inr down ↦
            rw (away, down, e, child-path_text name names good)
              (stored_path-fits (some dir_ino) _ (rw (away, down) at fits))
      ]
    ]

-- cd does to the working directory what the name does to the names on the way to it: `.` leaves
-- them, `..` takes the last one away and leaves the root, and any other name is put behind them, if
-- the path is shorter than 128 characters. Where the lookup finds no directory, nothing changes.
pub cd-enter :
    (dirs : Service DirRequest DirReply) (name : List ℕ) (names : List (List ℕ)) (w : Workdir)
    (s s1 : dirs.State) (found : Option ℕ)
    → All IsName names
    → w.workdir ≡ path_text names
    → length (path_text (enter name names)) < workdir_len
    → lookup_in dirs w.workdir_ino (name ++ (slash ∷ [])) s ≡ ok (found, s1)
    → cd dirs (some name) w s
      ≡ ok (elim found [
        | none ↦ (false, w, s1)
        | some i ↦
            (true, record { workdir_ino = some i; workdir = path_text (enter name names) }, s1)
      ])
unfolding cd
cd-enter dirs name names w s s1 none good e fits looked = rw looked refl
cd-enter dirs name names w s s1 (some i) good e fits looked =
    rw (looked, change_path-enter i name names w good e fits) refl
