-- ===== src/Bitmap/Laws.antt =====
-- What the operations of a bit map mean: a map from indices to truth values.
use egos_project.Prelude.{
  ℕ, zero, suc, ◌*◌, ◌/◌, ◌%◌, ◌<◌, ◌≡◌, inl, inr, arith, Bool, true, false, List, [], ◌∷◌, ◌==◌,
  ==_iff, Bool-cases, if◌then◌else◌, length, get_elem?, get_or, set, length-set, get_elem?-get_or,
  get_or-set_self, get_or-set_ne, some, ok,
}
use egos_project.Bitmap.Bytes.{set_bit, clear_bit, test_bit, test_bit-set_bit, test_bit-clear_bit}
use egos_project.Bitmap.{bit_set, bit_clear, bit_test}

-- Every element of the array is an `unsigned char`.
abbrev pub IsBytes : List ℕ → Type 0
IsBytes [] = Unit {0}
IsBytes (x ∷ xs) = (x < 256) × IsBytes xs

-- The value of bit `i`.
unfoldable pub bit_at : List ℕ → ℕ → Bool
bit_at map i = test_bit (get_or map (i / 8) 0) (i % 8)

get_or-IsBytes : (xs : List ℕ) (i : ℕ) → IsBytes xs → get_or xs i 0 < 256
get_or-IsBytes [] i h = omega arith
get_or-IsBytes (x ∷ xs) zero h = h.0
get_or-IsBytes (x ∷ xs) (suc i) h = get_or-IsBytes xs i h.1

set-IsBytes : (xs : List ℕ) (i v : ℕ) → v < 256 → IsBytes xs → IsBytes (set xs i v)
set-IsBytes [] i v hv h = tt
set-IsBytes (x ∷ xs) zero v hv h = (hv, h.1)
set-IsBytes (x ∷ xs) (suc i) v hv h = (h.0, set-IsBytes xs i v hv h.1)

-- `map'` is `map` with bit `i` set to `b`.
pub record Updates (map : List ℕ) (i : ℕ) (b : Bool) (map' : List ℕ) : Type 0 where
  pub bytes : IsBytes map'
  pub size : length map' ≡ length map
  pub bits : (j : ℕ) → bit_at map' j ≡ (if i == j then b else bit_at map j)

same_byte : (i j : ℕ) → (i / 8) ≡ (j / 8) → (i % 8 == j % 8) ≡ (i == j)
same_byte i j e = ground arith

-- One byte is written, so that bit `k` of it takes the value `b`.
write_byte :
    (map : List ℕ) (i v : ℕ) (b : Bool)
    → IsBytes map
    → i / 8 < length map
    → v < 256
    → ((j : ℕ)
        → j < 8
        → test_bit v j ≡ (if i % 8 == j then b else test_bit (get_or map (i / 8) 0) j))
    → Updates map i b (set map (i / 8) v)
unfolding bit_at
write_byte map i v b bytes inside small law = record {
  bytes = set-IsBytes map (i / 8) v small bytes;
  size = length-set map (i / 8) v;
  bits = λ j. elim (Bool-cases (i / 8 == j / 8)) [
    | inl e ↦
        let e' : i / 8 ≡ j / 8 = (==_iff _ _).0 e in
        ground (
          arith,
          same_byte i j e',
          law (j % 8) (omega arith),
          get_or-set_self map (i / 8) v 0 inside,
        )
    | inr n ↦ ground (arith, get_or-set_ne map (i / 8) (j / 8) v 0)
  ];
}

module _ (map : List ℕ) (i : ℕ) (bytes : IsBytes map) (inside : i < 8 * length map) where
  byte_found : get_elem? map (i / 8) ≡ some (get_or map (i / 8) 0)
  byte_found = get_elem?-get_or map (i / 8) 0 (omega arith)

  byte_small : get_or map (i / 8) 0 < 256
  byte_small = get_or-IsBytes map (i / 8) bytes

  -- Setting a bit that lies in the array succeeds, and changes that bit alone.
  pub bit_set_lem : (map' : List ℕ) × (bit_set map i ≡ ok map') × Updates map i true map'
  unfolding bit_set
  bit_set_lem =
      let law = λ (j : ℕ) (hj : j < 8).
        test_bit-set_bit (get_or map (i / 8) 0) (i % 8) j byte_small (omega arith) hj in
      (
        set map (i / 8) (set_bit (get_or map (i / 8) 0) (i % 8)),
        rw (byte_found, bit_set),
        write_byte map i _ true bytes (omega arith) (law 0 (omega arith)).1 λ j hj. (law j hj).0,
      )

  -- Clearing a bit that lies in the array succeeds, and changes that bit alone.
  pub bit_clear_lem : (map' : List ℕ) × (bit_clear map i ≡ ok map') × Updates map i false map'
  unfolding bit_clear
  bit_clear_lem =
      let law = λ (j : ℕ) (hj : j < 8).
        test_bit-clear_bit (get_or map (i / 8) 0) (i % 8) j byte_small (omega arith) hj in
      (
        set map (i / 8) (clear_bit (get_or map (i / 8) 0) (i % 8)),
        rw (byte_found, bit_clear),
        write_byte map i _ false bytes (omega arith) (law 0 (omega arith)).1 λ j hj. (law j hj).0,
      )

  -- Reading a bit that lies in the array yields its value.
  pub bit_test_lem : bit_test map i ≡ ok (bit_at map i)
  unfolding bit_test bit_at
  bit_test_lem = rw (byte_found, bit_test)
