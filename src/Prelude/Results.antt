-- ===== src/Prelude/Results.antt =====
-- The outcome of running C code. `ASSERT`, `ASSERTX` and `FATAL` (library/egos.h) end in
-- `earth->tty_fatal`, which prints and then loops for ever: `fatal` with the place it stands for.
-- An access outside an array is `undefined`: C gives it no meaning.
use mathlib.Core.Logic.{◌⊎◌, inl, inr}
use mathlib.Core.Path.{◌≡◌, refl}
use mathlib.Core.Bool.{Bool, true, false}

pub data Fatal : Type 0 where
  assert_failed no_more_page too_many_mappings invalid_pid invalid_idx : Fatal
  process_limit no_runnable_process unknown_syscall unknown_interrupt fatal_exception : Fatal
  invalid_vaddr not_implemented store_full store_failed invalid_request read_only_disk nested_trap :
      Fatal
  server_error : Fatal

pub data Run {ℓ} (A : Type ℓ) : Type ℓ where
  ok : A → Run A
  fatal : Fatal → Run A
  undefined : Run A

infixl 5 ◌>>=◌ ◌>>◌
abbrev pub ◌>>=◌ {ℓ κ} : {A : Type ℓ} {B : Type κ} → Run A → (A → Run B) → Run B
undefined >>= next = undefined
fatal why >>= next = fatal why
ok result >>= next = next result

abbrev pub ◌>>◌ {ℓ} : {B : Type ℓ} → Run (Unit {0}) → Run B → Run B
first >> second = first >>= λ _. second

-- ASSERT and ASSERTX.
abbrev pub assert : Bool → Run (Unit {0})
assert cond = elim cond [ true ↦ ok tt | false ↦ fatal assert_failed ]

-- What succeeds has passed through both of its steps.
pub >>=-ok {ℓ κ} :
    {A : Type ℓ} {B : Type κ} (first : Run A) (next : A → Run B) {out : B}
    → (first >>= next) ≡ ok out
    → (mid : A) × (first ≡ ok mid) × (next mid ≡ ok out)
>>=-ok undefined next h = cc
>>=-ok (fatal why) next h = cc
>>=-ok (ok mid) next h = (mid, refl, h)

pub ok-injective {ℓ} : {A : Type ℓ} {a b : A} → ok a ≡ ok b → a ≡ b
ok-injective h = cc

-- A run succeeds, or what follows it does not matter.
pub Run-cases {ℓ} :
    {A : Type ℓ} (m : Run A)
    → ((a : A) × (m ≡ ok a)) ⊎ ((e : Fatal) × (m ≡ fatal e)) ⊎ (m ≡ undefined)
Run-cases (ok a) = inl (a, refl)
Run-cases (fatal e) = inr (inl (e, refl))
Run-cases undefined = inr (inr refl)
