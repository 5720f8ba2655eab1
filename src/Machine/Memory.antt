-- ===== src/Machine/Memory.antt =====
-- The machine's memory, a byte for each address, and the C library's calls that write to it.
-- A byte is a number below 256, an `int` or a pointer four bytes, the lowest first.
use egos_project.Prelude.{
  ℕ, ◌+◌, ◌-◌, ◌*◌, ◌/◌, ◌%◌, ◌<◌, ◌≤◌, ◌≡◌, ◌⊎◌, arith, ltb, leb, ◌&&◌, if◌then◌else◌,
}

abbrev pub Memory : Type 0
Memory = ℕ → ℕ

-- Address `a` lies in the `n` bytes from `start`.
abbrev pub Within : ℕ → ℕ → ℕ → Type 0
Within start n a = (start ≤ a) × (a < start + n)

abbrev pub Outside : ℕ → ℕ → ℕ → Type 0
Outside start n a = (a < start) ⊎ (start + n ≤ a)

unfoldable pub memcpy : (dst src n : ℕ) → Memory → Memory
memcpy dst src n m a = if leb dst a && ltb a (dst + n) then m (src + (a - dst)) else m a

unfoldable pub memset : (dst byte n : ℕ) → Memory → Memory
memset dst byte n m a = if leb dst a && ltb a (dst + n) then byte else m a

unfoldable pub load32 : Memory → ℕ → ℕ
load32 m a = m a + 0x100 * m (a + 1) + 0x1_0000 * m (a + 2) + 0x100_0000 * m (a + 3)

abbrev byte_of : ℕ → ℕ → ℕ
byte_of v k =
    if ltb k 1
    then v % 0x100
    else if ltb k 2
    then v / 0x100 % 0x100
    else if ltb k 3
    then v / 0x1_0000 % 0x100
    else v / 0x100_0000 % 0x100

unfoldable pub store32 : ℕ → ℕ → Memory → Memory
store32 a v m b = if leb a b && ltb b (a + 4) then byte_of v (b - a) else m b

pub memcpy-Outside :
    (dst src n : ℕ) (m : Memory) (a : ℕ) → Outside dst n a → memcpy dst src n m a ≡ m a
unfolding memcpy
memcpy-Outside dst src n m a h = ground arith

pub memcpy_within :
    (dst src n : ℕ) (m : Memory) (k : ℕ) → k < n → memcpy dst src n m (dst + k) ≡ m (src + k)
unfolding memcpy
memcpy_within dst src n m k h = let e : dst + k - dst ≡ k = omega arith in ground arith

pub memset-Outside :
    (dst byte n : ℕ) (m : Memory) (a : ℕ) → Outside dst n a → memset dst byte n m a ≡ m a
unfolding memset
memset-Outside dst byte n m a h = ground arith

pub memset_within :
    (dst byte n : ℕ) (m : Memory) (k : ℕ) → k < n → memset dst byte n m (dst + k) ≡ byte
unfolding memset
memset_within dst byte n m k h = ground arith

pub store32-Outside : (a v : ℕ) (m : Memory) (b : ℕ) → Outside a 4 b → store32 a v m b ≡ m b
unfolding store32
store32-Outside a v m b h = ground arith

store32_first : (a v : ℕ) (m : Memory) → store32 a v m a ≡ v % 0x100
unfolding store32
store32_first a v m = let e : a - a ≡ 0 = omega arith in ground arith

store32_byte : (a v k : ℕ) (m : Memory) → k < 4 → store32 a v m (a + k) ≡ byte_of v k
unfolding store32
store32_byte a v k m h = let e : a + k - a ≡ k = omega arith in ground arith

-- A word that fits 32 bits is read back as it was written.
pub load32-store32 : (a v : ℕ) (m : Memory) → v < 0x1_0000_0000 → load32 (store32 a v m) a ≡ v
unfolding load32
load32-store32 a v m h = omega (
  arith,
  store32_first a v m,
  store32_byte a v 1 m (omega arith),
  store32_byte a v 2 m (omega arith),
  store32_byte a v 3 m (omega arith),
)

-- A load reads four bytes.
pub load32_ext :
    (m m' : Memory) (a b : ℕ)
    → ((k : ℕ) → k < 4 → m' (b + k) ≡ m (a + k))
    → m' b ≡ m a
    → load32 m' b ≡ load32 m a
unfolding load32
load32_ext m m' a b h h0 = ground (arith, h 1 (omega arith), h 2 (omega arith), h 3 (omega arith))

-- The bytes of a local buffer, written from `dst` on.
unfoldable pub paste : (dst n : ℕ) (buf : ℕ → ℕ) → Memory → Memory
paste dst n buf m a = if leb dst a && ltb a (dst + n) then buf (a - dst) else m a

pub paste-Outside :
    (dst n : ℕ) (buf : ℕ → ℕ) (m : Memory) (a : ℕ) → Outside dst n a → paste dst n buf m a ≡ m a
unfolding paste
paste-Outside dst n buf m a h = ground arith

pub paste_within :
    (dst n : ℕ) (buf : ℕ → ℕ) (m : Memory) (k : ℕ) → k < n → paste dst n buf m (dst + k) ≡ buf k
unfolding paste
paste_within dst n buf m k h = let e : dst + k - dst ≡ k = omega arith in ground arith
