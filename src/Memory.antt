-- ===== src/Memory.antt =====
-- The flat byte-addressed memory that the kernel's C code works on. An address is a number, the
-- null pointer is 0, and a 32-bit word is four bytes, the least significant first (x86).
pub mod Laws
use tuix_os.Base.{ℕ, ◌+◌, ◌*◌, ◌/◌, ◌%◌, ◌^◌, ◌==◌, if◌then◌else◌}

abbrev pub Mem : Type 0
Mem = ℕ → ℕ

-- The casts to the fixed widths.
abbrev pub u8 : ℕ → ℕ
u8 n = n % 2 ^ 8

abbrev pub u16 : ℕ → ℕ
u16 n = n % 2 ^ 16

abbrev pub u32 : ℕ → ℕ
u32 n = n % 2 ^ 32

abbrev pub null : ℕ
null = 0

-- `*(uint8_t*)a`
unfoldable pub load8 : Mem → ℕ → ℕ
load8 m a = u8 (m a)

-- `*(uint8_t*)a = v`
unfoldable pub store8 : Mem → ℕ → ℕ → Mem
store8 m a v x = if x == a then u8 v else m x

-- `*(uint32_t*)a`
unfoldable pub load32 : Mem → ℕ → ℕ
load32 m a =
    load8 m a + load8 m (a + 1) * 2 ^ 8 + load8 m (a + 2) * 2 ^ 16 + load8 m (a + 3) * 2 ^ 24

-- `*(uint32_t*)a = v`
unfoldable pub store32 : Mem → ℕ → ℕ → Mem
store32 m a v =
    store8 (store8 (store8 (store8 m a v) (a + 1) (v / 2 ^ 8)) (a + 2) (v / 2 ^ 16)) (a + 3)
      (v / 2 ^ 24)

-- `*(uint16_t*)a`
unfoldable pub load16 : Mem → ℕ → ℕ
load16 m a = load8 m a + load8 m (a + 1) * 2 ^ 8

-- `*(uint16_t*)a = v`
unfoldable pub store16 : Mem → ℕ → ℕ → Mem
store16 m a v = store8 (store8 m a v) (a + 1) (v / 2 ^ 8)
