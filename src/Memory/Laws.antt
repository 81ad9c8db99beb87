-- ===== src/Memory/Laws.antt =====
-- What a store leaves to be read.
use tuix_os.Base.{ℕ, ◌+◌, ◌^◌, ◌≤◌, ◌<◌, ◌≡◌, ◌≢◌, ◌⊎◌, arith}
use tuix_os.Memory.{Mem, u8, u16, u32, load8, store8, load16, store16, load32, store32}

module _ (m : Mem) (a v : ℕ) where
  pub load8-store8_self : load8 (store8 m a v) a ≡ u8 v
  unfolding load8 store8
  load8-store8_self = ground arith

  pub load8-store8_ne : (b : ℕ) → b ≢ a → load8 (store8 m a v) b ≡ load8 m b
  unfolding load8 store8
  load8-store8_ne b ne = ground arith

  -- A word store keeps every byte outside the word.
  pub load8-store32_ne : (b : ℕ) → (b < a) ⊎ (a + 4 ≤ b) → load8 (store32 m a v) b ≡ load8 m b
  unfolding load8 store8 store32
  load8-store32_ne b h = ground arith

  -- A word store is read back, cut to 32 bits.
  pub load32-store32_self : load32 (store32 m a v) a ≡ u32 v
  unfolding load8 store8 load32 store32
  load32-store32_self = ground arith

-- A word whose four bytes are alike in two memories is alike.
pub load32_congr :
    (m m' : Mem) (a : ℕ)
    → ((b : ℕ) → a ≤ b → b < a + 4 → load8 m' b ≡ load8 m b)
    → load32 m' a ≡ load32 m a
unfolding load32
load32_congr m m' a h = ground (arith, h a, h (a + 1), h (a + 2), h (a + 3))

pub load32-store32_ne :
    (m : Mem) (a v b : ℕ) → (b + 4 ≤ a) ⊎ (a + 4 ≤ b) → load32 (store32 m a v) b ≡ load32 m b
unfolding load32
load32-store32_ne m a v b h = ground (
  arith,
  load8-store32_ne m a v b,
  load8-store32_ne m a v (b + 1),
  load8-store32_ne m a v (b + 2),
  load8-store32_ne m a v (b + 3),
)

pub load32-lt : (m : Mem) (a : ℕ) → load32 m a < 2 ^ 32
unfolding load32 load8
load32-lt m a = omega arith

module _ (m : Mem) (a v : ℕ) where
  pub load16-store16_self : load16 (store16 m a v) a ≡ u16 v
  unfolding load8 store8 load16 store16
  load16-store16_self = ground arith

  pub load8-store16_ne : (b : ℕ) → (b < a) ⊎ (a + 2 ≤ b) → load8 (store16 m a v) b ≡ load8 m b
  unfolding load8 store8 store16
  load8-store16_ne b h = ground arith

-- A half word whose two bytes are alike in two memories is alike.
pub load16_congr :
    (m m' : Mem) (a : ℕ)
    → ((b : ℕ) → a ≤ b → b < a + 2 → load8 m' b ≡ load8 m b)
    → load16 m' a ≡ load16 m a
unfolding load16
load16_congr m m' a h = ground (arith, h a, h (a + 1))
