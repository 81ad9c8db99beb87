-- ===== src/Str/Blocks/Laws.antt =====
-- What the block functions of lib/string.c leave in memory, byte for byte.
use tuix_os.Base.{
  ℕ, zero, suc, ◌+◌, ◌-◌, ◌≤◌, ◌<◌, ◌≡◌, ◌≢◌, refl, ◌⊎◌, inl, inr, arith, Bool-cases, ltb,
  ℕ_discrete, ◌==◌, Bool, ◌&&◌, leb, if◌then◌else◌,
}
use tuix_os.Base.Int.{ℤ, pos, negsuc}
use tuix_os.Memory.{Mem, u8, null, load8, store8}
use tuix_os.Memory.Laws.{load8-store8_self, load8-store8_ne}
use tuix_os.Str.Blocks.{
  memset_loop, memset, copy_up, copy_down, memcpy, memmove, memcmp_loop, memcmp,
}

-- `b` is one of the `n` bytes at `a`.
abbrev pub in_block : ℕ → ℕ → ℕ → Bool
in_block a n b = leb a b && ltb b (a + n)

-- `b` lies outside the `n` bytes at `a`.
abbrev pub Outside : ℕ → ℕ → ℕ → Type 0
Outside a n b = (b < a) ⊎ (a + n ≤ b)

memset_loop-Outside :
    (n : ℕ) (m : Mem) (p v b : ℕ) → Outside p n b → load8 (memset_loop n m p v) b ≡ load8 m b
unfolding memset_loop
memset_loop-Outside zero m p v b h = refl
memset_loop-Outside (suc n) m p v b h =
    ground (arith, memset_loop-Outside n (store8 m p v) (p + 1) v b, load8-store8_ne m p v b)

memset_loop-inside :
    (n : ℕ) (m : Mem) (p v b : ℕ) → p ≤ b → b < p + n → load8 (memset_loop n m p v) b ≡ u8 v
unfolding memset_loop
memset_loop-inside zero m p v b h k = absurd (omega arith)
memset_loop-inside (suc n) m p v b h k = elim (ℕ_discrete b p) [
  | yes e ↦
      ground (arith, memset_loop-Outside n (store8 m p v) (p + 1) v b, load8-store8_self m p v)
  | no ne ↦ memset_loop-inside n (store8 m p v) (p + 1) v b (omega arith) (omega arith)
]

-- `memset` at a non-null address returns it, sets each of the `n` bytes there to the low byte of
-- the value, and leaves every other byte as it was.
pub memset_lem :
    (m : Mem) (dst v n b : ℕ)
    → dst ≢ null
    → ((memset m dst v n).0 ≡ dst)
      × (load8 (memset m dst v n).1 b ≡ (if in_block dst n b then u8 v else load8 m b))
unfolding memset
memset_lem m dst v n b ne =
    (ground arith, ground (arith, memset_loop-inside n m dst v b, memset_loop-Outside n m dst v b))

copy_up-Outside :
    (n : ℕ) (m : Mem) (d s b : ℕ) → Outside d n b → load8 (copy_up n m d s) b ≡ load8 m b
unfolding copy_up
copy_up-Outside zero m d s b h = refl
copy_up-Outside (suc n) m d s b h = ground (
  arith,
  copy_up-Outside n (store8 m d (load8 m s)) (d + 1) (s + 1) b,
  load8-store8_ne m d (load8 m s) b,
)

pub u8-load8 : (m : Mem) (a : ℕ) → u8 (load8 m a) ≡ load8 m a
unfolding load8
u8-load8 m a = omega arith

-- A copy from below reads each source byte before a write reaches it, if the target starts at or
-- below the source or past its end.
copy_up-inside :
    (n : ℕ) (m : Mem) (d s i : ℕ)
    → (d ≤ s) ⊎ (s + n ≤ d)
    → i < n
    → load8 (copy_up n m d s) (d + i) ≡ load8 m (s + i)
unfolding copy_up
copy_up-inside zero m d s i h k = absurd (omega arith)
copy_up-inside (suc n) m d s zero h k = ground (
  arith,
  copy_up-Outside n (store8 m d (load8 m s)) (d + 1) (s + 1) (d + 0),
  load8-store8_self m d (load8 m s),
  u8-load8 m s,
)
copy_up-inside (suc n) m d s (suc i) h k = ground (
  arith,
  copy_up-inside n (store8 m d (load8 m s)) (d + 1) (s + 1) i,
  load8-store8_ne m d (load8 m s) (s + suc i),
)

copy_down-Outside :
    (n : ℕ) (m : Mem) (d s b : ℕ)
    → n ≤ d
    → Outside (d - n) n b
    → load8 (copy_down n m d s) b ≡ load8 m b
unfolding copy_down
copy_down-Outside zero m d s b k h = refl
copy_down-Outside (suc n) m d s b k h = ground (
  arith,
  copy_down-Outside n (store8 m (d - 1) (load8 m (s - 1))) (d - 1) (s - 1) b,
  load8-store8_ne m (d - 1) (load8 m (s - 1)) b,
)

copy_down-inside :
    (n : ℕ) (m : Mem) (d s i : ℕ)
    → s ≤ d
    → n ≤ s
    → i < n
    → load8 (copy_down n m d s) (d - suc i) ≡ load8 m (s - suc i)
unfolding copy_down
copy_down-inside zero m d s i h k l = absurd (omega arith)
copy_down-inside (suc n) m d s zero h k l = ground (
  arith,
  copy_down-Outside n (store8 m (d - 1) (load8 m (s - 1))) (d - 1) (s - 1) (d - 1),
  load8-store8_self m (d - 1) (load8 m (s - 1)),
  u8-load8 m (s - 1),
)
copy_down-inside (suc n) m d s (suc i) h k l = ground (
  arith,
  copy_down-inside n (store8 m (d - 1) (load8 m (s - 1))) (d - 1) (s - 1) i,
  load8-store8_ne m (d - 1) (load8 m (s - 1)) (s - suc (suc i)),
)

module _ (m : Mem) (dst src n b : ℕ) (dst_set : dst ≢ null) (src_set : src ≢ null) where
  -- `memmove` between two non-null addresses returns the target. The `n` bytes there are those
  -- that stood at the source before the call, however the two blocks overlap, and every other
  -- byte is as it was.
  pub memmove_lem :
      ((memmove m dst src n).0 ≡ dst)
      × (load8 (memmove m dst src n).1 b
          ≡ (if in_block dst n b then load8 m (src + (b - dst)) else load8 m b))
  unfolding memmove
  memmove_lem = (
    ground arith,
    ground (
      arith,
      copy_up-inside n m dst src (b - dst),
      copy_up-Outside n m dst src b,
      copy_down-inside n m (dst + n) (src + n) (n - suc (b - dst)),
      copy_down-Outside n m (dst + n) (src + n) b,
    ),
  )

  -- Between two non-null addresses, where the target starts at or below the source or past the
  -- end of its block, `memcpy` returns what `memmove` returns and leaves the same byte at every
  -- address.
  pub memcpy-memmove :
      (dst ≤ src) ⊎ (src + n ≤ dst)
      → ((memcpy m dst src n).0 ≡ (memmove m dst src n).0)
        × (load8 (memcpy m dst src n).1 b ≡ load8 (memmove m dst src n).1 b)
  unfolding memcpy
  memcpy-memmove h = (
    ground (arith, memmove_lem.0),
    ground
        (arith, memmove_lem.1, copy_up-inside n m dst src (b - dst), copy_up-Outside n m dst src b),
  )

-- The bytes at `p` and at `q` are alike for the first `n`.
abbrev pub SameBytes : Mem → (p q n : ℕ) → Type 0
SameBytes m p q n = (i : ℕ) → i < n → load8 m (p + i) ≡ load8 m (q + i)

-- The verdict of a comparison of `n` bytes: all alike, or the order at the first that differ.
data Compared (m : Mem) (p q n : ℕ) : ℤ → Type 0 where
  same : {r : ℤ} → r ≡ pos 0 → SameBytes m p q n → Compared m p q n r
  less :
      {r : ℤ} (i : ℕ)
      → r ≡ negsuc 0
      → i < n
      → SameBytes m p q i
      → load8 m (p + i) < load8 m (q + i)
      → Compared m p q n r
  more :
      {r : ℤ} (i : ℕ)
      → r ≡ pos 1
      → i < n
      → SameBytes m p q i
      → load8 m (q + i) < load8 m (p + i)
      → Compared m p q n r

SameBytes-suc :
    (m : Mem) (p q n : ℕ)
    → load8 m p ≡ load8 m q
    → SameBytes m (p + 1) (q + 1) n
    → SameBytes m p q (suc n)
SameBytes-suc m p q n e h zero k = ground arith
SameBytes-suc m p q n e h (suc i) k = ground (arith, h i)

Compared-suc :
    (m : Mem) (p q n : ℕ) (r : ℤ)
    → load8 m p ≡ load8 m q
    → Compared m (p + 1) (q + 1) n r
    → Compared m p q (suc n) r
Compared-suc m p q n r e (same v h) = same v (SameBytes-suc m p q n e h)
Compared-suc m p q n r e (less i v k h l) =
    less (suc i) v (omega arith) (SameBytes-suc m p q i e h) (ground arith)
Compared-suc m p q n r e (more i v k h l) =
    more (suc i) v (omega arith) (SameBytes-suc m p q i e h) (ground arith)

memcmp_loop-Compared : (n : ℕ) (m : Mem) (p q : ℕ) → Compared m p q n (memcmp_loop n m p q)
unfolding memcmp_loop
memcmp_loop-Compared zero m p q = same refl (λ i h. absurd (omega arith))
memcmp_loop-Compared (suc n) m p q = elim (Bool-cases (load8 m p == load8 m q)) [
  | inl e ↦ rw e (Compared-suc m p q n _ (ground arith) (memcmp_loop-Compared n m (p + 1) (q + 1)))
  | inr d ↦ elim (Bool-cases (ltb (load8 m p) (load8 m q))) [
    | inl l ↦ rw (d, l) (less 0 refl (omega arith) (λ i h. absurd (omega arith)) (ground arith))
    | inr g ↦ rw (d, g) (more 0 refl (omega arith) (λ i h. absurd (omega arith)) (ground arith))
  ]
]

memcmp-Compared : (m : Mem) (p q n : ℕ) → p ≢ null → q ≢ null → Compared m p q n (memcmp m p q n)
unfolding memcmp
memcmp-Compared m p q zero hp hq = same (ground arith) (λ i h. absurd (omega arith))
memcmp-Compared m p q (suc n) hp hq =
    let e : memcmp m p q (suc n) ≡ memcmp_loop (suc n) m p q = ground arith in
    rw e (memcmp_loop-Compared (suc n) m p q)

Compared-verdict :
    (m : Mem) (p q n : ℕ) (r : ℤ)
    → Compared m p q n r
    → ((r ≡ pos 0) × SameBytes m p q n)
      ⊎ ((i : ℕ) × (i < n)
          × SameBytes m p q i
          × (((r ≡ negsuc 0) × (load8 m (p + i) < load8 m (q + i)))
              ⊎ ((r ≡ pos 1) × (load8 m (q + i) < load8 m (p + i)))))
Compared-verdict m p q n r (same v h) = inl (v, h)
Compared-verdict m p q n r (less i v k h l) = inr (i, k, h, inl (v, l))
Compared-verdict m p q n r (more i v k h l) = inr (i, k, h, inr (v, l))

-- `memcmp` of two non-null blocks gives 0 where all `n` bytes are alike. Else there is a first
-- byte that differs, and it gives -1 where that of the first block is smaller, and 1 where it is
-- larger.
pub memcmp_lem :
    (m : Mem) (p q n : ℕ)
    → p ≢ null
    → q ≢ null
    → ((memcmp m p q n ≡ pos 0) × SameBytes m p q n)
      ⊎ ((i : ℕ) × (i < n)
          × SameBytes m p q i
          × (((memcmp m p q n ≡ negsuc 0) × (load8 m (p + i) < load8 m (q + i)))
              ⊎ ((memcmp m p q n ≡ pos 1) × (load8 m (q + i) < load8 m (p + i)))))
memcmp_lem m p q n hp hq = Compared-verdict m p q n _ (memcmp-Compared m p q n hp hq)
