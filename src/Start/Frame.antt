-- ===== src/Start/Frame.antt =====
-- The trap frame of the first process, written by `init_user` of kernel/sys/process.c.
use tuix_os.Base.{
  ℕ, ◌+◌, ◌*◌, ◌%◌, ◌^◌, ◌≤◌, ◌<◌, ◌≡◌, ◌≢◌, refl, ◌⊎◌, arith, ap, ◌∙◌, if◌then◌else◌,
}
use tuix_os.Bits.{bit_or}
use tuix_os.Memory.{Mem, null, load8, load16, store16, load32, store32}
use tuix_os.Memory.Laws.{
  load16-store16_self, load8-store16_ne, load16_congr, load8-store32_ne, load32-store32_self,
  load32_congr,
}
use tuix_os.Mmu.{pgsize}
use tuix_os.Str.Blocks.{memset}
use tuix_os.Str.Blocks.Laws.{memset_lem, in_block}
use tuix_os.Start.{usr_cs, usr_ds, usr_dpl, fl_if, user_frame}

-- The frame at `tf` in the memory `m'`, made out of `m`: all registers are 0, the segments are the
-- user's at privilege level 3, interrupts are on, and the process starts at address 0 with its
-- stack at the end of the page.
pub record IsUserFrame (m m' : Mem) (tf : ℕ) : Type 0 where
  pub registers : (i : ℕ) → i < 8 → load32 m' (tf + 4 * i) ≡ 0
  pub cs : load16 m' (tf + 60) ≡ 0x1b
  pub ds : load16 m' (tf + 44) ≡ 0x23
  pub es : load16 m' (tf + 40) ≡ 0x23
  pub ss : load16 m' (tf + 72) ≡ 0x23
  pub eip : load32 m' (tf + 56) ≡ 0
  pub eflags : load32 m' (tf + 64) ≡ 0x200
  pub user_esp : load32 m' (tf + 68) ≡ 0x1000
  pub kept : (b : ℕ) → (b < tf) ⊎ (tf + 76 ≤ b) → load8 m' b ≡ load8 m b

module _ (m : Mem) (tf : ℕ) (ne : tf ≢ null) where
  abbrev m0 : Mem
  m0 = (memset m tf 0 76).1

  abbrev m1 : Mem
  m1 = store16 m0 (tf + 60) (bit_or usr_cs usr_dpl)

  abbrev m2 : Mem
  m2 = store16 m1 (tf + 44) (bit_or usr_ds usr_dpl)

  abbrev m3 : Mem
  m3 = store16 m2 (tf + 40) (load16 m2 (tf + 44))

  abbrev m4 : Mem
  m4 = store16 m3 (tf + 72) (load16 m3 (tf + 44))

  abbrev m5 : Mem
  m5 = store32 m4 (tf + 64) fl_if

  abbrev m6 : Mem
  m6 = store32 m5 (tf + 68) pgsize

  abbrev m7 : Mem
  m7 = store32 m6 (tf + 56) 0

  user_frame-m7 : user_frame m tf ≡ m7
  unfolding user_frame
  user_frame-m7 = refl

  -- What each later store leaves of a byte.
  after0 :
      (b : ℕ)
      → (b < tf + 40) ⊎ (tf + 76 ≤ b)
      → load8 m7 b ≡ (if in_block tf 76 b then 0 else load8 m b)
  after0 b h =
      load8-store32_ne m6 (tf + 56) 0 b (omega arith)
      ∙ load8-store32_ne m5 (tf + 68) pgsize b (omega arith)
      ∙ load8-store32_ne m4 (tf + 64) fl_if b (omega arith)
      ∙ load8-store16_ne m3 (tf + 72) _ b (omega arith)
      ∙ load8-store16_ne m2 (tf + 40) _ b (omega arith)
      ∙ load8-store16_ne m1 (tf + 44) _ b (omega arith)
      ∙ load8-store16_ne m0 (tf + 60) _ b (omega arith)
      ∙ (memset_lem m tf 0 76 b ne).1

  after4 : (b : ℕ) → (b < tf + 56) ⊎ (tf + 72 ≤ b) → load8 m7 b ≡ load8 m4 b
  after4 b h =
      load8-store32_ne m6 (tf + 56) 0 b (omega arith)
      ∙ load8-store32_ne m5 (tf + 68) pgsize b (omega arith)
      ∙ load8-store32_ne m4 (tf + 64) fl_if b (omega arith)

  ds2 : load16 m2 (tf + 44) ≡ 0x23
  ds2 = load16-store16_self m1 (tf + 44) (bit_or usr_ds usr_dpl) ∙ refl

  ds3 : load16 m3 (tf + 44) ≡ 0x23
  ds3 =
      load16_congr m2 m3 (tf + 44) (λ b l u. load8-store16_ne m2 (tf + 40) _ b (omega arith)) ∙ ds2

  ds4 : load16 m4 (tf + 44) ≡ 0x23
  ds4 =
      load16_congr m3 m4 (tf + 44) (λ b l u. load8-store16_ne m3 (tf + 72) _ b (omega arith)) ∙ ds3

  es4 : load16 m4 (tf + 40) ≡ 0x23
  es4 =
      load16_congr m3 m4 (tf + 40) (λ b l u. load8-store16_ne m3 (tf + 72) _ b (omega arith))
      ∙ load16-store16_self m2 (tf + 40) (load16 m2 (tf + 44))
      ∙ ap (λ v. v % 2 ^ 16) ds2

  ss4 : load16 m4 (tf + 72) ≡ 0x23
  ss4 = load16-store16_self m3 (tf + 72) (load16 m3 (tf + 44)) ∙ ap (λ v. v % 2 ^ 16) ds3

  cs7 : load16 m7 (tf + 60) ≡ 0x1b
  cs7 =
      load16_congr m1 m7 (tf + 60) (λ b l u.
        load8-store32_ne m6 (tf + 56) 0 b (omega arith)
        ∙ load8-store32_ne m5 (tf + 68) pgsize b (omega arith)
        ∙ load8-store32_ne m4 (tf + 64) fl_if b (omega arith)
        ∙ load8-store16_ne m3 (tf + 72) _ b (omega arith)
        ∙ load8-store16_ne m2 (tf + 40) _ b (omega arith)
        ∙ load8-store16_ne m1 (tf + 44) _ b (omega arith))
      ∙ load16-store16_self m0 (tf + 60) (bit_or usr_cs usr_dpl)
      ∙ refl

  eflags7 : load32 m7 (tf + 64) ≡ 0x200
  eflags7 =
      load32_congr m5 m7 (tf + 64) (λ b l u.
        load8-store32_ne m6 (tf + 56) 0 b (omega arith)
        ∙ load8-store32_ne m5 (tf + 68) pgsize b (omega arith))
      ∙ load32-store32_self m4 (tf + 64) fl_if

  user_esp7 : load32 m7 (tf + 68) ≡ 0x1000
  user_esp7 =
      load32_congr m6 m7 (tf + 68) (λ b l u. load8-store32_ne m6 (tf + 56) 0 b (omega arith))
      ∙ load32-store32_self m5 (tf + 68) pgsize

  cleared : (i : ℕ) → i < 8 → load32 m7 (tf + 4 * i) ≡ 0
  unfolding load32
  cleared i h = ground (
    arith,
    after0 (tf + 4 * i),
    after0 (tf + 4 * i + 1),
    after0 (tf + 4 * i + 2),
    after0 (tf + 4 * i + 3),
  )

  -- `user_frame` writes a frame that enters user mode, and nothing else.
  pub user_frame-IsUserFrame : IsUserFrame m (user_frame m tf) tf
  user_frame-IsUserFrame = rw user_frame-m7 (record {
    registers = cleared;
    cs = cs7;
    ds = load16_congr m4 m7 (tf + 44) (λ b l u. after4 b (omega arith)) ∙ ds4;
    es = load16_congr m4 m7 (tf + 40) (λ b l u. after4 b (omega arith)) ∙ es4;
    ss = load16_congr m4 m7 (tf + 72) (λ b l u. after4 b (omega arith)) ∙ ss4;
    eip = load32-store32_self m6 (tf + 56) 0;
    eflags = eflags7;
    user_esp = user_esp7;
    kept = λ b h. after0 b (omega arith) ∙ ground arith;
  })
