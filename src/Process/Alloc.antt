-- ===== src/Process/Alloc.antt =====
-- New processes, `alloc_process` and `config_proc_kstack` of kernel/sys/process.c.
use tuix_os.Base.{
  ℕ, ◌+◌, ◌-◌, ◌≤◌, ◌<◌, ◌≡◌, ◌≢◌, ◌⊎◌, refl, ap, ◌∙◌, false, none, some, get_elem?, if◌then◌else◌,
  ◌==◌, arith,
}
use tuix_os.Memory.{Mem, null, u32, load8, load32, store32}
use tuix_os.Memory.Laws.{load8-store32_ne, load32-store32_self, load32-store32_ne, load32_congr}
use tuix_os.Str.Blocks.{memset}
use tuix_os.Str.Blocks.Laws.{memset_lem, in_block}
use tuix_os.Kalloc.{Kmem, kalloc}
use tuix_os.Process.{
  Proc, Kernel, embryo, unused, find_unused, kstack_size, trap_frame_size, context_size,
  build_stack, config_at, config_proc_kstack, alloc_process,
}
use tuix_os.Process.Table.{
  IsFirstUnused, find_unused-first, get_elem?-modify_self, get_elem?-modify_ne,
}

-- The stack of a new process in the page `kstack`, above the old contents `m`.
pub record IsStack (m m' : Mem) (kstack trap_ret fork_ret : ℕ) : Type 0 where
  pub starts : load32 m' (kstack + 3996 + 16) ≡ u32 fork_ret
  pub returns : load32 m' (kstack + 4016) ≡ u32 trap_ret
  pub cleared : (b : ℕ) → kstack + 3996 ≤ b → b < kstack + 4012 → load8 m' b ≡ 0
  pub kept : (b : ℕ) → (b < kstack + 3996) ⊎ (kstack + 4020 ≤ b) → load8 m' b ≡ load8 m b

module _ (m : Mem) (kstack trap_ret fork_ret : ℕ) (ne : kstack ≢ null) where
  -- The memory between the store of `trap_ret` and that of `fork_ret`.
  abbrev middle : Mem
  middle = (memset (store32 m (kstack + 4016) trap_ret) (kstack + 3996) 0 20).1

  load8-middle :
      (b : ℕ)
      → load8 middle b ≡ (
          if in_block (kstack + 3996) 20 b then 0 else load8 (store32 m (kstack + 4016) trap_ret) b)
  load8-middle b =
      (memset_lem (store32 m (kstack + 4016) trap_ret) (kstack + 3996) 0 20 b (omega arith)).1

  build_stack-middle :
      build_stack m kstack trap_ret fork_ret ≡ store32 middle (kstack + 3996 + 16) fork_ret
  unfolding build_stack
  build_stack-middle =
      let tf : kstack + 4096 - 76 ≡ kstack + 4020 = omega arith in
      let sp : kstack + 4020 - 4 ≡ kstack + 4016 = omega arith in
      let ctx : kstack + 4016 - 20 ≡ kstack + 3996 = omega arith in rw (tf, sp, ctx)

  pub build_stack-IsStack :
      IsStack m (build_stack m kstack trap_ret fork_ret) kstack trap_ret fork_ret
  build_stack-IsStack = rw build_stack-middle (record {
    starts = load32-store32_self middle (kstack + 3996 + 16) fork_ret;
    returns =
        load32-store32_ne middle (kstack + 3996 + 16) fork_ret (kstack + 4016) (omega arith)
        ∙ load32_congr (store32 m (kstack + 4016) trap_ret) middle (kstack + 4016)
            (λ b l u. load8-middle b ∙ ground arith)
        ∙ load32-store32_self m (kstack + 4016) trap_ret;
    cleared = λ b l u.
        load8-store32_ne middle (kstack + 3996 + 16) fork_ret b (omega arith)
        ∙ load8-middle b
        ∙ ground arith;
    kept = λ b h.
        load8-store32_ne middle (kstack + 3996 + 16) fork_ret b (omega arith)
        ∙ load8-middle b
        ∙ ground (arith, load8-store32_ne m (kstack + 4016) trap_ret b);
  })

-- The kernel `k'` behind a successful `alloc_process`, that took the entry `i`, with `p` in it, and
-- the page `page`, with the allocator left in `m`.
pub record IsBorn (trap_ret fork_ret : ℕ) (k k' : Kernel) (i : ℕ) (p : Proc) (page : ℕ) (m : Kmem)
    : Type 0 where
  pub entry :
      get_elem? k'.procs i
      ≡ some (record p {
        state = embryo;
        pid = k.next_pid;
        kstack = page;
        tf = page + 4020;
        ctx = page + 3996;
      })
  pub others : (j : ℕ) → j ≢ i → get_elem? k'.procs j ≡ get_elem? k.procs j
  pub counted : k'.next_pid ≡ k.next_pid + 1
  pub list : k'.kmem.freelist ≡ m.freelist
  pub stack : IsStack m.mem k'.kmem.mem page trap_ret fork_ret

alloc_process-config_at :
    (trap_ret fork_ret : ℕ) (k : Kernel) (i : ℕ) (r : ℕ × Kmem)
    → find_unused k.procs ≡ some i
    → kalloc k.kmem ≡ r
    → alloc_process trap_ret fork_ret k ≡ config_at trap_ret fork_ret i k r
unfolding alloc_process config_proc_kstack
alloc_process-config_at trap_ret fork_ret k i r e a =
    ap (λ o. elim o [ none ↦ (none, k) | some j ↦ config_at trap_ret fork_ret j k (kalloc k.kmem) ])
      e
    ∙ ap (config_at trap_ret fork_ret i k) a

-- The entry of a new process, and that of one that could not be built.
abbrev newborn : (pid page : ℕ) → Proc → Proc
newborn pid page p =
    let tf = page + kstack_size - trap_frame_size in
    record p { state = embryo; pid = pid; kstack = page; tf = tf; ctx = tf - 4 - context_size }

newborn_lem :
    (pid page : ℕ) (p : Proc)
    → some (newborn pid page p)
      ≡ some (record p {
        state = embryo;
        pid = pid;
        kstack = page;
        tf = page + 4020;
        ctx = page + 3996;
      })
newborn_lem pid page p =
    let tf : page + 4096 - 76 ≡ page + 4020 = omega arith in
    let sp : page + 4020 - 4 ≡ page + 4016 = omega arith in
    let ctx : page + 4016 - 20 ≡ page + 3996 = omega arith in rw (tf, sp, ctx)

abbrev stillborn : (pid : ℕ) → Proc → Proc
stillborn pid p = record p { state = unused; pid = pid; kstack = null }

config_at-IsBorn :
    (trap_ret fork_ret : ℕ) (k : Kernel) (i : ℕ) (p : Proc) (page : ℕ) (m : Kmem)
    → get_elem? k.procs i ≡ some p
    → page ≢ null
    → ((config_at trap_ret fork_ret i k (page, m)).0 ≡ some i)
      × IsBorn trap_ret fork_ret k (config_at trap_ret fork_ret i k (page, m)).1 i p page m
unfolding config_at
config_at-IsBorn trap_ret fork_ret k i p page m g ne =
    let b : (page == null) ≡ false = ground arith in
    rw b (
      refl,
      record {
        entry =
            get_elem?-modify_self (newborn k.next_pid page) i k.procs p g
            ∙ newborn_lem k.next_pid page p;
        others = λ j. get_elem?-modify_ne (newborn k.next_pid page) i j k.procs;
        counted = refl;
        list = refl;
        stack = build_stack-IsStack m.mem page trap_ret fork_ret ne;
      },
    )

-- `alloc_process` with a page at hand takes the first unused entry: it becomes an embryo under a
-- new pid, and its stack starts in `fork_ret` and goes on in `trap_ret`. Other entries are kept.
pub alloc_process_lem :
    (trap_ret fork_ret : ℕ) (k : Kernel) (i : ℕ) (p : Proc) (page : ℕ) (m : Kmem)
    → IsFirstUnused k.procs i
    → get_elem? k.procs i ≡ some p
    → kalloc k.kmem ≡ (page, m)
    → page ≢ null
    → ((alloc_process trap_ret fork_ret k).0 ≡ some i)
      × IsBorn trap_ret fork_ret k (alloc_process trap_ret fork_ret k).1 i p page m
alloc_process_lem trap_ret fork_ret k i p page m e g a ne =
    rw (alloc_process-config_at trap_ret fork_ret k i (page, m) (find_unused-first k.procs i e) a)
      (config_at-IsBorn trap_ret fork_ret k i p page m g ne)

-- `alloc_process` without a free page fails, and leaves the entry that it tried unused and every
-- other entry as it was.
pub alloc_process-oom :
    (trap_ret fork_ret : ℕ) (k : Kernel) (i : ℕ) (p : Proc) (m : Kmem)
    → find_unused k.procs ≡ some i
    → get_elem? k.procs i ≡ some p
    → kalloc k.kmem ≡ (null, m)
    → ((alloc_process trap_ret fork_ret k).0 ≡ none)
      × (get_elem? (alloc_process trap_ret fork_ret k).1.procs i
          ≡ some (record p { state = unused; pid = k.next_pid; kstack = null }))
      × ((j : ℕ)
          → j ≢ i
          → get_elem? (alloc_process trap_ret fork_ret k).1.procs j ≡ get_elem? k.procs j)
unfolding config_at
alloc_process-oom trap_ret fork_ret k i p m e g a =
    rw (alloc_process-config_at trap_ret fork_ret k i (null, m) e a) (
      refl,
      get_elem?-modify_self (stillborn k.next_pid) i k.procs p g,
      λ j. get_elem?-modify_ne (stillborn k.next_pid) i j k.procs,
    )
