-- ===== src/Start/User.antt =====
-- The first process, `init_user` of kernel/sys/process.c: what its kernel stack, its address space
-- and its page hold when it is ready to run.
use tuix_os.Base.{
  ℕ, ◌*◌, ◌+◌, ◌/◌, ◌%◌, ◌^◌, ◌<◌, ◌≤◌, ◌≡◌, ◌≢◌, refl, inl, false, some, List, [], ◌∷◌, All,
  length, get_elem?, arith, ltb, ◌==◌, if◌then◌else◌, ap, ◌∙◌,
}
use mathlib.Core.Path.{subst}
use tuix_os.Base.Outcome.{ok}
use tuix_os.Memory.{null, u32, load8, load16, load32}
use tuix_os.Memory.Laws.{load32_congr}
use tuix_os.Mmu.{pgsize, v2p}
use tuix_os.Kalloc.{Kmem, kalloc}
use tuix_os.Kalloc.Chain.{IsPage, IsChain, IsFree, SameOff, IsChain-off, chain-outside}
use tuix_os.Kalloc.Free.{kalloc_lem}
use tuix_os.Spinlock.{init_lock}
use tuix_os.Process.Table.{IsFirstUnused}
use tuix_os.Process.{Proc, Kernel, runnable, modify, alloc_process}
use tuix_os.Process.Table.{get_elem?-modify_self, get_elem?-modify_ne}
use tuix_os.Process.Alloc.{IsBorn, alloc_process_lem}
use tuix_os.Vm.{present, setup_kvm, init_uvm}
use tuix_os.Vm.Entry.{pde_at, entry}
use tuix_os.Vm.Space.{IsSpace, AllTables, OffPage}
use tuix_os.Vm.Kernel.{IsData, IsKernelSpace, kernel_entry, setup_kvm_lem}
use tuix_os.Vm.Moved.{SamePage, moved-entry, moved-IsSpace}
use tuix_os.Vm.User.{IsUser, init_uvm_lem}
use tuix_os.Start.{user_frame, enter_entry, enter_table, init_first, init_user}
use tuix_os.Start.Frame.{IsUserFrame, user_frame-IsUserFrame}

-- Two free pages at the front.
record StartsWith (xs : List ℕ) : Type 0 where
  head : ℕ
  tail : List ℕ
  eq : xs ≡ (head ∷ tail)
  more : 1 ≤ length tail

two_pages : (xs : List ℕ) → 2 ≤ length xs → StartsWith xs
two_pages [] h = absurd (omega arith)
two_pages (x ∷ xs) h = record { head = x; tail = xs; eq = refl; more = omega arith }

-- The entry of a process that `init_user` has made ready.
abbrev made_ready : (pgdir : ℕ) → Proc → Proc
made_ready pgdir q = record q { pgdir = pgdir; state = runnable }

-- The first process in entry `i` of the table of `k'`, with its kernel stack in the page `stack`,
-- its directory in the page `dir`, and its code in the page `x`. The directory's word for page 0 has the
-- bits for present, writable and user. Of the pages `xs`, that were free, all but at most 68 are left.
pub record IsFirst (trap_ret fork_ret kdata init size : ℕ) (k k' : Kernel) (i : ℕ) (p : Proc)
    (stack dir : ℕ) (xs : List ℕ) : Type 1 where
  pub x : ℕ
  pub left : List ℕ
  pub process :
      get_elem? k'.procs i
      ≡ some (record p {
        state = runnable;
        pid = k.next_pid;
        pgdir = dir;
        kstack = stack;
        tf = stack + 4020;
        ctx = stack + 3996;
      })
  pub others : (j : ℕ) → j ≢ i → get_elem? k'.procs j ≡ get_elem? k.procs j
  pub starts : load32 k'.kmem.mem (stack + 3996 + 16) ≡ u32 fork_ret
  pub returns : load32 k'.kmem.mem (stack + 4016) ≡ u32 trap_ret
  pub cs : load16 k'.kmem.mem (stack + 4020 + 60) ≡ 0x1b
  pub ss : load16 k'.kmem.mem (stack + 4020 + 72) ≡ 0x23
  pub ds : load16 k'.kmem.mem (stack + 4020 + 44) ≡ 0x23
  pub eip : load32 k'.kmem.mem (stack + 4020 + 56) ≡ 0
  pub eflags : load32 k'.kmem.mem (stack + 4020 + 64) ≡ 0x200
  pub user_esp : load32 k'.kmem.mem (stack + 4020 + 68) ≡ 0x1000
  pub space : IsSpace k'.kmem dir left
  pub cost : length xs ≤ length left + 68
  pub within : (Q : ℕ → Type 0) → All Q xs → All Q left
  pub table_user : pde_at k'.kmem.mem dir 0 % 8 ≡ 7
  pub entries :
      (va : ℕ)
      → entry k'.kmem.mem dir va
        ≡ (if u32 va / pgsize == 0 then v2p x + 7 else kernel_entry kdata va)
  pub code :
      (j : ℕ)
      → j < pgsize
      → load8 k'.kmem.mem (x + j) ≡ (if ltb j size then load8 k.kmem.mem (init + j) else 0)

-- Page 0 is not mapped in a kernel space.
low_unmapped : (kdata va : ℕ) → va ≤ 0 → present (kernel_entry kdata va) ≡ false
unfolding kernel_entry
low_unmapped kdata va u = ground arith

module _ (fuel trap_ret fork_ret kdata init size : ℕ) (k : Kernel) (i : ℕ) (p : Proc)
    (stack dir : ℕ) (xs : List ℕ) (enough : 2 ^ 20 < fuel) (d : IsData kdata)
    (search : IsFirstUnused k.procs i) (at : get_elem? k.procs i ≡ some p)
    (v : IsFree k.kmem (stack ∷ dir ∷ xs)) (room : 68 ≤ length xs) (fits : size ≤ pgsize)
    (set : init ≢ null)
    (apart : (b : ℕ) → init ≤ b → b < init + size → All (OffPage b) (stack ∷ dir ∷ xs)) where
  abbrev k0 : Kernel
  k0 = record k { lock = init_lock }

  abbrev m : Kmem
  m = record { mem = k.kmem.mem; freelist = (kalloc k.kmem).1.freelist }

  stack-IsPage : IsPage stack
  stack-IsPage = v.chain.1

  taken :
      ((kalloc k.kmem).0 ≡ stack)
      × IsFree (kalloc k.kmem).1 (dir ∷ xs)
      × ((kalloc k.kmem).1.mem ≡ k.kmem.mem)
  taken = kalloc_lem k.kmem (stack ∷ dir ∷ xs) v

  taken-eq : kalloc k.kmem ≡ (stack, m)
  taken-eq = λ j. (taken.0 j, record { mem = taken.2 j; freelist = (kalloc k.kmem).1.freelist })

  abbrev k1 : Kernel
  k1 = (alloc_process trap_ret fork_ret k0).1

  born :
      ((alloc_process trap_ret fork_ret k0).0 ≡ some i) × IsBorn trap_ret fork_ret k0 k1 i p stack m
  born = alloc_process_lem trap_ret fork_ret k0 i p stack m search at taken-eq stack-IsPage.set

  stack_off : SameOff stack k.kmem.mem k1.kmem.mem
  stack_off b h = born.1.stack.kept b (omega arith)

  v1 : IsFree k1.kmem (dir ∷ xs)
  v1 = record {
    chain =
        IsChain-off stack k.kmem.mem k1.kmem.mem k1.kmem.freelist (dir ∷ xs) stack_off
          stack-IsPage.aligned v.distinct.0
          (rw (born.1.list)
            (subst (λ mem. IsChain mem m.freelist (dir ∷ xs)) taken.2 taken.1.chain));
    distinct = v.distinct.1;
  }

  built :
      (s2 : Kmem) × (setup_kvm fuel kdata k1.kmem ≡ ok (dir, s2))
      × IsKernelSpace kdata dir xs k1.kmem s2
  built = setup_kvm_lem fuel kdata k1.kmem dir xs enough d v1 (omega arith)

  abbrev s2 : Kmem
  s2 = built.0

  ks : IsKernelSpace kdata dir xs k1.kmem s2
  ks = built.2

  pages : StartsWith ks.left
  pages = two_pages ks.left (let c = ks.cost in omega arith)

  space2 : IsSpace s2 dir (pages.head ∷ pages.tail)
  space2 = subst (IsSpace s2 dir) pages.eq ks.space

  within2 : (Q : ℕ → Type 0) → All Q xs → All Q (pages.head ∷ pages.tail) × AllTables Q s2.mem dir
  within2 Q all = let r = ks.within Q all in (subst (All Q) pages.eq r.0, r.1)

  filled :
      (s3 : Kmem) × (init_uvm fuel s2 dir init size ≡ ok s3)
      × IsUser s2 dir init size pages.head pages.tail s3
  filled =
      init_uvm_lem fuel s2 dir init size pages.head pages.tail (omega arith) space2 pages.more fits
        (λ va l u. rw (ks.entries va) (low_unmapped kdata va u)) set
        (λ b l u.
          let (_, (off_dir, off)) = apart b l u in
          let (rest, tables) = within2 (OffPage b) off in (off_dir, rest, tables))

  abbrev s3 : Kmem
  s3 = filled.0

  us : IsUser s2 dir init size pages.head pages.tail s3
  us = filled.2

  abbrev tf : ℕ
  tf = stack + 4020

  abbrev s4 : Kmem
  s4 = record s3 { mem = user_frame s3.mem tf }

  frame : IsUserFrame s3.mem s4.mem tf
  frame = user_frame-IsUserFrame s3.mem tf (omega arith)

  -- Nothing behind `alloc_process` writes to the stack's page but for the frame.
  stack_kept : (b : ℕ) → stack ≤ b → b < stack + 4020 → load8 s4.mem b ≡ load8 k1.kmem.mem b
  stack_kept b l u =
      let (off_dir, off) =
        chain-outside k1.kmem.mem k1.kmem.freelist stack b (dir ∷ xs) v1.chain stack-IsPage.aligned
          l (omega arith) v.distinct.0 in
      let (rest, tables) = within2 (OffPage b) off in
      frame.kept b (inl (omega arith))
      ∙ us.kept b rest.0 off_dir rest.1 tables
      ∙ ks.kept b off_dir off

  -- The stack's page is none of the address space's.
  ne_space : All (λ y. stack ≢ y) (pages.head ∷ us.left) × AllTables (λ t. stack ≢ t) s3.mem dir
  ne_space =
      let (rest, tables) = within2 (λ y. stack ≢ y) v.distinct.0.1 in
      let (left, tables') = us.within (λ y. stack ≢ y) rest.1 tables in ((rest.0, left), tables')

  frame_off : SameOff stack s3.mem s4.mem
  frame_off b h = frame.kept b (omega arith)

  dir4 : SamePage s3 s4 dir
  dir4 b l u =
      let ne = v.distinct.0.0 in
      let al = us.space.page.aligned in let al' = stack-IsPage.aligned in frame_off b (omega arith)

  tables4 : AllTables (SamePage s3 s4) s3.mem dir
  tables4 j h t b l u =
      let ne = ne_space.1 j h t in
      let al = (us.space.table j h t).page.aligned in
      let al' = stack-IsPage.aligned in frame_off b (omega arith)

  space4 : IsSpace s4 dir us.left
  space4 =
      moved-IsSpace s3 s4 dir us.left us.left us.space dir4 tables4
        (record {
          chain =
              IsChain-off stack s3.mem s4.mem s3.freelist us.left frame_off stack-IsPage.aligned
                ne_space.0.1 us.space.free.chain;
          distinct = us.space.free.distinct;
        })
        us.space.used (λ j h t. (us.space.table j h t).used)

  entry4 :
      (va : ℕ)
      → entry s4.mem dir va
        ≡ (if u32 va / pgsize == 0 then v2p pages.head + 7 else kernel_entry kdata va)
  entry4 va =
      moved-entry s3 s4 dir us.left us.left us.space dir4 tables4 va
      ∙ us.entries va
      ∙ ap (λ e. if u32 va / pgsize == 0 then v2p pages.head + 7 else e) (ks.entries va)

  first-cost : length xs ≤ length us.left + 68
  first-cost =
      let c = ks.cost in
      let c' = us.cost in
      let split : length ks.left ≡ length (pages.head ∷ pages.tail) = ap length pages.eq in
      omega arith

  head-aligned : pages.head % pgsize ≡ 0
  head-aligned = space2.free.chain.1.aligned

  source_kept : (b : ℕ) → init ≤ b → b < init + size → load8 s2.mem b ≡ load8 k.kmem.mem b
  source_kept b l u =
      let (off_stack, (off_dir, off)) = apart b l u in ks.kept b off_dir off ∙ stack_off b off_stack

  code4 :
      (j : ℕ)
      → j < pgsize
      → load8 s4.mem (pages.head + j) ≡ (if ltb j size then load8 k.kmem.mem (init + j) else 0)
  code4 j h =
      let ne = ne_space.0.0 in
      let al = head-aligned in
      let al' = stack-IsPage.aligned in
      frame_off (pages.head + j) (omega arith)
      ∙ us.code j h
      ∙ ground (arith, source_kept (init + j))

  abbrev k4 : Kernel
  k4 = record k1 { procs = modify (made_ready dir) i k1.procs; kmem = s4 }

  enter_table-k4 : enter_table i dir s3 k1 ≡ ok k4
  unfolding enter_table enter_entry
  enter_table-k4 = ap (enter_entry i dir s3 k1) born.1.entry

  init_first-k4 : init_first fuel kdata init size (some i, k1) ≡ ok k4
  unfolding init_first
  init_first-k4 =
      let there : (dir == null) ≡ false = let ne = v.chain.2.1.set in ground arith in
      rw (built.1, there, filled.1) enter_table-k4

  init_user-k4 : init_user fuel trap_ret fork_ret kdata init size k ≡ ok k4
  unfolding init_user
  init_user-k4 = ap (init_first fuel kdata init size) (λ j. (born.0 j, k1)) ∙ init_first-k4

  -- `init_user`, with an unused entry in the table, 70 free pages, the kernel's data where it
  -- should be, at most a page of code outside the free pages, and enough fuel, returns. The first
  -- unused entry holds a runnable process under a new pid, the others are kept. Its kernel stack
  -- starts in `fork_ret` and goes on in `trap_ret`, which enters user mode at address 0 with
  -- interrupts on and the stack at the end of page 0. Its address space is the kernel's with page
  -- 0 for the user, by the table's entry and by the directory's word, and that page holds the code
  -- and zeros behind it. Of the free pages behind the first two, all but at most 68 are still free.
  pub init_user_lem :
      (k' : Kernel) × (init_user fuel trap_ret fork_ret kdata init size k ≡ ok k')
      × IsFirst trap_ret fork_ret kdata init size k k' i p stack dir xs
  init_user_lem = (
    k4,
    init_user-k4,
    record {
      x = pages.head;
      left = us.left;
      process = get_elem?-modify_self (made_ready dir) i k1.procs _ born.1.entry;
      others = λ j ne. get_elem?-modify_ne (made_ready dir) i j k1.procs ne ∙ born.1.others j ne;
      starts =
          load32_congr k1.kmem.mem s4.mem (stack + 3996 + 16)
            (λ b l u. stack_kept b (omega arith) (omega arith))
          ∙ born.1.stack.starts;
      returns =
          load32_congr k1.kmem.mem s4.mem (stack + 4016)
            (λ b l u. stack_kept b (omega arith) (omega arith))
          ∙ born.1.stack.returns;
      cs = frame.cs;
      ss = frame.ss;
      ds = frame.ds;
      eip = frame.eip;
      eflags = frame.eflags;
      user_esp = frame.user_esp;
      space = space4;
      cost = first-cost;
      within = λ Q all. let (rest, tables) = within2 Q all in (us.within Q rest.1 tables).0;
      table_user =
          ap (λ w. w % 8)
            (load32_congr s3.mem s4.mem (dir + 4 * 0) (λ b l u. dir4 b (omega arith) (omega arith)))
          ∙ us.table_user;
      entries = entry4;
      code = code4;
    },
  )
