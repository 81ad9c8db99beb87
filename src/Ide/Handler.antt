-- ===== src/Ide/Handler.antt =====
-- A request that the disk has done, in `ide_handler` of kernel/drivers/ide.c.
use tuix_os.Base.{
  ℕ, ◌<◌, ◌≡◌, refl, ap, ◌∙◌, true, false, ◌||◌, some, List, ◌∷◌, ◌++◌, All, arith, ◌+◌, ◌*◌, ◌/◌,
  ◌%◌, ◌==◌, if◌then◌else◌,
}
use Prim.Native.Nat.{max}
use tuix_os.Base.Outcome.{ok}
use tuix_os.Bits.{bit_or, bit_or-halves, or_nothing}
use tuix_os.Memory.{Mem}
use tuix_os.Spinlock.{Cpu, Spinlock, init_lock, pushcli, release, is_held_by}
use tuix_os.Spinlock.Nesting.{IsSound, settled, popcli-pushcli, pushcli-IsSound}
use tuix_os.Spinlock.Locking.{taken, holding-inside, acquire-free}
use tuix_os.Process.{Kernel, Proc}
use tuix_os.Process.Switch.{IsWoken, wakeup_lem}
use tuix_os.Ide.{
  Buf, Disk, has_bit, b_dirty, ide_df, ide_err, ide_wait, receive, mark_valid, start_next,
  ide_handler,
}
use tuix_os.Ide.Start.{ready, IsBusy, wait_states_lem}

settled-section : (c : Cpu) → settled (pushcli c) ≡ pushcli c
unfolding pushcli
settled-section c = ground arith

release-section :
    (c : Cpu) (lk : Spinlock)
    → IsSound c
    → release (pushcli c) (taken lk c.id) ≡ ok (settled c, init_lock)
unfolding release init_lock
release-section c lk v =
    let mine : is_held_by (taken lk c.id) c.id ≡ true = ground arith in
    rw (holding-inside c (taken lk c.id), mine, popcli-pushcli c v)

-- A request to read takes over the block when the disk is ready and has no error.
receive_lem :
    (b : Buf) (d : Disk) (busy rest : List ℕ) (r : ℕ)
    → has_bit b_dirty b.flags ≡ false
    → d.states ≡ busy ++ (r ∷ rest)
    → All IsBusy busy
    → ready r ≡ true
    → (has_bit ide_df r || has_bit ide_err r) ≡ false
    → receive b d ≡ ok (record b { bytes = d.input }, record d { states = rest })
unfolding receive ide_wait
receive_lem b d busy rest r read e a u good =
    rw (read, e, wait_states_lem busy rest r a u, good) refl

-- What is to be seen of a buffer when its request to read is done: the block, the bit for valid (2) set and
-- the bit for dirty (4) clear, and the rest as before.
pub record IsFilled (b done : Buf) (block : Mem) : Type 0 where
  pub bytes : done.bytes ≡ block
  pub valid : done.flags / 2 % 2 ≡ 1
  pub clean : done.flags / 4 % 2 ≡ 0
  pub low : done.flags % 2 ≡ b.flags % 2
  pub high : done.flags / 8 ≡ b.flags / 8
  pub address : done.address ≡ b.address
  pub dev : done.dev ≡ b.dev
  pub blockno : done.blockno ≡ b.blockno

or_valid : (n : ℕ) → bit_or n 2 ≡ (if n / 2 % 2 == 1 then n else n + 2)
or_valid n =
    let none_below : bit_or (n / 2 / 2) 0 ≡ n / 2 / 2 =
      or_nothing (n / 2 / 2) (n / 2 / 2) (omega arith) in
    let second : bit_or (n / 2) 1 ≡ bit_or (n / 2 / 2) 0 * 2 + max (n / 2 % 2) 1 =
      bit_or-halves (n / 2) 1 in
    let first : bit_or n 2 ≡ bit_or (n / 2) 1 * 2 + max (n % 2) 0 = bit_or-halves n 2 in
    ground arith

mark_valid-IsFilled :
    (b : Buf) (block : Mem)
    → has_bit b_dirty b.flags ≡ false
    → IsFilled b (mark_valid (record b { bytes = block })) block
mark_valid-IsFilled b block read =
    let set = or_valid b.flags in
    record {
      bytes = refl;
      valid = ground arith;
      clean = ground arith;
      low = ground arith;
      high = ground arith;
      address = refl;
      dev = refl;
      blockno = refl;
    }

-- The interrupt of the disk for a request to read, outside every use of the two locks. When the disk gets
-- ready without an error and the next request can be started, the handler finishes: the buffer has the
-- block and is valid and clean, the request is out of the queue, exactly the processes that sleep on the
-- buffer have become runnable, and both locks are free again.
pub ide_handler-read :
    (fuel : ℕ) (k : Kernel) (lk : Spinlock) (b : Buf) (queue : List Buf) (disk d : Disk)
    (busy rest : List ℕ) (r : ℕ)
    → 0 < fuel
    → IsSound k.cpu
    → k.lock.locked ≡ 0
    → lk.locked ≡ 0
    → has_bit b_dirty b.flags ≡ false
    → disk.states ≡ busy ++ (r ∷ rest)
    → All IsBusy busy
    → ready r ≡ true
    → (has_bit ide_df r || has_bit ide_err r) ≡ false
    → start_next queue (record disk { states = rest }) ≡ ok d
    → (done : Buf) × (procs : List Proc) × (ide_handler fuel k
          (record { lock = lk; queue = b ∷ queue; disk = disk })
        ≡ ok (
          some done,
          record k { cpu = settled k.cpu; lock = init_lock; procs = procs },
          record { lock = init_lock; queue = queue; disk = d },
        ))
      × IsFilled b done disk.input
      × IsWoken b.address k.procs procs
unfolding ide_handler
ide_handler-read fuel k lk b queue disk d busy rest r h v free free' read e a u good next =
    let inside : Kernel = record k { cpu = pushcli k.cpu } in
    let (procs, ran, table) = wakeup_lem fuel inside b.address (pushcli-IsSound k.cpu) free h in
    let woken =
      ran
      ∙ ap (λ c. ok (record k { cpu = c; lock = init_lock; procs = procs }))
          (settled-section k.cpu) in
    let got = receive_lem b disk busy rest r read e a u good in
    (
      mark_valid (record b { bytes = disk.input }),
      procs,
      rw (acquire-free fuel k.cpu lk free' h, got, woken, next, release-section k.cpu lk v) refl,
      mark_valid-IsFilled b disk.input read,
      table,
    )
