-- ===== src/Tests/Drives.antt =====
-- The disk driver on one request to write.
use tuix_os.Base.{
  ℕ, ◌==◌, if◌then◌else◌, List, ◌+◌, ◌*◌, ◌/◌, ◌%◌, ◌^◌, ◌≡◌, refl, [], ◌∷◌, ◌++◌, true, false, inl,
  some, none, arith,
}
use tuix_os.Base.Outcome.{ok, panic}
use tuix_os.Spinlock.{init_lock}
use tuix_os.Spinlock.Nesting.{settled}
use tuix_os.Process.{Proc, sleeping, Kernel}
use tuix_os.Process.Switch.{IsWoken}
use tuix_os.Ide.{Buf, Disk, Ide, byte, block, ide_start, start_next, ide_handler, init_ide}
use tuix_os.Ide.Probe.{silent, before, selected, init_ide_lem}
use tuix_os.Ide.Handler.{IsFilled, ide_handler-read}
use tuix_os.Ide.Start.{ide_start_lem}

abbrev to_write : Buf
to_write = record { address = 0x5000; flags = 4; dev = 1; blockno = 300; bytes = λ i. i }

ide_start_example :
    (low middle high top : ℕ) × (ide_start to_write
        (record { states = 0x80 ∷ 0x40 ∷ []; sent = []; input = λ i. 0 })
      ≡ ok (record {
        states = [];
        sent =
            byte 0x3F6 0
            ∷ byte 0x1F2 1
            ∷ byte 0x1F3 low
            ∷ byte 0x1F4 middle
            ∷ byte 0x1F5 high
            ∷ byte 0x1F6 top
            ∷ (if to_write.flags / 4 % 2 == 1
                then byte 0x1F7 0x30 ∷ block 0x1F0 to_write.bytes ∷ []
                else byte 0x1F7 0x20 ∷ []);
        input = λ i. 0;
      }))
    × (low + middle * 2 ^ 8 + high * 2 ^ 16 + top % 2 ^ 4 * 2 ^ 24 ≡ 300)
    × (top / 2 ^ 4 % 2 ≡ 1)
ide_start_example =
    ide_start_lem to_write (0x80 ∷ []) [] 0x40 [] (λ i. 0) (omega arith) (refl, tt) refl

abbrev to_read : Buf
to_read = record { address = 0x5000; flags = 0; dev = 1; blockno = 300; bytes = λ i. 0 }

abbrev sleeper : Proc
sleeper = record {
  pid = 7;
  state = sleeping;
  pgdir = 0x9000;
  tf = 0;
  ctx = 0;
  kstack = 0xA000;
  chan = 0x5000;
}

abbrev kernel : Kernel
kernel = record {
  cpu = record { id = 0; iflag = true; ncli = 0; intena = false };
  lock = record { locked = 0; cpu = none };
  procs = sleeper ∷ [];
  next_pid = 8;
  kmem = record { mem = λ a. 0; freelist = 0 };
  current = none;
}

abbrev done : Disk
done = record { states = 0x80 ∷ 0x40 ∷ []; sent = []; input = λ i. i }

ide_handler_example :
    (b : Buf) × (procs : List Proc) × (ide_handler 1 kernel
        (record { lock = init_lock; queue = to_read ∷ []; disk = done })
      ≡ ok (
        some b,
        record kernel { cpu = settled kernel.cpu; lock = init_lock; procs = procs },
        record { lock = init_lock; queue = []; disk = record done { states = [] } },
      ))
    × IsFilled to_read b (λ i. i)
    × IsWoken 0x5000 (sleeper ∷ []) procs
unfolding init_lock start_next
ide_handler_example =
    ide_handler-read 1 kernel init_lock to_read [] done (record done { states = [] }) (0x80 ∷ []) []
      0x40 (omega arith) (record { off = inl refl }) refl refl refl refl (refl, tt) refl refl refl

abbrev fresh : Ide
fresh = record { lock = init_lock; queue = []; disk = done }

-- Busy once, then ready, and the second disk is there at the third read.
init_ide_example :
    (init_ide 0xFF (before fresh (0x80 ∷ 0x40 ∷ 0 ∷ 0 ∷ 0x50 ∷ 0x40 ∷ []))
      ≡ ok (record fresh {
        disk = record done {
          states = 0x40 ∷ [];
          sent = selected 0xFF fresh ++ (byte 0x1F6 0xE0 ∷ []);
        };
      }))
    × (init_ide 0xFF (before fresh (0x80 ∷ 0x40 ∷ silent 1000 ++ (0x40 ∷ []))) ≡ panic)
unfolding silent
init_ide_example =
    init_ide_lem 0xFF fresh (0x80 ∷ []) 0x40 (refl, tt) refl 2 0x50 (0x40 ∷ []) (omega arith)
      (ground arith)
