-- ===== src/Ide/Probe.antt =====
-- The search for the second disk in `init_ide` of kernel/drivers/ide.c.
use tuix_os.Base.{
  ℕ, zero, suc, ◌<◌, ◌≡◌, ◌≢◌, refl, true, false, ◌==◌, List, [], ◌∷◌, ◌++◌, All, arith,
}
use tuix_os.Base.Outcome.{ok, panic}
use tuix_os.Devices.{clear_bit}
use tuix_os.Spinlock.{init_lock}
use tuix_os.Ide.{Sent, byte, Ide, ide_wait, probe, init_ide}
use tuix_os.Ide.Start.{ready, IsBusy, wait_states_lem}

-- `n` reads that give 0.
unfoldable pub silent : (n : ℕ) → List ℕ
silent zero = []
silent (suc n) = 0 ∷ silent n

probe-found :
    (n rounds r : ℕ) (rest : List ℕ)
    → n < rounds
    → r ≢ 0
    → probe rounds (silent n ++ (r ∷ rest)) ≡ ok (true, rest)
unfolding probe silent
probe-found n zero r rest h ne = absurd (omega arith)
probe-found zero (suc rounds) r rest h ne = let no : (r == 0) ≡ false = ground arith in rw no refl
probe-found (suc n) (suc rounds) r rest h ne = probe-found n rounds r rest (omega arith) ne

probe-silent : (n : ℕ) (rest : List ℕ) → probe n (silent n ++ rest) ≡ ok (false, rest)
unfolding probe silent
probe-silent zero rest = refl
probe-silent (suc n) rest = probe-silent n rest

-- The driver before `init_ide`: what the status port will give, and what was sent so far.
abbrev pub before : (ide : Ide) (states : List ℕ) → Ide
before ide states = record ide { disk = record (ide.disk) { states = states } }

-- What `init_ide` sends: the mask with the disk's interrupt enabled, and the selection of the second disk.
abbrev pub selected : (mask : ℕ) → Ide → List Sent
selected mask ide = (ide.disk.sent ++ (byte 0xA1 (clear_bit 6 mask) ∷ [])) ++ (byte 0x1F6 0xF0 ∷ [])

module _ (mask : ℕ) (ide : Ide) (busy : List ℕ) (r : ℕ) (a : All IsBusy busy)
    (e : ready r ≡ true) where
  init_ide-found :
      (n q : ℕ) (rest : List ℕ)
      → n < 1000
      → q ≢ 0
      → init_ide mask (before ide (busy ++ (r ∷ (silent n ++ (q ∷ rest)))))
        ≡ ok (record ide {
          lock = init_lock;
          disk = record (ide.disk) {
            states = rest;
            sent = selected mask ide ++ (byte 0x1F6 0xE0 ∷ []);
          };
        })
  unfolding init_ide ide_wait
  init_ide-found n q rest h ne =
      rw (wait_states_lem busy (silent n ++ (q ∷ rest)) r a e, probe-found n 1000 q rest h ne) refl

  init_ide-missing :
      (rest : List ℕ) → init_ide mask (before ide (busy ++ (r ∷ (silent 1000 ++ rest)))) ≡ panic
  unfolding init_ide ide_wait
  init_ide-missing rest =
      rw (wait_states_lem busy (silent 1000 ++ rest) r a e, probe-silent 1000 rest) refl

  -- On a disk that is busy for some states and then ready, `init_ide` goes by the next 1000 reads of the
  -- status port. If one of them is not 0, it returns at the first such: the lock is free, the interrupt
  -- is enabled, and the first disk is selected again. If all are 0, it panics.
  pub init_ide_lem :
      (n q : ℕ) (rest : List ℕ)
      → n < 1000
      → q ≢ 0
      → (init_ide mask (before ide (busy ++ (r ∷ (silent n ++ (q ∷ rest)))))
          ≡ ok (record ide {
            lock = init_lock;
            disk = record (ide.disk) {
              states = rest;
              sent = selected mask ide ++ (byte 0x1F6 0xE0 ∷ []);
            };
          }))
        × (init_ide mask (before ide (busy ++ (r ∷ (silent 1000 ++ rest)))) ≡ panic)
  init_ide_lem n q rest h ne = (init_ide-found n q rest h ne, init_ide-missing rest)
