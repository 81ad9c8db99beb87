-- ===== src/Mkfs/Alloc.antt =====
-- How `iappend` of tools/mkfs.c finds the block of a part of a file, and allocates it.
use tuix_os.Base.{ℕ, ◌+◌, ◌*◌, ◌≤◌, ◌<◌, ◌≡◌, ◌≢◌, ◌⊎◌, inl, refl, ◌==◌, if◌then◌else◌, arith}
use tuix_os.Memory.{Mem, load8}
use tuix_os.Fs.{b_size, max_file}
use tuix_os.Mkfs.{Appending}
use tuix_os.Mkfs.Slots.{index_of, slot, IsFile, SameBlock}

module _ (disk din disk' din' : Mem) (fb off : ℕ) (v : IsFile disk din fb off) where
  -- A slot that was empty gets the block `fb`.
  pub slot_taken-IsFile :
      (i : ℕ)
      → i < max_file
      → slot disk din i ≡ 0
      → ((j : ℕ) → j < max_file → slot disk' din' j ≡ (if j == i then fb else slot disk din j))
      → index_of din' ≡ index_of din
      → ((x : ℕ) → (fb + 1) * b_size ≤ x → load8 disk' x ≡ 0)
      → IsFile disk' din' (fb + 1) off
  slot_taken-IsFile i h none slots index clear =
      let fb_set = v.behind in
      record {
        behind = omega arith;
        alive = λ j l ne. ground (arith, slots j l, v.alive j l);
        apart = λ j k l m ne e.
            ground (arith, slots j l, slots k m, v.alive j l, v.alive k m, v.apart j k l m);
        index = λ ne. ground (arith, index, v.index);
        off_index = λ j l ne. ground (arith, slots j l, index, v.index, v.off_index j l);
        clear = clear;
        full = λ j l u. ground (arith, slots j l, v.full j l u);
      }

  -- The file gets the index block `fb`, which is clear.
  pub index_taken-IsFile :
      ((j : ℕ) → j < max_file → slot disk' din' j ≡ slot disk din j)
      → index_of din' ≡ fb
      → ((x : ℕ) → (fb + 1) * b_size ≤ x → load8 disk' x ≡ 0)
      → IsFile disk' din' (fb + 1) off
  index_taken-IsFile slots index clear =
      let fb_set = v.behind in
      record {
        behind = omega arith;
        alive = λ j l ne. ground (arith, slots j l, v.alive j l);
        apart = λ j k l m ne e. ground (arith, slots j l, slots k m, v.apart j k l m);
        index = λ ne. ground (arith, index);
        off_index = λ j l ne. ground (arith, slots j l, index, v.alive j l);
        clear = clear;
        full = λ j l u. ground (arith, slots j l, v.full j l u);
      }

  -- The slots and the index are as before.
  pub slots_kept-IsFile :
      (fb' : ℕ)
      → fb ≤ fb'
      → ((j : ℕ) → j < max_file → slot disk' din' j ≡ slot disk din j)
      → index_of din' ≡ index_of din
      → ((x : ℕ) → fb' * b_size ≤ x → load8 disk' x ≡ 0)
      → IsFile disk' din' fb' off
  slots_kept-IsFile fb' grow slots index clear =
      let behind = v.behind in
      record {
        behind = omega arith;
        alive = λ j l. rw (slots j l) (ground (arith, v.alive j l));
        apart = λ j k l m. rw (slots j l, slots k m) (v.apart j k l m);
        index = rw index (ground (arith, v.index));
        off_index = λ j l. rw (slots j l, index) (v.off_index j l);
        clear = clear;
        full = λ j l. rw (slots j l) (v.full j l);
      }

-- What an allocation keeps: a slot or the index changes only from nothing to a block from `fb` on, and
-- blocks before `fb` but the index are as before.
pub record Grown (disk din : Mem) (fb : ℕ) (disk' din' : Mem) (fb' : ℕ) : Type 0 where
  pub slots :
      (j : ℕ)
      → j < max_file
      → (slot disk' din' j ≡ slot disk din j) ⊎ ((slot disk din j ≡ 0) × (fb ≤ slot disk' din' j))
  pub index : (index_of din' ≡ index_of din) ⊎ ((index_of din ≡ 0) × (fb ≤ index_of din'))
  pub blocks : (b : ℕ) → b < fb → b ≢ index_of din → SameBlock b disk disk'
  pub head : (i : ℕ) → i < 12 → load8 din' i ≡ load8 din i
  pub grow : fb ≤ fb'

-- The two Appending states as such.
abbrev pub GrownTo : (a a' : Appending) → Type 0
GrownTo a a' = Grown a.image.disk a.din a.image.freeblock a'.image.disk a'.din a'.image.freeblock

abbrev pub IsFileAt : (a : Appending) (off : ℕ) → Type 0
IsFileAt a off = IsFile a.image.disk a.din a.image.freeblock off

pub GrownTo-refl : (a : Appending) → GrownTo a a
GrownTo-refl a = record {
  slots = λ j h. inl refl;
  index = inl refl;
  blocks = λ b l ne x e. refl;
  head = λ i h. refl;
  grow = omega arith;
}
