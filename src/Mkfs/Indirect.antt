-- ===== src/Mkfs/Indirect.antt =====
-- The allocation of a block into the index block, and of the block of a part of a file: `plain_indirect`
-- and `plain_block` in the loop of `iappend` of tools/mkfs.c.
use tuix_os.Base.{
  ℕ, ◌+◌, ◌-◌, ◌*◌, ◌/◌, ◌^◌, ◌≤◌, ◌<◌, ◌≡◌, ◌≢◌, inl, refl, sym, ap, ◌∙◌, false, ltb, lt→ltb,
  dec_lt, ℕ_discrete, ◌==◌, if◌then◌else◌, arith,
}
use tuix_os.Memory.{Mem, u32, load8, store32, load32}
use tuix_os.Memory.Laws.{load32-store32_self, load32-store32_ne}
use tuix_os.Fs.{b_size, direct_num, max_file, addr_at}
use tuix_os.Mkfs.{Appending, xint, sector, put_sector, ensure_addr, plain_indirect, plain_block}
use tuix_os.Mkfs.Sectors.{load8-wsect_ne, load32-sector-wsect}
use tuix_os.Mkfs.Slots.{xint_lem, xint-load32, index_of, slot, slot-direct, slot-indirect}
use tuix_os.Mkfs.Alloc.{GrownTo, GrownTo-refl, IsFileAt, slot_taken-IsFile}
use tuix_os.Mkfs.Ensure.{ensure_addr_lem}

pub GrownTo-trans : (a b c : Appending) → GrownTo a b → GrownTo b c → GrownTo a c
GrownTo-trans a b c g h =
    let up = g.grow in
    let up' = h.grow in
    record {
      slots = λ j l. ground (arith, g.slots j l, h.slots j l);
      index = ground (arith, g.index, h.index);
      blocks = λ k l ne x e.
          h.blocks k (omega arith) (λ u. ground (arith, g.index)) x e ∙ g.blocks k l ne x e;
      head = λ i l. h.head i l ∙ g.head i l;
      grow = omega arith;
    }

-- What `plain_block` gives for the part `fbn`: the block `x` of the part, in a file grown by `more` blocks
-- at most.
pub record Blocked (more fbn off : ℕ) (a : Appending) (x : ℕ) (a' : Appending) : Type 0 where
  pub file : IsFileAt a' off
  pub grown : GrownTo a a'
  pub at : slot a'.image.disk a'.din fbn ≡ x
  pub set : x ≢ 0
  pub cost : a'.image.freeblock ≤ a.image.freeblock + more

module _ (e off : ℕ) (a : Appending) (v : IsFileAt a off) (within : e < 128)
    (index : index_of a.din ≢ 0) where
  abbrev entries : Mem
  entries = sector (index_of a.din) a.image.disk

  slot_here : slot a.image.disk a.din (direct_num + e) ≡ load32 entries (4 * e)
  slot_here =
      slot-indirect a.image.disk a.din (direct_num + e) (omega arith) index
      ∙ ap (λ n. load32 entries (4 * n)) (omega arith)

  indirect-old :
      load32 entries (4 * e) ≢ 0
      → Blocked 1 (direct_num + e) off a ((plain_indirect e a).0) ((plain_indirect e a).1)
  unfolding plain_indirect index_of
  indirect-old ne =
      let at : xint (load32 a.din (addr_at direct_num)) ≡ index_of a.din =
        xint-load32 a.din (addr_at direct_num) in
      let word : xint (load32 entries (4 * e)) ≡ load32 entries (4 * e) =
        xint-load32 entries (4 * e) in
      let test : (load32 entries (4 * e) == 0) ≡ false = ground arith in
      rw (at, test, word)
        (record { file = v; grown = GrownTo-refl a; at = slot_here; set = ne; cost = omega arith })

  abbrev disk_new : Mem
  disk_new = put_sector (index_of a.din) (store32 entries (4 * e) a.image.freeblock) a.image.disk

  abbrev with_entry : Appending
  with_entry = record a {
    image = record (a.image) { freeblock = a.image.freeblock + 1; disk = disk_new };
  }

  ensure_indirect-new :
      load32 entries (4 * e) ≡ 0
      → a.image.freeblock + 1 < 2 ^ 32
      → plain_indirect e a ≡ (a.image.freeblock, with_entry)
  unfolding plain_indirect index_of
  ensure_indirect-new empty fits =
      let at : xint (load32 a.din (addr_at direct_num)) ≡ index_of a.din =
        xint-load32 a.din (addr_at direct_num) in
      let fb : xint a.image.freeblock ≡ a.image.freeblock =
        xint_lem a.image.freeblock ∙ (omega arith) in
      let word : load32 (store32 entries (4 * e) a.image.freeblock) (4 * e) ≡ a.image.freeblock =
        load32-store32_self entries (4 * e) a.image.freeblock ∙ (omega arith) in
      let next : u32 (a.image.freeblock + 1) ≡ a.image.freeblock + 1 = omega arith in
      rw (at, empty, fb, word, fb, next)

  slots_new :
      a.image.freeblock + 1 < 2 ^ 32
      → (j : ℕ) → j < max_file
      → slot disk_new a.din j
        ≡ (if j == direct_num + e then a.image.freeblock else slot a.image.disk a.din j)
  slots_new fits j l = elim (dec_lt j direct_num) [
    | yes k ↦
        slot-direct disk_new a.din j k ∙ sym (slot-direct a.image.disk a.din j k) ∙ (ground arith)
    | no k ↦
        slot-indirect disk_new a.din j (omega arith) index
        ∙ load32-sector-wsect (index_of a.din) (store32 entries (4 * e) a.image.freeblock)
            a.image.disk (4 * (j - direct_num)) (omega arith)
        ∙ (elim (ℕ_discrete j (direct_num + e)) [
          | yes i ↦
              ap (λ n. load32 (store32 entries (4 * e) a.image.freeblock) (4 * n))
                (let u : j - direct_num ≡ e = omega arith in u)
              ∙ load32-store32_self entries (4 * e) a.image.freeblock
              ∙ (ground arith)
          | no i ↦
              load32-store32_ne entries (4 * e) a.image.freeblock (4 * (j - direct_num))
                (ground arith)
              ∙ sym (slot-indirect a.image.disk a.din j (omega arith) index)
              ∙ (ground arith)
        ])
  ]

  blocks_new : (x : ℕ) → x / b_size ≢ index_of a.din → load8 disk_new x ≡ load8 a.image.disk x
  blocks_new =
      load8-wsect_ne (index_of a.din) (store32 entries (4 * e) a.image.freeblock) a.image.disk

  indirect-new :
      load32 entries (4 * e) ≡ 0
      → a.image.freeblock + 1 < 2 ^ 32
      → Blocked 1 (direct_num + e) off a a.image.freeblock with_entry
  indirect-new empty fits =
      let l : direct_num + e < max_file = omega arith in
      let bound = v.index index in
      record {
        file =
            slot_taken-IsFile a.image.disk a.din disk_new a.din a.image.freeblock off v
              (direct_num + e) l (slot_here ∙ empty) (slots_new fits) refl
              (λ x u. blocks_new x (omega arith) ∙ v.clear x (omega arith));
        grown = record {
          slots = λ j k. ground (arith, slots_new fits j k, slot_here);
          index = inl refl;
          blocks = λ b k ne x u. blocks_new x (λ w. ne (sym u ∙ w));
          head = λ i k. refl;
          grow = omega arith;
        };
        at = slots_new fits (direct_num + e) l ∙ (ground arith);
        set = omega (arith, v.behind);
        cost = omega arith;
      }

  ensure_indirect_lem :
      a.image.freeblock + 1 < 2 ^ 32
      → Blocked 1 (direct_num + e) off a ((plain_indirect e a).0) ((plain_indirect e a).1)
  ensure_indirect_lem fits = elim (ℕ_discrete (load32 entries (4 * e)) 0) [
    | yes empty ↦ rw (ensure_indirect-new empty fits) (indirect-new empty fits)
    | no ne ↦ indirect-old ne
  ]

-- `plain_block` finds or allocates the block of a part within the maximum.
pub file_block_lem :
    (fbn off : ℕ) (a : Appending)
    → fbn < max_file
    → IsFileAt a off
    → a.image.freeblock + 2 < 2 ^ 32
    → Blocked 2 fbn off a ((plain_block fbn a).0) ((plain_block fbn a).1)
unfolding plain_block index_of
file_block_lem fbn off a h v fits = elim (dec_lt fbn direct_num) [
  | yes l ↦
      let r = ensure_addr_lem fbn off a (omega arith) v (omega arith) in
      let a' = ensure_addr fbn a in
      rw (lt→ltb fbn direct_num l, xint-load32 a'.din (addr_at fbn))
        (record {
          file = r.file;
          grown = r.grown;
          at = slot-direct a'.image.disk a'.din fbn l;
          set = r.set;
          cost = let c = r.cost in omega arith;
        })
  | no l ↦
      let r = ensure_addr_lem direct_num off a (omega arith) v (omega arith) in
      let a' = ensure_addr direct_num a in
      let c = r.cost in
      let q =
        ensure_indirect_lem (fbn - direct_num) off a' r.file (omega arith) r.set (omega arith) in
      let b : ltb fbn direct_num ≡ false = ground arith in
      let same : direct_num + (fbn - direct_num) ≡ fbn = omega arith in
      let d = q.cost in
      rw b (record {
        file = q.file;
        grown = GrownTo-trans a a' ((plain_indirect (fbn - direct_num) a').1) r.grown q.grown;
        at = rw same at q.at;
        set = q.set;
        cost = omega arith;
      })
]
