-- ===== src/Mkfs/Read.antt =====
-- The reads of `iappend` of tools/mkfs.c that lie within the file: they give what is in it, and leave its length.
use tuix_os.Base.{
  ℕ, ◌+◌, ◌-◌, ◌*◌, ◌^◌, ◌≤◌, ◌<◌, ◌≡◌, refl, ◌∙◌, ltb, lt→ltb, Bool-cases, inl, inr, ◌==◌, arith,
}
use tuix_os.Memory.{Mem, load32}
use tuix_os.Fs.{direct_num, max_file, addr_at}
use tuix_os.Mkfs.{
  Image, Appending, Reading, xint, sector, rsect, wsect, put_sector, ensure_addr, ensure_indirect,
  plain_indirect, file_block, plain_block, put_bytes, plain_put,
}
use tuix_os.Mkfs.Slots.{index_of, xint-load32}
use tuix_os.Mkfs.Alloc.{IsFileAt}
use tuix_os.Mkfs.Ensure.{ensure_addr_lem}

rsect-in : (sec : ℕ) (buf : Mem) (s : Image) → sec < s.length → rsect sec buf s ≡ sector sec s.disk
unfolding rsect
rsect-in sec buf s h = rw (lt→ltb sec s.length h) refl

wsect-in :
    (sec : ℕ) (buf : Mem) (s : Image)
    → sec < s.length
    → wsect sec buf s ≡ record s { disk = put_sector sec buf s.disk }
unfolding wsect
wsect-in sec buf s h = rw (lt→ltb sec s.length h) refl

ensure_addr-length : (i : ℕ) (a : Appending) → (ensure_addr i a).image.length ≡ a.image.length
unfolding ensure_addr
ensure_addr-length i a = elim (Bool-cases (xint (load32 a.din (addr_at i)) == 0)) [
  | inl t ↦ rw t refl
  | inr t ↦ rw t refl
]

plain_indirect-length :
    (i : ℕ) (a : Appending) → (plain_indirect i a).1.image.length ≡ a.image.length
unfolding plain_indirect
plain_indirect-length i a =
    elim (Bool-cases
      (load32 (sector (xint (load32 a.din (addr_at direct_num))) a.image.disk) (4 * i) == 0)) [
        | inl t ↦ rw t refl
        | inr t ↦ rw t refl
      ]

pub plain_block-length :
    (fbn : ℕ) (a : Appending) → (plain_block fbn a).1.image.length ≡ a.image.length
unfolding plain_block
plain_block-length fbn a = elim (Bool-cases (ltb fbn direct_num)) [
  | inl t ↦ rw t (ensure_addr-length fbn a)
  | inr t ↦ rw t (
      plain_indirect-length (fbn - direct_num) (ensure_addr direct_num a)
      ∙ ensure_addr-length direct_num a)
]

-- The index block is read and written as long as it lies in the file.
ensure_indirect-plain :
    (i : ℕ) (r : Reading)
    → xint (load32 r.a.din (addr_at direct_num)) < r.a.image.length
    → ((ensure_indirect i r).0 ≡ (plain_indirect i r.a).0)
      × ((ensure_indirect i r).1.a ≡ (plain_indirect i r.a).1)
unfolding ensure_indirect plain_indirect rsect wsect
ensure_indirect-plain i r h =
    let within = lt→ltb (xint (load32 r.a.din (addr_at direct_num))) r.a.image.length h in
    elim (Bool-cases
      (load32 (sector (xint (load32 r.a.din (addr_at direct_num))) r.a.image.disk) (4 * i) == 0)) [
        | inl t ↦ (rw (within, t) refl, rw (within, t) refl)
        | inr t ↦ (rw (within, t) refl, rw (within, t) refl)
      ]

pub file_block-plain :
    (fbn off : ℕ) (r : Reading)
    → IsFileAt r.a off
    → fbn < max_file
    → r.a.image.freeblock + 2 ≤ r.a.image.length
    → r.a.image.length < 2 ^ 32
    → ((file_block fbn r).0 ≡ (plain_block fbn r.a).0)
      × ((file_block fbn r).1.a ≡ (plain_block fbn r.a).1)
unfolding file_block plain_block index_of
file_block-plain fbn off r v within room small = elim (Bool-cases (ltb fbn direct_num)) [
  | inl t ↦ (rw t refl, rw t refl)
  | inr t ↦
      let a' = ensure_addr direct_num r.a in
      let e = ensure_addr_lem direct_num off r.a (omega arith) v (omega arith) in
      let long = ensure_addr-length direct_num r.a in
      let word = xint-load32 a'.din (addr_at direct_num) in
      let cost = e.cost in
      let below = e.file.index e.set in
      let h = ensure_indirect-plain (fbn - direct_num) (record r { a = a' }) (omega arith) in
      (rw t h.0, rw t h.1)
]

pub put_bytes-plain :
    (x off : ℕ) (data_ : Mem) (p n1 : ℕ) (r : Reading)
    → x < r.a.image.length
    → (put_bytes x off data_ p n1 r).a ≡ plain_put x off data_ p n1 r.a
unfolding put_bytes plain_put rsect wsect
put_bytes-plain x off data_ p n1 r h = rw (lt→ltb x r.a.image.length h) refl
