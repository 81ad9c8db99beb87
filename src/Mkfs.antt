-- ===== src/Mkfs.antt =====
-- The builder of disk images, tools/mkfs.c. The image file is its bytes and its length in blocks: a read past its
-- end leaves the buffer as it was, a write past its end makes it longer. Seeking and writing succeed. A
-- buffer of a block is its bytes by index. A failed assertion is a panic.
pub mod Sectors
pub mod Slots
pub mod Alloc
pub mod Ensure
pub mod Bitmap
pub mod Indirect
pub mod Write
pub mod Read
pub mod Append
pub mod Inode
pub mod File
pub mod New
pub mod Others
pub mod Copy
pub mod Inodes
pub mod Whole
pub mod Build
use tuix_os.Base.{
  ℕ, zero, suc, ◌+◌, ◌-◌, ◌*◌, ◌/◌, ◌%◌, ◌^◌, Bool, true, false, not, ◌&&◌, ltb, leb, ◌==◌,
  if◌then◌else◌, List, [], ◌∷◌,
}
use tuix_os.Base.Outcome.{Outcome, ok, panic, out_of_fuel, ◌>>=◌}
use tuix_os.Bits.{bit_or}
use tuix_os.Memory.{Mem, u8, u16, u32, load8, store8, load32, store32}
use tuix_os.Fs.{
  b_size, fs_size, log_size, root_ino, direct_num, indirect_num, max_file, dinode_size, nlink_at,
  size_at, addr_at, ipb, iblock, bpb, dir_size, dirent_size, t_dir, t_file,
}

abbrev pub inodes_num : ℕ
inodes_num = 200

abbrev pub bitmap_num : ℕ
bitmap_num = fs_size / bpb + 1

abbrev pub inode_blocks_num : ℕ
inode_blocks_num = inodes_num / ipb + 1

-- The number of blocks before the data, and the starts of the inodes and of the bitmap.
abbrev pub meta_num : ℕ
meta_num = 2 + log_size + inode_blocks_num + bitmap_num

abbrev pub blocks_num : ℕ
blocks_num = fs_size - meta_num

abbrev pub inodestart : ℕ
inodestart = 2 + log_size

abbrev pub bmapstart : ℕ
bmapstart = 2 + log_size + inode_blocks_num

-- The bytes of the image file, its length in blocks, `freeinode` and `freeblock`, and what the arrays `buf` and
-- `indirect` of `iappend` hold before they are written to.
pub record Image : Type 0 where
  pub disk : Mem
  pub length : ℕ
  pub stale : Mem
  pub freeinode : ℕ
  pub freeblock : ℕ

-- The four bytes that `xint` makes of a number, read as a word of the host, which is an x86.
unfoldable pub xint : ℕ → ℕ
xint x =
    load32
      (λ i. u8 (
        if i == 0
        then x
        else if i == 1
        then x / 2 ^ 8
        else if i == 2
        then x / 2 ^ 16
        else x / 2 ^ 24))
      0

-- `a->field = xshort(v)` for a field of 16 bits.
abbrev pub put_short : Mem → (at v : ℕ) → Mem
put_short m at v = store8 (store8 m at v) (at + 1) (v / 2 ^ 8)

-- The bytes of the image with a block put in, and the bytes of a block.
unfoldable pub put_sector : (sec : ℕ) → Mem → Mem → Mem
put_sector sec buf disk x = if x / b_size == sec then buf (x % b_size) else disk x

unfoldable pub sector : (sec : ℕ) → Mem → Mem
sector sec disk i = disk (sec * b_size + i)

unfoldable pub wsect : (sec : ℕ) → (buf : Mem) → Image → Image
unfolding put_sector
wsect sec buf s = record s {
  disk = put_sector sec buf s.disk;
  length = if ltb sec s.length then s.length else sec + 1;
}

-- What is in `buf` behind the call.
unfoldable pub rsect : (sec : ℕ) → (buf : Mem) → Image → Mem
unfolding sector
rsect sec buf s = if ltb sec s.length then sector sec s.disk else buf

-- The blocks of the inodes lie within the file, which has all its blocks when the first is read.
unfoldable pub rinode : (inum : ℕ) → Mem → Mem
unfolding sector
rinode inum disk i = sector (iblock inum inodestart) disk (inum % ipb * dinode_size + i)

-- `*dip = *ip`, the copy of an inode into the block.
abbrev pub put_dinode : (at : ℕ) → Mem → Mem → Mem
put_dinode at ip buf i = if leb at i && ltb i (at + dinode_size) then ip (i - at) else buf i

unfoldable pub winode : (inum : ℕ) → Mem → Mem → Mem
unfolding sector put_sector
winode inum ip disk =
    let bn = iblock inum inodestart in
    put_sector bn (put_dinode (inum % ipb * dinode_size) ip (sector bn disk)) disk

unfoldable pub ialloc : (type : ℕ) → Image → ℕ × Image
unfolding winode xint
ialloc type s =
    let inum = s.freeinode in
    let din = put_short (λ i. 0) 0 type in
    let din = put_short din nlink_at 1 in
    let din = store32 din size_at (xint 0) in
    (inum, record s { disk = winode inum din s.disk; freeinode = u32 (s.freeinode + 1) })

-- `for (i = 0; i < used; i++) buf[i / 8] = buf[i / 8] | (0x1 << (i % 8));` from `i` on.
mark_loop : (rounds : ℕ) → (i : ℕ) → Mem → Mem
mark_loop zero i buf = buf
mark_loop (suc rounds) i buf =
    mark_loop rounds (i + 1) (store8 buf (i / 8) (bit_or (load8 buf (i / 8)) (2 ^ (i % 8))))

unfoldable pub balloc : (used : ℕ) → Image → Outcome Image
unfolding mark_loop put_sector
balloc used s =
    if not (ltb used (b_size * 8))
    then panic
    else ok (record s { disk = put_sector bmapstart (mark_loop used 0 (λ i. 0)) s.disk })

-- The state of the loop of `iappend`.
pub record Appending : Type 0 where
  pub image : Image
  pub din : Mem

-- `if (xint(din.addrs[i]) == 0) din.addrs[i] = xint(freeblock++);`
unfoldable pub ensure_addr : (i : ℕ) → Appending → Appending
unfolding xint
ensure_addr i a =
    if xint (load32 a.din (addr_at i)) == 0
    then record {
      image = record (a.image) { freeblock = u32 (a.image.freeblock + 1) };
      din = store32 a.din (addr_at i) (xint a.image.freeblock);
    }
    else a

-- The entry `i` of the index block, when the read succeeds: a new block is put in and written back.
unfoldable pub plain_indirect : (i : ℕ) → Appending → ℕ × Appending
unfolding xint sector put_sector
plain_indirect i a =
    let at = xint (load32 a.din (addr_at direct_num)) in
    let indirect = sector at a.image.disk in
    if load32 indirect (4 * i) == 0
    then (let indirect = store32 indirect (4 * i) (xint a.image.freeblock) in
        (
          xint (load32 indirect (4 * i)),
          record a {
            image = record (a.image) {
              freeblock = u32 (a.image.freeblock + 1);
              disk = put_sector at indirect a.image.disk;
            };
          },
        ))
    else (xint (load32 indirect (4 * i)), a)

-- The block for the `fbn`-th part of the file when each read succeeds.
unfoldable pub plain_block : (fbn : ℕ) → Appending → ℕ × Appending
unfolding ensure_addr plain_indirect xint
plain_block fbn a =
    if ltb fbn direct_num
    then (let a = ensure_addr fbn a in (xint (load32 a.din (addr_at fbn)), a))
    else plain_indirect (fbn - direct_num) (ensure_addr direct_num a)

abbrev pub min : ℕ → ℕ → ℕ
min a b = if ltb a b then a else b

-- `memmove(buf + at, p, n)` between a block and the data.
abbrev pub paste : Mem → (at : ℕ) → Mem → (p n : ℕ) → Mem
paste buf at data_ p n i = if leb at i && ltb i (at + n) then data_ (p + (i - at)) else buf i

-- One write of `n1` bytes into the block `x` when the read succeeds.
unfoldable pub plain_put : (x off : ℕ) → Mem → (p n1 : ℕ) → Appending → Appending
unfolding sector put_sector
plain_put x off data_ p n1 a = record a {
  image = record (a.image) {
    disk = put_sector x (paste (sector x a.image.disk) (off % b_size) data_ p n1) a.image.disk;
  };
}

-- The state of the loop with its two arrays.
pub record Reading : Type 0 where
  pub a : Appending
  pub buf : Mem
  pub indirect : Mem

-- The entry `i` of the index block: it is read, and a new block is put in and written back.
unfoldable pub ensure_indirect : (i : ℕ) → Reading → ℕ × Reading
unfolding xint rsect wsect
ensure_indirect i r =
    let at = xint (load32 r.a.din (addr_at direct_num)) in
    let indirect = rsect at r.indirect r.a.image in
    if load32 indirect (4 * i) == 0
    then (let indirect = store32 indirect (4 * i) (xint r.a.image.freeblock) in
        (
          xint (load32 indirect (4 * i)),
          record r {
            a = record (r.a) {
              image =
                  wsect at indirect
                    (record (r.a.image) { freeblock = u32 (r.a.image.freeblock + 1) });
            };
            indirect = indirect;
          },
        ))
    else (xint (load32 indirect (4 * i)), record r { indirect = indirect })

-- The block for the `fbn`-th part of the file, which is allocated if need be.
unfoldable pub file_block : (fbn : ℕ) → Reading → ℕ × Reading
unfolding ensure_addr ensure_indirect xint
file_block fbn r =
    if ltb fbn direct_num
    then (let a = ensure_addr fbn r.a in (xint (load32 a.din (addr_at fbn)), record r { a = a }))
    else ensure_indirect (fbn - direct_num) (record r { a = ensure_addr direct_num r.a })

-- One write of `n1` bytes into the block `x`.
unfoldable pub put_bytes : (x off : ℕ) → Mem → (p n1 : ℕ) → Reading → Reading
unfolding rsect wsect
put_bytes x off data_ p n1 r =
    let buf = paste (rsect x r.buf r.a.image) (off % b_size) data_ p n1 in
    record r { a = record (r.a) { image = wsect x buf r.a.image }; buf = buf }

-- `while (n > 0)`, with the offset that is reached.
pub append_loop : (fuel : ℕ) → Mem → (p n off : ℕ) → Reading → Outcome (ℕ × Reading)
append_loop zero data_ p n off r = out_of_fuel
append_loop (suc fuel) data_ p n off r =
    let fbn = off / b_size in
    let (x, r') = file_block fbn r in
    let n1 = min n ((fbn + 1) * b_size - off) in
    let rest =
      append_loop fuel data_ (p + n1) (n - n1) (u32 (off + n1)) (put_bytes x off data_ p n1 r') in
    if n == 0 then ok (off, r) else if not (ltb fbn max_file) then panic else rest

-- The bytes are `data_` from `p` on. The loop makes at most one round for each byte.
unfoldable pub iappend : (inum : ℕ) → Mem → (p n : ℕ) → Image → Outcome Image
unfolding rinode xint append_loop file_block put_bytes winode
iappend inum data_ p n s = do
  let din = rinode inum s.disk
  let a : Appending = record { image = s; din = din }
  (off, r) ←
      append_loop (n + 1) data_ p n (xint (load32 din size_at))
        (record { a = a; buf = s.stale; indirect = s.stale })
  ok (record (r.a.image) { disk = winode inum (store32 r.a.din size_at (xint off)) r.a.image.disk })
