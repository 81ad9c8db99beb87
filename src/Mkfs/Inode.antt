-- ===== src/Mkfs/Inode.antt =====
-- What a write of an inode by tools/mkfs.c leaves to be read.
use tuix_os.Base.{
  ℕ, ◌+◌, ◌-◌, ◌*◌, ◌/◌, ◌%◌, ◌<◌, ◌≡◌, ◌≢◌, refl, sym, ap, ◌∙◌, ◌&&◌, ltb, leb, if◌then◌else◌,
  ℕ_discrete, arith,
}
use tuix_os.Memory.{Mem, load8}
use tuix_os.Fs.{b_size, dinode_size, ipb, iblock}
use tuix_os.Mkfs.{sector, rinode, winode, put_dinode, inodestart}
use tuix_os.Mkfs.Sectors.{load8-wsect_self, load8-wsect_ne}

pub rinode_byte :
    (k i : ℕ) (disk : Mem)
    → load8 (rinode k disk) i
      ≡ load8 disk (iblock k inodestart * b_size + (k % ipb * dinode_size + i))
unfolding rinode sector load8
rinode_byte k i disk = refl

module _ (inum : ℕ) (ip disk : Mem) where
  abbrev block : Mem
  block = put_dinode (inum % ipb * dinode_size) ip (sector (iblock inum inodestart) disk)

  block_byte :
      (i : ℕ)
      → load8 block i ≡ (
          if leb (inum % ipb * dinode_size) i && ltb i (inum % ipb * dinode_size + dinode_size)
          then load8 ip (i - inum % ipb * dinode_size)
          else load8 disk (iblock inum inodestart * b_size + i))
  unfolding load8 sector
  block_byte i = ground arith

  winode_byte :
      (k i : ℕ)
      → i < dinode_size
      → iblock k inodestart ≡ iblock inum inodestart
      → load8 (rinode k (winode inum ip disk)) i ≡ load8 block (k % ipb * dinode_size + i)
  unfolding winode rinode sector load8
  winode_byte k i h e = rw e (
      load8-wsect_self (iblock inum inodestart) block disk (k % ipb * dinode_size + i)
        (omega arith))

  pub rinode-winode_self :
      (i : ℕ) → i < dinode_size → load8 (rinode inum (winode inum ip disk)) i ≡ load8 ip i
  rinode-winode_self i h =
      let d : inum % ipb * dinode_size + i - inum % ipb * dinode_size ≡ i = omega arith in
      winode_byte inum i h (omega arith)
      ∙ block_byte (inum % ipb * dinode_size + i)
      ∙ rw d (ground arith)

  pub load8-winode_ne :
      (x : ℕ) → x / b_size ≢ iblock inum inodestart → load8 (winode inum ip disk) x ≡ load8 disk x
  unfolding winode
  load8-winode_ne = load8-wsect_ne (iblock inum inodestart) block disk

  pub rinode-winode_ne :
      (k i : ℕ)
      → k ≢ inum
      → i < dinode_size
      → load8 (rinode k (winode inum ip disk)) i ≡ load8 (rinode k disk) i
  rinode-winode_ne k i ne h = elim (ℕ_discrete (iblock k inodestart) (iblock inum inodestart)) [
    | yes e ↦
        let other : k % ipb ≢ inum % ipb = omega arith in
        winode_byte k i h e
        ∙ block_byte (k % ipb * dinode_size + i)
        ∙ (ground arith)
        ∙ ap (λ b. load8 disk (b * b_size + (k % ipb * dinode_size + i))) (sym e)
        ∙ sym (rinode_byte k i disk)
    | no d ↦
        rinode_byte k i (winode inum ip disk)
        ∙ load8-winode_ne (iblock k inodestart * b_size + (k % ipb * dinode_size + i))
            (λ e. d (sym (omega arith) ∙ e))
        ∙ sym (rinode_byte k i disk)
  ]
