-- ===== src/Mkfs/Bitmap.antt =====
-- The bitmap of used blocks, `balloc` of tools/mkfs.c.
use tuix_os.Base.{
  ℕ, zero, suc, ◌+◌, ◌-◌, ◌*◌, ◌/◌, ◌%◌, ◌^◌, ◌≤◌, ◌<◌, ◌≡◌, ◌≢◌, refl, ap, ◌∙◌, true, ltb, leb,
  ◌==◌, if◌then◌else◌, ==_iff, leb→le, lt→ltb, Bool-cases, inl, inr, arith,
}
use tuix_os.Base.Below.{all_below, all_below_lem}
use tuix_os.Base.Outcome.{ok}
use tuix_os.Bits.{bit_or}
use tuix_os.Memory.{Mem, u8, load8, store8}
use tuix_os.Memory.Laws.{load8-store8_self, load8-store8_ne}
use tuix_os.Fs.{b_size}
use tuix_os.Mkfs.Sectors.{load8-wsect_self}
use tuix_os.Mkfs.{Image, bmapstart, put_sector, mark_loop, balloc}

-- The byte `b` of a bitmap whose first `used` bits are set.
abbrev marks : (used b : ℕ) → ℕ
marks used b = if ltb b (used / 8) then 255 else if b == used / 8 then 2 ^ (used % 8) - 1 else 0

set_next : (k : ℕ) → k < 8 → bit_or (2 ^ k - 1) (2 ^ k) ≡ 2 ^ (k + 1) - 1
unfolding all_below
set_next k h =
    (==_iff _ _).0 (all_below_lem 8 (λ j. bit_or (2 ^ j - 1) (2 ^ j) == 2 ^ (j + 1) - 1) k refl h)

low_bit : (j k : ℕ) → j < 8 → k < 8 → (2 ^ j - 1) / 2 ^ k % 2 ≡ (if ltb k j then 1 else 0)
unfolding all_below
low_bit j k h l =
    let test = λ (j : ℕ) (k : ℕ). (2 ^ j - 1) / 2 ^ k % 2 == (if ltb k j then 1 else 0) in
    (==_iff _ _).0
      (all_below_lem 8 (test j) k (all_below_lem 8 (λ i. all_below 8 (test i)) j refl h) l)

full_bit : (k : ℕ) → k < 8 → 255 / 2 ^ k % 2 ≡ 1
unfolding all_below
full_bit k h = (==_iff _ _).0 (all_below_lem 8 (λ j. 255 / 2 ^ j % 2 == 1) k refl h)

small_power : (k : ℕ) → k < 8 → 2 ^ (k + 1) ≤ 256
unfolding all_below
small_power k h = leb→le _ _ (all_below_lem 8 (λ j. leb (2 ^ (j + 1)) 256) k refl h)

-- The byte of the next bit.
mark_here : (i : ℕ) → u8 (2 ^ (i % 8 + 1) - 1) ≡ marks (i + 1) (i / 8)
mark_here i = elim (Bool-cases (i % 8 == 7)) [
  | inl last ↦
      let e : i % 8 ≡ 7 = ground arith in
      let q : (i + 1) / 8 ≡ i / 8 + 1 = omega arith in rw (e, q) (ground arith)
  | inr more ↦
      let q : (i + 1) / 8 ≡ i / 8 = ground arith in
      let r : (i + 1) % 8 ≡ i % 8 + 1 = ground arith in
      rw (q, r) (ground (arith, small_power (i % 8) (omega arith)))
]

mark_other : (i b : ℕ) → b ≢ i / 8 → marks i b ≡ marks (i + 1) b
mark_other i b ne = elim (Bool-cases (i % 8 == 7)) [
  | inl last ↦
      let q : (i + 1) / 8 ≡ i / 8 + 1 = ground arith in
      let r : (i + 1) % 8 ≡ 0 = ground arith in rw (q, r) (ground arith)
  | inr more ↦ let q : (i + 1) / 8 ≡ i / 8 = ground arith in rw q (ground arith)
]

mark_step :
    (i : ℕ) (buf : Mem)
    → ((b : ℕ) → load8 buf b ≡ marks i b)
    → (b : ℕ)
    → load8 (store8 buf (i / 8) (bit_or (load8 buf (i / 8)) (2 ^ (i % 8)))) b ≡ marks (i + 1) b
mark_step i buf h b =
    let or = bit_or (load8 buf (i / 8)) (2 ^ (i % 8)) in
    let low : load8 buf (i / 8) ≡ 2 ^ (i % 8) - 1 = h (i / 8) ∙ (ground arith) in
    elim (Bool-cases (b == i / 8)) [
      | inl same ↦
          let e : b ≡ i / 8 = ground arith in
          rw e (
            load8-store8_self buf (i / 8) or
            ∙ (rw (low, set_next (i % 8) (omega arith)) (mark_here i)))
      | inr apart ↦
          let ne : b ≢ i / 8 = ground arith in
          load8-store8_ne buf (i / 8) or b ne ∙ h b ∙ mark_other i b ne
    ]

mark_loop_lem :
    (rounds i : ℕ) (buf : Mem)
    → ((b : ℕ) → load8 buf b ≡ marks i b)
    → (b : ℕ) → load8 (mark_loop rounds i buf) b ≡ marks (i + rounds) b
unfolding mark_loop
mark_loop_lem zero i buf h b = h b ∙ ap (λ n. marks n b) (omega arith)
mark_loop_lem (suc rounds) i buf h b =
    let set = store8 buf (i / 8) (bit_or (load8 buf (i / 8)) (2 ^ (i % 8))) in
    mark_loop_lem rounds (i + 1) set (mark_step i buf h) b ∙ ap (λ n. marks n b) (omega arith)

no_marks : (b : ℕ) → load8 (λ i. 0) b ≡ marks 0 b
unfolding load8
no_marks b = ground arith

-- The bit of the block `b` in the image.
abbrev pub bitmap_bit : Mem → (b : ℕ) → ℕ
bitmap_bit disk b = load8 disk (bmapstart * b_size + b / 8) / 2 ^ (b % 8) % 2

marks-bit : (used b : ℕ) → marks used (b / 8) / 2 ^ (b % 8) % 2 ≡ (if ltb b used then 1 else 0)
marks-bit used b = elim (Bool-cases (b / 8 == used / 8)) [
  | inl same ↦
      let e : b / 8 ≡ used / 8 = ground arith in
      rw e (ground (arith, low_bit (used % 8) (b % 8) (omega arith) (omega arith)))
  | inr apart ↦ ground (arith, full_bit (b % 8) (omega arith))
]

-- With fewer used blocks than a bitmap block has bits, `balloc` sets the bits of the first `used`
-- blocks, clears the others, and writes no byte outside that block.
pub balloc_lem :
    (used : ℕ) (s : Image)
    → used < 4096
    → (s' : Image) × (balloc used s ≡ ok s')
      × ((b : ℕ) → b < 4096 → bitmap_bit s'.disk b ≡ (if ltb b used then 1 else 0))
      × ((x : ℕ) → x / b_size ≢ bmapstart → s'.disk x ≡ s.disk x)
unfolding balloc put_sector
balloc_lem used s h =
    let buf = mark_loop used 0 (λ i. 0) in
    let clear : (b : ℕ) → load8 (λ i. 0) b ≡ marks 0 b = λ b. no_marks b in
    let fits : ltb used 4096 ≡ true = lt→ltb used 4096 h in
    (
      record s { disk = put_sector bmapstart buf s.disk },
      rw fits,
      λ b l.
          ap (λ v. v / 2 ^ (b % 8) % 2)
            (load8-wsect_self bmapstart buf s.disk (b / 8) (omega arith)
              ∙ mark_loop_lem used 0 (λ i. 0) clear (b / 8)
              ∙ ap (λ n. marks n (b / 8)) (omega arith))
          ∙ marks-bit used b,
      λ x ne. ground arith,
    )
