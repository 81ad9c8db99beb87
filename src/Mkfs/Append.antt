-- ===== src/Mkfs/Append.antt =====
-- The loop of `iappend` of tools/mkfs.c.
use tuix_os.Base.{
  ℕ, ◌⊎◌, zero, suc, ◌+◌, ◌-◌, ◌*◌, ◌/◌, ◌%◌, ◌^◌, ◌≤◌, ◌<◌, ◌≡◌, ◌≢◌, refl, sym, ◌∙◌, false, ltb,
  lt→ltb, dec_lt, ℕ_discrete, ◌==◌, arith,
}
use mathlib.Core.Path.{ap₂}
use tuix_os.Base.Outcome.{Outcome, ok, panic}
use tuix_os.Memory.{Mem, u32}
use tuix_os.Fs.{b_size, max_file}
use tuix_os.Mkfs.{
  Appending, sector, min, paste, plain_block, plain_put, file_block, put_bytes, Reading,
  append_loop,
}
use tuix_os.Mkfs.Sectors.{load8-wsect_ne}
use tuix_os.Mkfs.Alloc.{IsFileAt}
use tuix_os.Mkfs.Indirect.{file_block_lem}
use tuix_os.Mkfs.Read.{plain_block-length, file_block-plain, put_bytes-plain}
use tuix_os.Mkfs.Write.{
  needed, Written, Written-none, Written-join, grown_old, grown_foreign, grown_outside, put-IsFile,
  put_new, put_old, put_bound, put_slots,
}

-- The state behind one round when each read succeeds.
abbrev plain_round : Mem → (p n1 off : ℕ) → Appending → Appending
plain_round data_ p n1 off a =
    plain_put ((plain_block (off / b_size) a).0) off data_ p n1 ((plain_block (off / b_size) a).1)

-- The state behind one round.
abbrev round : Mem → (p n1 off : ℕ) → Reading → Reading
round data_ p n1 off r =
    put_bytes ((file_block (off / b_size) r).0) off data_ p n1 ((file_block (off / b_size) r).1)

plain_round_lem :
    (data_ : Mem) (p n1 off : ℕ) (a : Appending)
    → IsFileAt a off
    → off / b_size < max_file
    → a.image.freeblock + 2 < 2 ^ 32
    → 0 < n1
    → n1 ≤ (off / b_size + 1) * b_size - off
    → Written data_ p n1 off a (plain_round data_ p n1 off a)
unfolding plain_put
plain_round_lem data_ p n1 off a v within room some_ fits =
    let fbn = off / b_size in
    let a' = (plain_block fbn a).1 in
    let x = (plain_block fbn a).0 in
    let w = file_block_lem fbn off a within v room in
    let up = w.cost in
    let bound = put_bound data_ p n1 off a' x w.file within w.at w.set fits in
    record {
      file = put-IsFile data_ p n1 off a' x w.file within w.at w.set fits;
      old = λ i h.
          put_old data_ p n1 off a' x w.file within w.at w.set fits i h
          ∙ grown_old fbn off a a' x v w i h (omega arith);
      new = put_new data_ p n1 off a' x w.file within w.at w.set fits;
      outside = λ b f y e.
          load8-wsect_ne x (paste (sector x a'.image.disk) (off % b_size) data_ p n1) a'.image.disk
            y (λ u. (grown_foreign fbn off a a' x v w b f).off_slots fbn within (w.at ∙ sym u ∙ e))
          ∙ grown_outside fbn off a a' x v w b f y e;
      foreign = λ b f.
          let g = grown_foreign fbn off a a' x v w b f in
          record {
            below = g.below;
            off_slots = λ j l.
                rw (put_slots data_ p n1 off a' x w.file within w.at w.set fits j l)
                  (g.off_slots j l);
            off_index = g.off_index;
          };
      head = w.grown.head;
      length = plain_block-length fbn a;
      cost = let need : 1 ≤ needed off n1 = ground arith in omega arith;
      grow = w.grown.grow;
    }

-- A round reads only blocks of the file, if these are more than the blocks in use will be.
round-plain :
    (data_ : Mem) (p n1 off : ℕ) (r : Reading)
    → IsFileAt r.a off
    → off / b_size < max_file
    → r.a.image.freeblock + 2 ≤ r.a.image.length
    → r.a.image.length < 2 ^ 32
    → 0 < n1
    → n1 ≤ (off / b_size + 1) * b_size - off
    → (round data_ p n1 off r).a ≡ plain_round data_ p n1 off r.a
round-plain data_ p n1 off r v within room small some_ fits =
    let fbn = off / b_size in
    let a' = (plain_block fbn r.a).1 in
    let w = file_block_lem fbn off r.a within v (omega arith) in
    let up = w.cost in
    let (same_x, same_a) = file_block-plain fbn off r v within (omega arith) small in
    let bound = put_bound data_ p n1 off a' (plain_block fbn r.a).0 w.file within w.at w.set fits in
    let long = plain_block-length fbn r.a in
    put_bytes-plain (file_block fbn r).0 off data_ p n1 (file_block fbn r).1
      (rw (same_x, same_a) (omega arith))
    ∙ ap₂ (λ x b. plain_put x off data_ p n1 b) same_x same_a

round_lem :
    (data_ : Mem) (p n1 off : ℕ) (r : Reading)
    → IsFileAt r.a off
    → off / b_size < max_file
    → r.a.image.freeblock + 2 ≤ r.a.image.length
    → r.a.image.length < 2 ^ 32
    → 0 < n1
    → n1 ≤ (off / b_size + 1) * b_size - off
    → Written data_ p n1 off r.a (round data_ p n1 off r).a
round_lem data_ p n1 off r v within room small some_ fits =
    rw (round-plain data_ p n1 off r v within room small some_ fits)
      (plain_round_lem data_ p n1 off r.a v within (omega arith) some_ fits)

-- The number of bytes of the next round.
abbrev part : (n off : ℕ) → ℕ
part n off = min n ((off / b_size + 1) * b_size - off)

append_loop-round :
    (fuel : ℕ) (data_ : Mem) (p n off : ℕ) (a : Reading) (r : Outcome (ℕ × Reading))
    → n ≢ 0
    → off / b_size < max_file
    → off + n < 2 ^ 32
    → append_loop fuel data_
        (p + part n off)
        (n - part n off)
        (off + part n off)
        (round data_ p (part n off) off a)
      ≡ r
    → append_loop (suc fuel) data_ p n off a ≡ r
unfolding append_loop
append_loop-round fuel data_ p n off a r ne within fits ran =
    let below : part n off ≤ n = ground arith in
    let no_wrap : u32 (off + part n off) ≡ off + part n off = omega arith in
    let test : (n == 0) ≡ false = ground arith in
    rw (test, lt→ltb (off / b_size) max_file within, no_wrap) ran

-- A run of the loop that puts the `n` bytes behind the file.
abbrev pub Appends : (fuel : ℕ) → Mem → (p n off : ℕ) → Reading → Type 0
Appends fuel data_ p n off a =
    (c : Reading) × (append_loop fuel data_ p n off a ≡ ok (off + n, c))
    × Written data_ p n off a.a c.a

append_loop-done :
    (fuel : ℕ) (data_ : Mem) (p n off : ℕ) (a : Reading)
    → n ≡ 0
    → IsFileAt a.a off
    → Appends (suc fuel) data_ p n off a
unfolding append_loop
append_loop-done fuel data_ p n off a e v =
    let z : off + 0 ≡ off = omega arith in rw e (a, rw z refl, Written-none data_ p off a.a v)

append_loop-join :
    (fuel : ℕ) (data_ : Mem) (p n off : ℕ) (a : Reading)
    → n ≢ 0
    → off / b_size < max_file
    → off + n < 2 ^ 32
    → part n off ≤ n
    → (n - part n off ≡ 0) ⊎ ((off + part n off) % b_size ≡ 0)
    → Written data_ p (part n off) off a.a (round data_ p (part n off) off a).a
    → Appends fuel data_
        (p + part n off)
        (n - part n off)
        (off + part n off)
        (round data_ p (part n off) off a)
    → Appends (suc fuel) data_ p n off a
append_loop-join fuel data_ p n off a ne within fits below border w rest =
    let n1 = part n off in
    let b = round data_ p n1 off a in
    let c = rest.0 in
    let sum : n1 + (n - n1) ≡ n = omega arith in
    let end : off + n1 + (n - n1) ≡ off + n = omega arith in
    let whole = Written-join data_ p n1 (n - n1) off a.a b.a c.a w (rest.2) border in
    let ran = rw end at rest.1 in
    (
      c,
      append_loop-round fuel data_ p n off a (ok (off + n, c)) ne within fits ran,
      rw sum at whole,
    )

-- The loop puts the `n` bytes behind the file, given room in it, blocks in the image file, and fuel for each byte.
pub append_loop_lem :
    (fuel : ℕ) (data_ : Mem) (p n off : ℕ) (a : Reading)
    → n < fuel
    → IsFileAt a.a off
    → off + n ≤ max_file * b_size
    → a.a.image.freeblock + 2 * needed off n ≤ a.a.image.length
    → a.a.image.length < 2 ^ 32
    → Appends fuel data_ p n off a
append_loop_lem zero data_ p n off a lt v room fits small = absurd (omega arith)
append_loop_lem (suc fuel) data_ p n off a lt v room fits small = elim (ℕ_discrete n 0) [
  | yes e ↦ append_loop-done fuel data_ p n off a e v
  | no ne ↦
      let n1 = part n off in
      let some_ : 0 < n1 = ground arith in
      let below : n1 ≤ n = ground arith in
      let fits' : n1 ≤ (off / b_size + 1) * b_size - off = ground arith in
      let border : (n - n1 ≡ 0) ⊎ ((off + n1) % b_size ≡ 0) = ground arith in
      let within : off / b_size < max_file = omega arith in
      let b = round data_ p n1 off a in
      let w = round_lem data_ p n1 off a v within (ground arith) small some_ fits' in
      let up = w.cost in
      let long = w.length in
      append_loop-join fuel data_ p n off a ne within (omega arith) below border w (
        append_loop_lem fuel data_ (p + n1) (n - n1) (off + n1) b (omega arith) w.file (omega arith)
          (ground arith) (omega arith))
]

-- Past the largest file the loop stops at the assertion, whatever the blocks are.
pub append_loop-too_long :
    (fuel : ℕ) (data_ : Mem) (p n off : ℕ) (a : Reading)
    → n < fuel
    → 0 < n
    → max_file * b_size < off + n
    → off + n < 2 ^ 32
    → append_loop fuel data_ p n off a ≡ panic
unfolding append_loop
append_loop-too_long zero data_ p n off a lt some_ long fits = absurd (omega arith)
append_loop-too_long (suc fuel) data_ p n off a lt some_ long fits =
    let n1 = part n off in
    let some1 : 0 < n1 = ground arith in
    let below : n1 ≤ n = ground arith in
    let test : (n == 0) ≡ false = ground arith in
    elim (dec_lt (off / b_size) max_file) [
      | yes within ↦
          let left : n1 < n = ground arith in
          append_loop-round fuel data_ p n off a panic (omega arith) within fits (
            append_loop-too_long fuel data_ (p + n1) (n - n1) (off + n1) (round data_ p n1 off a)
              (omega arith) (omega arith) (omega arith) (omega arith))
      | no out ↦
          let stop : ltb (off / b_size) max_file ≡ false = ground arith in rw (test, stop) refl
    ]
