-- ===== src/Mkfs/Build.antt =====
-- `main` of tools/mkfs.c. The arguments are the files to copy: a name, and what each `read` of up to
-- 512 bytes gives. That a file cannot be opened, and the messages, are left out.
use tuix_os.Base.{
  ℕ, zero, suc, ◌+◌, ◌-◌, ◌*◌, ◌/◌, Bool, false, not, ◌&&◌, ◌||◌, ltb, leb, ◌==◌, if◌then◌else◌,
  List, [], ◌∷◌,
}
use tuix_os.Base.Outcome.{Outcome, ok, panic, ◌>>=◌}
use tuix_os.Memory.{Mem, u32, load32, store32}
use tuix_os.Fs.{b_size, fs_size, log_size, root_ino, size_at, dir_size, dirent_size, t_dir, t_file}
use tuix_os.Mkfs.{
  Image, inodes_num, meta_num, blocks_num, inodestart, bmapstart, xint, put_short, put_sector,
  rinode, winode, ialloc, balloc, iappend,
}

-- The text of a name, without its zero, and the pieces of the contents: the bytes and their number.
pub record File : Type 0 where
  pub name : List ℕ
  pub pieces : List (Mem × ℕ)

-- The `i`-th byte of a text that a zero ends.
abbrev pub char_at : List ℕ → ℕ → ℕ
char_at [] i = 0
char_at (c ∷ cs) zero = c
char_at (c ∷ cs) (suc i) = char_at cs i

-- A cleared `struct dirent` with its number and the first 14 bytes of its name.
unfoldable pub dirent : (inum : ℕ) → (name : List ℕ) → Mem
dirent inum name =
    put_short (λ i. if leb 2 i && ltb i (2 + dir_size) then char_at name (i - 2) else 0) 0 inum

-- `strchr(name, '/') != NULL`
abbrev pub has_slash : List ℕ → Bool
has_slash [] = false
has_slash (c ∷ cs) = (c == 0x2F) || has_slash cs

-- The bytes of `struct superblock`.
unfoldable pub superblock : Mem
unfolding xint
superblock =
    let m : Mem = λ i. 0 in
    let m = store32 m 0 (xint fs_size) in
    let m = store32 m 4 (xint blocks_num) in
    let m = store32 m 8 (xint inodes_num) in
    let m = store32 m 12 (xint log_size) in
    let m = store32 m 16 (xint 2) in
    let m = store32 m 20 (xint inodestart) in store32 m 24 (xint bmapstart)

-- `for (i = 0; i < FS_SIZE; i++) put_sector(i, zeroes);` from `i` on.
unfoldable pub clear_loop : (rounds i : ℕ) → Mem → Mem
clear_loop zero i disk = disk
clear_loop (suc rounds) i disk = clear_loop rounds (i + 1) (put_sector i (λ j. 0) disk)

-- `while ((cc = read(fd, buf, sizeof(buf))) > 0) iappend(inum, buf, cc);`
unfoldable pub append_pieces : (inum : ℕ) → List (Mem × ℕ) → Image → Outcome Image
append_pieces inum [] s = ok s
append_pieces inum ((bytes, cc) ∷ ps) s = iappend inum bytes 0 cc s >>= append_pieces inum ps

unfoldable pub add_file : File → Image → Outcome Image
unfolding ialloc dirent append_pieces iappend
add_file f s =
    if has_slash f.name
    then panic
    else let (inum, s) = ialloc t_file s in
      iappend root_ino (dirent inum f.name) 0 dirent_size s >>= append_pieces inum f.pieces

unfoldable pub add_files : List File → Image → Outcome Image
unfolding add_file
add_files [] s = ok s
add_files (f ∷ fs) s = add_file f s >>= add_files fs

-- The size of the root directory is raised to whole blocks.
unfoldable pub round_root : Image → Image
unfolding rinode winode xint
round_root s =
    let din = rinode root_ino s.disk in
    let off = xint (load32 din size_at) in
    let off = u32 ((off / b_size + 1) * b_size) in
    record s { disk = winode root_ino (store32 din size_at (xint off)) s.disk }

-- The image behind the super block. `stale` stands for what the arrays of `iappend` hold at first.
unfoldable pub blank : (stale : Mem) → Image
unfolding clear_loop superblock put_sector
blank stale = record {
  length = fs_size;
  stale = stale;
  disk = put_sector 1 superblock (clear_loop fs_size 0 (λ i. 0));
  freeinode = 1;
  freeblock = meta_num;
}

-- `main` between the first `ialloc` and `balloc`.
unfoldable pub build_from : List File → ℕ × Image → Outcome Image
unfolding dirent add_files round_root iappend
build_from files (ino, s) = if not (ino == root_ino) then panic else do
  s ← iappend ino (dirent ino (0x2E ∷ [])) 0 dirent_size s
  s ← iappend ino (dirent ino (0x2E ∷ 0x2E ∷ [])) 0 dirent_size s
  s ← add_files files s
  ok (round_root s)

unfoldable pub build : (stale : Mem) → List File → Outcome Image
unfolding blank ialloc build_from
build stale files = build_from files (ialloc t_dir (blank stale))

unfoldable pub mkfs : (stale : Mem) → List File → Outcome Image
unfolding build balloc
mkfs stale files = build stale files >>= λ s. balloc s.freeblock s
