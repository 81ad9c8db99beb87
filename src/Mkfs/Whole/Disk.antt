-- ===== src/Mkfs/Whole/Disk.antt =====
-- The disk that tools/mkfs.c writes: every file that it is given is there, byte for byte.
use tuix_os.Base.{
  ℕ, zero, suc, ◌+◌, ◌-◌, ◌*◌, ◌≤◌, ◌<◌, ◌≡◌, refl, ap, sym, ◌∙◌, ltb, if◌then◌else◌, List, [], ◌∷◌,
  All, length, get_elem?, some, arith,
}
use mathlib.Core.Path.{subst}
use tuix_os.Base.Outcome.{ok}
use tuix_os.Memory.{Mem, u8, load8}
use tuix_os.Fs.{fs_size, root_ino, dirent_size}
use tuix_os.Mkfs.{Image, meta_num, inodes_num}
use tuix_os.Mkfs.Bitmap.{bitmap_bit, balloc_lem}
use tuix_os.Mkfs.File.{size_of, byte_of}
use tuix_os.Mkfs.Build.{File, dirent, round_root, build, mkfs}
use tuix_os.Mkfs.Copy.{total, content}
use tuix_os.Mkfs.Write.{spans}
use tuix_os.Mkfs.Whole.{InUse}
use tuix_os.Mkfs.Whole.Files.{IsPlain, prices}
use tuix_os.Mkfs.Whole.Listing.{
  with_files-IsContent, with_files-root, length-with_files, with_files-entry,
}
use tuix_os.Mkfs.Whole.Kept.{
  IsKept, IsKept-bytes, IsKept-size, IsKept-trans, round_root-IsKept, bitmap-IsKept,
}
use tuix_os.Mkfs.Whole.Main.{dots, all_texts, Populated, build-Populated}

-- The disk has the files in their order from inode 2 on, and the root directory has their entries behind
-- its own.
pub record IsBuilt (files : List File) (s : Image) : Type 0 where
  pub size : (j : ℕ) (f : File) → get_elem? files j ≡ some f → size_of s (2 + j) ≡ total f.pieces
  pub contents :
      (j : ℕ) (f : File) (i : ℕ)
      → get_elem? files j ≡ some f
      → i < total f.pieces
      → byte_of s (2 + j) i ≡ content f.pieces i
  pub dot : (i : ℕ) → i < dirent_size → byte_of s root_ino i ≡ load8 (dirent root_ino (0x2E ∷ [])) i
  pub dot_dot :
      (i : ℕ)
      → i < dirent_size
      → byte_of s root_ino (dirent_size + i) ≡ load8 (dirent root_ino (0x2E ∷ 0x2E ∷ [])) i
  pub entries :
      (j : ℕ) (f : File) (i : ℕ)
      → get_elem? files j ≡ some f
      → i < dirent_size
      → byte_of s root_ino ((2 + j) * dirent_size + i) ≡ load8 (dirent (2 + j) f.name) i

ok-injective : (a b : Image) → ok a ≡ ok b → a ≡ b
ok-injective a b e = cc

get_elem?-lt :
    (files : List File) (j : ℕ) (f : File) → get_elem? files j ≡ some f → j < length files
get_elem?-lt [] j f e = cc
get_elem?-lt (g ∷ files) zero f e = omega arith
get_elem?-lt (g ∷ files) (suc j) f e = omega (arith, get_elem?-lt files j f e)

length-dots : (dots root_ino).len ≡ 2 * dirent_size
length-dots = refl

module _ (stale : Mem) (files : List File) (u s : Image) (p : Populated stale files u)
    (w : IsKept u.disk s.disk) where
  root_len : (all_texts files root_ino).len ≡ (2 + length files) * dirent_size
  root_len = length-with_files files 2 dots (omega arith) ∙ (omega arith)

  root_used : InUse u root_ino
  root_used = let c = p.count in (omega arith, omega arith)

  file_used : (j : ℕ) (f : File) → get_elem? files j ≡ some f → InUse u (2 + j)
  file_used j f e =
      let c = p.count in let l = get_elem?-lt files j f e in (omega arith, omega arith)

  root-dots : (i : ℕ) → i < 2 * dirent_size → byte_of s root_ino i ≡ (dots root_ino).at i
  root-dots i l =
      let n = root_len in
      IsKept-bytes u s (all_texts files) p.image w root_ino root_used i (omega arith)
      ∙ with_files-root files 2 dots i (omega arith) (omega arith)

  Populated-IsBuilt : IsBuilt files s
  Populated-IsBuilt = record {
    size = λ j f e.
        IsKept-size u s (all_texts files) p.image w (2 + j) (file_used j f e) (omega arith)
        ∙ (with_files-IsContent files 2 j f dots (omega arith) e).0;
    contents = λ j f i e l.
        let (len, at) = with_files-IsContent files 2 j f dots (omega arith) e in
        IsKept-bytes u s (all_texts files) p.image w (2 + j) (file_used j f e) i (omega arith)
        ∙ at i l;
    dot = λ i l. root-dots i (omega arith) ∙ ground arith;
    dot_dot = λ i l.
        let off : dirent_size + i - dirent_size ≡ i = omega arith in
        root-dots (dirent_size + i) (omega arith) ∙ ground arith;
    entries = λ j f i e l.
        let n = root_len in
        let k = get_elem?-lt files j f e in
        let spot : (2 + j) * dirent_size + i ≡ 2 * dirent_size + j * dirent_size + i =
          omega arith in
        ap (byte_of s root_ino) spot
        ∙ IsKept-bytes u s (all_texts files) p.image w root_ino root_used
            (2 * dirent_size + j * dirent_size + i) (omega arith)
        ∙ with_files-entry files 2 j f dots i (omega arith) e l;
  }

pub build_lem :
    (stale : Mem) (files : List File)
    → All IsPlain files
    → 2 + length files ≤ inodes_num
    → meta_num + 4 * spans dirent_size + prices files ≤ fs_size
    → (s : Image) × (build stale files ≡ ok s)
      × IsBuilt files s
      × (s.freeblock ≤ meta_num + 4 * spans dirent_size + prices files)
unfolding round_root
build_lem stale files plain room blocks =
    let (u, p) = build-Populated stale files plain room blocks in
    (
      round_root u,
      p.ran,
      Populated-IsBuilt stale files u (round_root u) p (round_root-IsKept u),
      p.cost,
    )

built-IsKept :
    (stale : Mem) (files : List File) (u s : Image)
    → build stale files ≡ ok (round_root u)
    → build stale files ≡ ok s
    → IsKept u.disk s.disk
built-IsKept stale files u s e e' =
    subst (λ t. IsKept u.disk t.disk) (ok-injective (round_root u) s (sym e ∙ e'))
      (round_root-IsKept u)

-- Files without a `/` in their names, none longer than the largest file, no more than there are inodes
-- behind the root, and blocks enough for them, two counted for each that a piece or an entry may lie in:
-- `mkfs` succeeds. The image that it writes has all files and the entries of the root as
-- `build` has left them, and a bitmap in which just the blocks in use are marked.
pub mkfs_lem :
    (stale : Mem) (files : List File)
    → All IsPlain files
    → 2 + length files ≤ inodes_num
    → meta_num + 4 * spans dirent_size + prices files ≤ fs_size
    → (s : Image) × (t : Image) × (build stale files ≡ ok s)
      × (mkfs stale files ≡ ok t)
      × IsBuilt files t
      × ((b : ℕ) → b < 4096 → bitmap_bit t.disk b ≡ (if ltb b s.freeblock then 1 else 0))
unfolding mkfs load8
mkfs_lem stale files plain room blocks =
    let (s, e, _, cost) = build_lem stale files plain room blocks in
    let (u, p) = build-Populated stale files plain room blocks in
    let (t, ran, bits, same) = balloc_lem s.freeblock s (omega arith) in
    (
      s,
      t,
      e,
      rw e ran,
      Populated-IsBuilt stale files u t p (
          IsKept-trans u.disk s.disk t.disk (built-IsKept stale files u s p.ran e)
            (bitmap-IsKept s.disk t.disk (λ x ne. ap u8 (same x ne)))),
      bits,
    )
