-- ===== src/Tests/Images.antt =====
-- The whole images of tools/mkfs.c, with two small files.
use tuix_os.Base.{ℕ, ◌+◌, ◌*◌, ◌<◌, ◌≤◌, ◌≡◌, refl, List, [], ◌∷◌, All, ltb, if◌then◌else◌, arith}
use tuix_os.Base.Outcome.{ok}
use tuix_os.Memory.{load8}
use tuix_os.Fs.{dirent_size, t_file}
use tuix_os.Mkfs.{Image, meta_num, ialloc, iappend}
use tuix_os.Mkfs.Build.{File, build, mkfs}
use tuix_os.Mkfs.Bitmap.{bitmap_bit}
use tuix_os.Mkfs.Copy.{total, spans_all}
use tuix_os.Mkfs.Write.{spans}
use tuix_os.Mkfs.Whole.{Text, empty, put, appended_text, IsImage, iappend-whole}
use tuix_os.Mkfs.Whole.Made.{ialloc-whole}
use tuix_os.Mkfs.Whole.Files.{IsPlain, prices}
use tuix_os.Mkfs.Whole.Disk.{IsBuilt, mkfs_lem}

-- Two files: `a` of 100 bytes, and `b` that is empty.
abbrev two_files : List File
two_files =
    record { name = 0x61 ∷ []; pieces = (λ i. 7, 100) ∷ [] }
    ∷ record { name = 0x62 ∷ []; pieces = [] }
    ∷ []

IsPlain-files : All IsPlain two_files
unfolding total
IsPlain-files = ((refl, omega arith), ((refl, omega arith), tt))

few_blocks : meta_num + 4 * spans dirent_size + prices two_files ≤ 1000
unfolding spans_all
few_blocks = omega arith

mkfs_example :
    (s : Image) × (t : Image) × (build (λ i. 0xAA) two_files ≡ ok s)
    × (mkfs (λ i. 0xAA) two_files ≡ ok t)
    × IsBuilt two_files t
    × ((b : ℕ) → b < 4096 → bitmap_bit t.disk b ≡ (if ltb b s.freeblock then 1 else 0))
mkfs_example =
    mkfs_lem (λ i. 0xAA) two_files IsPlain-files (omega arith) (omega (arith, few_blocks))

abbrev clear_image : Image
clear_image = record {
  disk = λ x. 0;
  length = 1000;
  stale = λ i. 0xAA;
  freeinode = 1;
  freeblock = meta_num;
}

abbrev no_texts : ℕ → Text
no_texts k = empty

clear_image-IsImage : IsImage clear_image no_texts
unfolding load8
clear_image-IsImage = record {
  fresh = record { behind = omega arith; clear = λ x l. refl };
  whole = refl;
  some_ = omega arith;
  inodes = omega arith;
  file = λ k u. absurd (omega arith);
  apart = λ k l u u' ne. absurd (omega arith);
  text = λ k u. absurd (omega arith);
  fits = λ k u. absurd (omega arith);
}

-- The image with one empty file.
abbrev one_file : Image
one_file = (ialloc t_file clear_image).1

one_file-whole :
    IsImage one_file (put 1 empty no_texts)
    × (one_file.freeinode ≡ 2)
    × (one_file.freeblock ≡ meta_num)
one_file-whole = ialloc-whole t_file clear_image no_texts clear_image-IsImage (omega arith)

iappend-whole_example :
    (s' : Image) × (iappend 1 (λ i. 7) 0 600 one_file ≡ ok s')
    × IsImage s' (put 1 (appended_text empty (λ i. 7) 0 600) (put 1 empty no_texts))
    × (s'.freeinode ≡ one_file.freeinode)
    × (s'.freeblock ≤ one_file.freeblock + 2 * spans 600)
iappend-whole_example =
    iappend-whole (λ i. 7) 0 600 1 one_file (put 1 empty no_texts) one_file-whole.0
      (omega arith, omega (arith, one_file-whole.1)) (omega arith) (omega (arith, one_file-whole.2))
