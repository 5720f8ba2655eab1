-- ===== src/Tests/Image.antt =====
-- mkfs with a text and files of three bytes.
use egos_project.Prelude.{ℕ, replicate, ◌≡◌, ◌<◌, refl, arith, List, [], ◌∷◌, ok}
use egos_project.TreeDisk.Store.{Block}
use egos_project.TreeDisk.Layout.{null_block}
use egos_project.TreeDisk.RamDisk.{fs_disk_blocks, ramdisk_init, ramdisk-IsDisk}
use egos_project.TreeDisk.Access.{treedisk_read}
use egos_project.DiskImage.{mkfs}
use egos_project.DiskImage.Expected.{expected}
use egos_project.DiskImage.Made.{mkfs-expected}
use egos_project.DiskImage.Output.{Output, write_image}
use egos_project.DiskImage.Output.Layout.{IsDiskImage, write_image-IsDiskImage}

-- "ab" and "#c"
abbrev contents : List (List ℕ)
contents = (97 ∷ (98 ∷ [])) ∷ ((35 ∷ (99 ∷ [])) ∷ [])

abbrev host : List ℕ → List ℕ
host name = 1 ∷ (2 ∷ (3 ∷ []))

mkfs-expected_example :
    (after : ℕ → Block) × (mkfs ramdisk_init 0 host contents (λ i. 7) null_block (λ n. null_block)
      ≡ ok after)
    × ((k o : ℕ)
        → k < 128
        → o < 0x1_0000_0000
        → treedisk_read ramdisk_init 0 k o after ≡ ok (expected host contents (λ i. 7) k o))
unfolding ramdisk-IsDisk
mkfs-expected_example =
    mkfs-expected ramdisk_init 0 (ramdisk-IsDisk 0) fs_disk_blocks host contents (λ i. 7) null_block
      (λ n. null_block) refl refl (omega arith) (omega arith, (omega arith, tt)) (omega arith)

abbrev kernels : List (List ℕ)
kernels = replicate 6 (112 ∷ [])

write_image-IsDiskImage_example :
    (image : Output) × (write_image host kernels (λ i. 5) (λ i. 8) ≡ ok image)
    × IsDiskImage host kernels (λ i. 5) (λ i. 8) image
write_image-IsDiskImage_example =
    write_image-IsDiskImage host kernels (λ i. 5) (λ i. 8) refl (omega arith)
