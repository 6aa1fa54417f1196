-- ===== src/Examples/Files.antt =====
-- The theorems on reading a file of one cluster.
use vidga_os.Base.{◌^◌, ◌≡◌, refl, [], ◌∷◌, arith, take}
use vidga_os.Kernel.{Kernel, ok, fault}
use vidga_os.Fat32.Disk.{SameDisk}
use vidga_os.Fat32.File.{OpenFile, read}
use vidga_os.Fat32.File.Contents.{contents, read-contents, read-inside}
use vidga_os.Examples.Drive.{Drive, ideal, ideal-IsDisk, stored, image, fs, started}
use vidga_os.Examples.FileSystems.{fs-FatFits, root-Chain, root_sector}

-- The root directory's cluster as a file of 600 bytes, read from its start and from inside.
abbrev handle : OpenFile
handle = record { cluster = 2; position = 0; file_size = 600; cluster_pos = 0 }

abbrev half_read : OpenFile
half_read = record handle { position = 100; cluster_pos = 100 }

read-contents_example :
    (file' : OpenFile) × (t : Kernel Drive) × (read ideal 1 handle 300 started
      ≡ ok (file', take 300 (contents fs (stored image) (2 ∷ []))) t)
    × SameDisk stored started t
    × (file'.position ≡ 300)
read-contents_example =
    read-contents ideal (2 ^ 28) stored ideal-IsDisk fs (stored image) 1 300 handle started
      fs-FatFits (omega arith) root-Chain (omega arith)
      ((omega arith, (omega arith, rw root_sector (omega arith))), tt) (refl, refl) refl
      (omega arith) (omega arith) (omega arith) (omega arith)

read-inside_example : read ideal 1 half_read 300 started ≡ fault
read-inside_example =
    read-inside ideal 0 300 half_read started (omega arith) (omega arith) (omega arith)
      (omega arith) (omega arith) (omega arith) (omega arith)
