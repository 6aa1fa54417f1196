-- ===== src/Examples/Shown.antt =====
-- The theorem on `cat` at a file of five bytes.
use vidga_os.Base.{
  ◌^◌, ◌≡◌, refl, ◌∙◌, some, [], ◌∷◌, arith, ◌==◌, if◌then◌else◌, take, codes, has_bit, false,
  c_str,
}
use vidga_os.Bytes.{get16, get32, put32, splice, bytes_at}
use vidga_os.Bytes.Laws.{length-put32, All-put32}
use vidga_os.Kernel.{Kernel, ok}
use vidga_os.Fat32.Table.{is_eoc}
use vidga_os.Fat32.Table.Alloc.{next_of}
use vidga_os.Fat32.Cluster.{cluster_sector}
use vidga_os.Fat32.Cluster.Reads.{stored_bytes}
use vidga_os.Fat32.Dirent.{
  Dirent, decode, encode, start_cluster, entry_name, strcmp_83_eq, new_entry, span_dot, pad,
  new_extension, name_bytes, until_space, fold_case,
}
use vidga_os.Fat32.Directory.{entry_at}
use vidga_os.Fat32.Directory.Chains.{Chain, end_mark, link, Holds}
use vidga_os.Fat32.Directory.Lookup.{entries, live, first_named, directory}
use vidga_os.Fat32.File.Contents.{contents}
use vidga_os.Shell.Commands.{cat}
use vidga_os.Shell.Commands.Cat.{show}
use vidga_os.Shell.Commands.Showing.{cat-Shows}
use vidga_os.Examples.Drive.{Drive, Sector, ideal, ideal-IsDisk, stored, image, fs, started}
use vidga_os.Examples.FileSystems.{fs-FatFits, root_sector}

-- The file of the root directory with five bytes, in the cluster of the directory.
abbrev listed : Sector
listed = (
  put32 (put32 (image 3).0 24 0x20000) 28 5,
  length-put32 (put32 (image 3).0 24 0x20000) 28 5
      ∙ length-put32 (image 3).0 24 0x20000
      ∙ (image 3).1,
  All-put32 (put32 (image 3).0 24 0x20000) 28 5 (All-put32 (image 3).0 24 0x20000 (image 3).2),
)

abbrev library : Drive
library n = if n == 3 then listed else image n

abbrev shelf : Kernel Drive
shelf = record started { drive = library }

abbrev notes : Dirent
notes = entry_at listed.0 0

found : first_named (codes "notes.txt") (live (directory fs (stored library) (2 ∷ []))) ≡ some notes
unfolding first_named live directory entries stored_bytes cluster_sector decode bytes_at get16 get32
    put32 splice encode new_entry span_dot pad new_extension entry_name name_bytes until_space
    strcmp_83_eq fold_case c_str
found = refl

size : notes.file_size ≡ 5
unfolding decode get16 get32 put32 splice encode new_entry span_dot pad new_extension
size = refl

first_cluster : start_cluster notes ≡ 2
unfolding decode get16 get32 put32 splice encode new_entry span_dot pad new_extension
first_cluster = refl

plain : has_bit notes.attributes 4 ≡ false
unfolding decode get16 get32 put32 splice encode new_entry span_dot pad new_extension
plain = refl

last : next_of fs (stored library) 2 ≡ 0x0FFFFFFF
unfolding next_of get32 get16 put32 splice
last = refl

clusters : Chain (next_of fs (stored library)) 2 (2 ∷ [])
unfolding is_eoc
clusters = link refl (rw last (end_mark refl))

file_clusters : Chain (next_of fs (stored library)) (start_cluster notes) (2 ∷ [])
file_clusters = rw first_cluster clusters

cat-Shows_example :
    (t : Kernel Drive) × (cat ideal 2 31 (codes "notes.txt") shelf ≡ ok tt t)
    × Holds stored fs (stored library) t
    × (t.screen
        ≡ show 31 (take notes.file_size (contents fs (stored library) (2 ∷ []))) shelf.screen)
cat-Shows_example =
    cat-Shows ideal (2 ^ 28) stored ideal-IsDisk fs (stored library) 1 31 (codes "notes.txt") notes
      shelf fs-FatFits refl (refl, refl) clusters (omega arith)
      ((omega arith, (omega arith, rw root_sector (omega arith))), tt) found plain file_clusters
      (omega arith) ((omega arith, (omega arith, rw root_sector (omega arith))), tt)
      (omega (arith, size)) (omega (arith, size)) (omega (arith, size))
