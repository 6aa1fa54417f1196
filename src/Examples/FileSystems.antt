-- ===== src/Examples/FileSystems.antt =====
-- The file system's theorems on a small image.
use vidga_os.Base.{ℕ, ◌^◌, ◌≡◌, refl, true, false, some, [], ◌∷◌, arith, codes, ◌↔◌}
use vidga_os.Kernel.{Kernel, ok, pure}
use vidga_os.Bytes.{get16, get32, put32, splice}
use vidga_os.Fat32.Disk.{FatFits, SameDisk}
use vidga_os.Fat32.Dirent.{Dirent, entry_name, new_entry, strcmp_83_eq}
use vidga_os.Fat32.Dirent.Names.{
  SameName, strcmp_83_eq_iff, entry_name-new_entry, entry_name-undotted,
}
use vidga_os.Fat32.Table.{is_eoc, alloc_cluster, update_fat_entry}
use vidga_os.Fat32.Table.Alloc.{next_of, IsFirstFree, alloc_cluster-IsFirstFree}
use vidga_os.Fat32.Table.Entry.{Updated, update_fat_entry_lem}
use vidga_os.Fat32.Cluster.{cluster_sector, read_cluster, write_cluster, write_dirent}
use vidga_os.Fat32.Cluster.Reads.{cluster_bytes, read_cluster-ok}
use vidga_os.Fat32.Directory.{find_file, create_dirent, delete}
use vidga_os.Fat32.Directory.Removal.{Deletes, delete-Deletes}
use vidga_os.Fat32.Directory.Creation.{Creates, create_dirent-Creates}
use vidga_os.Fat32.Directory.Chains.{Chain, end_mark, link, Finds}
use vidga_os.Fat32.Directory.Lookup.{live, first_named, directory, find_file-first_named}
use vidga_os.Fat32.Dirent.Widths.{new_entry-IsEntry}
use vidga_os.Fat32.Cluster.Writes.{
  Writes, WritesEntry, write_cluster-Writes, write_dirent-WritesEntry,
}
use vidga_os.Vfs.{at_parent}
use vidga_os.Vfs.Root.{at_parent-root}
use vidga_os.Paths.{resolve_path, is_absolute}
use vidga_os.Examples.Drive.{
  blank, length-blank, All-blank, IsByte-letters, Drive, stored, ideal, ideal-IsDisk, fs, image,
  started,
}

pub fs-FatFits : FatFits fs (2 ^ 28)
fs-FatFits = omega arith

next_of-root : next_of fs (stored image) 2 ≡ 0x0FFFFFFF
unfolding next_of get32 get16 put32 splice
next_of-root = refl

pub root-Chain : Chain (next_of fs (stored image)) 2 (2 ∷ [])
unfolding is_eoc
root-Chain = link refl (rw next_of-root (end_mark refl))

pub root_sector : cluster_sector fs 2 ≡ 3
unfolding cluster_sector
root_sector = refl

update_fat_entry_lem_example :
    Updated stored started 5 0x0FFFFFFF (update_fat_entry ideal 5 0x0FFFFFFF started)
update_fat_entry_lem_example =
    update_fat_entry_lem ideal (2 ^ 28) stored ideal-IsDisk started 5 0x0FFFFFFF fs-FatFits
      (omega arith)

alloc_cluster-IsFirstFree_example :
    (r : ℕ) × (t : Kernel Drive) × (alloc_cluster ideal started ≡ ok r t)
    × SameDisk stored started t
    × IsFirstFree fs (stored image) 2 128 r
alloc_cluster-IsFirstFree_example =
    alloc_cluster-IsFirstFree ideal (2 ^ 28) stored ideal-IsDisk started fs-FatFits

read_cluster-ok_example :
    (t : Kernel Drive) × (read_cluster ideal 2 started
      ≡ ok (some (cluster_bytes fs (stored image) 2)) t)
    × SameDisk stored started t
read_cluster-ok_example =
    read_cluster-ok ideal (2 ^ 28) stored ideal-IsDisk 2 started
      (omega arith, rw root_sector (omega arith))

find_file-first_named_example :
    Finds stored started
      (first_named (codes "notes.txt") (live (directory fs (stored image) (2 ∷ []))))
      (find_file ideal 1 2 (codes "notes.txt") started)
find_file-first_named_example =
    find_file-first_named ideal (2 ^ 28) stored ideal-IsDisk fs (stored image) (codes "notes.txt") 1
      2 started fs-FatFits root-Chain (omega arith)
      ((omega arith, (omega arith, rw root_sector (omega arith))), tt) (refl, refl)

strcmp_83_eq_iff_example :
    (strcmp_83_eq (codes "Notes") (codes "NOTES") ≡ true) ↔ SameName (codes "Notes") (codes "NOTES")
strcmp_83_eq_iff_example =
    strcmp_83_eq_iff (codes "Notes") (codes "NOTES") (ground arith) (ground arith)

entry_name-new_entry_example : entry_name (new_entry (codes "NOTES.TXT") 0x20 0) ≡ codes "NOTES.TXT"
entry_name-new_entry_example =
    entry_name-new_entry (codes "NOTES") (codes "TXT") 0x20 0 (ground arith) (ground arith)
      (ground arith) (omega arith) (omega arith) (omega arith)

entry_name-undotted_example :
    (entry_name (new_entry (codes "system") 0x10 5) ≡ codes "system.")
    × (strcmp_83_eq (entry_name (new_entry (codes "system") 0x10 5)) (codes "system") ≡ false)
entry_name-undotted_example =
    entry_name-undotted (codes "system") 0x10 5 (ground arith) (ground arith) (omega arith)

at_parent-root_example :
    at_parent ideal 1 (codes "/system") (pure 0) (λ cluster name. pure cluster) started
    ≡ ok 2 started
unfolding resolve_path is_absolute
at_parent-root_example =
    at_parent-root ideal 1 (codes "/system") (codes "system") (pure 0)
      (λ cluster name. pure cluster) started refl (ground arith) (ground arith) (omega arith)

abbrev notes : Dirent
notes = new_entry (codes "NOTES.TXT") 0x20 7

write_cluster-Writes_example :
    Writes ideal
      (2 ^ 28)
      stored
      ideal-IsDisk
      fs
      (stored image)
      2
      blank
      (write_cluster ideal 2 blank started)
write_cluster-Writes_example =
    write_cluster-Writes ideal (2 ^ 28) stored ideal-IsDisk 2 blank started
      (omega arith, rw root_sector (omega arith)) length-blank All-blank

write_dirent-WritesEntry_example :
    WritesEntry ideal
      (2 ^ 28)
      stored
      ideal-IsDisk
      fs
      (stored image)
      2
      3
      notes
      (write_dirent ideal 2 3 notes started)
write_dirent-WritesEntry_example =
    write_dirent-WritesEntry ideal (2 ^ 28) stored ideal-IsDisk 2 3 notes started
      (new_entry-IsEntry (codes "NOTES.TXT") 0x20 7 IsByte-letters (omega arith))
      (omega arith, rw root_sector (omega arith)) (omega arith)

create_dirent-Creates_example :
    Creates ideal
      (2 ^ 28)
      stored
      ideal-IsDisk
      fs
      (stored image)
      started
      (2 ∷ [])
      notes
      (create_dirent ideal 1 2 (codes "NOTES.TXT") 0x20 7 started)
create_dirent-Creates_example =
    create_dirent-Creates ideal (2 ^ 28) stored ideal-IsDisk fs (stored image) 1 2
      (codes "NOTES.TXT") 0x20 7 started fs-FatFits root-Chain (omega arith)
      ((omega arith, (omega arith, rw root_sector (omega arith))), tt) (refl, refl) IsByte-letters
      (omega arith)

delete-Deletes_example :
    Deletes ideal
      (2 ^ 28)
      stored
      ideal-IsDisk
      fs
      (stored image)
      started
      (2 ∷ [])
      (codes "notes.txt")
      (delete ideal 1 2 (codes "notes.txt") started)
delete-Deletes_example =
    delete-Deletes ideal (2 ^ 28) stored ideal-IsDisk fs (stored image) 1 2 (codes "notes.txt")
      started fs-FatFits root-Chain (omega arith)
      ((omega arith, (omega arith, rw root_sector (omega arith))), tt) (refl, refl)
