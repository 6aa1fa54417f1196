-- ===== src/Examples/Trees.antt =====
-- The theorems on paths at a root directory that holds one directory.
use vidga_os.Base.{
  ◌^◌, ◌≡◌, refl, ◌∙◌, none, some, [], ◌∷◌, arith, ◌==◌, if◌then◌else◌, All, IsByte, codes, has_bit,
  true, c_str,
}
use mathlib.Core.Path.{subst}
use vidga_os.Bytes.{get16, get32, put32, splice, bytes_at}
use vidga_os.Bytes.Laws.{length-put32, length-splice, All-put32, All-splice}
use vidga_os.Kernel.{Kernel, ok, pure}
use vidga_os.Paths.{is_absolute, resolve_path}
use vidga_os.Paths.Components.{components}
use vidga_os.Fat32.Disk.{SameDisk}
use vidga_os.Fat32.Table.{is_eoc}
use vidga_os.Fat32.Table.Alloc.{next_of}
use vidga_os.Fat32.Cluster.{cluster_sector}
use vidga_os.Fat32.Cluster.Reads.{stored_bytes}
use vidga_os.Fat32.Dirent.{
  Dirent, decode, encode, start_cluster, entry_name, strcmp_83_eq, new_entry, span_dot, pad,
  new_extension, name_bytes, until_space, fold_case,
}
use vidga_os.Fat32.Dirent.Widths.{All-encode, new_entry-IsEntry}
use vidga_os.Fat32.Directory.{entry_at}
use vidga_os.Fat32.Directory.Chains.{Chain, end_mark, link}
use vidga_os.Fat32.Directory.Lookup.{entries, live, first_named, directory}
use vidga_os.Vfs.{navigate_path, at_parent}
use vidga_os.Vfs.Walk.{Steps, up_root, into, Leads, arrived, go}
use vidga_os.Vfs.Navigation.{navigate_path-Leads, at_parent-Leads}
use vidga_os.Examples.Drive.{
  Drive, Sector, ideal, ideal-IsDisk, stored, image, fs, started, blank, length-blank, All-blank,
}
use vidga_os.Examples.FileSystems.{fs-FatFits, root_sector}

-- Both directories have one cluster, 2 and 3.
abbrev table : Sector
table = (
  put32 (image 1).0 12 0x0FFFFFFF,
  length-put32 (image 1).0 12 0x0FFFFFFF ∙ (image 1).1,
  All-put32 (image 1).0 12 0x0FFFFFFF (image 1).2,
)

IsByte-letters : All IsByte (codes "SUB.DIR")
IsByte-letters = ground arith

abbrev sub : Dirent
sub = new_entry (codes "SUB.DIR") 0x10 3

abbrev root_sectors : Sector
root_sectors = (
  splice blank 0 (encode sub),
  length-splice blank (encode sub) 0 ∙ length-blank,
  All-splice blank (encode sub) 0 All-blank
      (All-encode sub (new_entry-IsEntry (codes "SUB.DIR") 0x10 3 IsByte-letters (omega arith))),
)

abbrev tree : Drive
tree n = if n == 1 then table else if n == 3 then root_sectors else (blank, length-blank, All-blank)

abbrev planted : Kernel Drive
planted = record started { drive = tree }

abbrev entry : Dirent
entry = entry_at root_sectors.0 0

found : first_named (codes "sub.dir") (live (directory fs (stored tree) (2 ∷ []))) ≡ some entry
unfolding first_named live directory entries stored_bytes cluster_sector decode bytes_at get16 get32
    put32 splice encode new_entry span_dot pad new_extension entry_name name_bytes until_space
    strcmp_83_eq fold_case c_str
found = refl

empty : first_named (codes "..") (live (directory fs (stored tree) (3 ∷ []))) ≡ none
unfolding first_named live directory entries stored_bytes cluster_sector decode bytes_at get16 get32
empty = refl

is_dir : has_bit entry.attributes 4 ≡ true
unfolding decode get16 get32 put32 splice encode new_entry span_dot pad new_extension
is_dir = refl

first_cluster : start_cluster entry ≡ 3
unfolding decode get16 get32 put32 splice encode new_entry span_dot pad new_extension
first_cluster = refl

last : next_of fs (stored tree) 2 ≡ 0x0FFFFFFF
unfolding next_of get32 get16 put32 splice
last = refl

last_sub : next_of fs (stored tree) 3 ≡ 0x0FFFFFFF
unfolding next_of get32 get16 put32 splice
last_sub = refl

clusters : Chain (next_of fs (stored tree)) 2 (2 ∷ [])
unfolding is_eoc
clusters = link refl (rw last (end_mark refl))

sub_clusters : Chain (next_of fs (stored tree)) 3 (3 ∷ [])
unfolding is_eoc
sub_clusters = link refl (rw last_sub (end_mark refl))

sub_sector : cluster_sector fs 3 ≡ 4
unfolding cluster_sector
sub_sector = refl

enter : Steps 1 (2 ^ 28) fs (stored tree) 2 (codes "sub.dir") (some 3)
enter =
    subst (λ k. Steps 1 (2 ^ 28) fs (stored tree) 2 (codes "sub.dir") (some k)) first_cluster
      (into (ground arith) (λ e. cc e) (λ e. cc e)
        (
          2 ∷ [],
          clusters,
          omega arith,
          ((omega arith, (omega arith, rw root_sector (omega arith))), tt),
          found,
        )
        is_dir)

leave : Steps 1 (2 ^ 28) fs (stored tree) 3 (codes "..") (some 2)
leave = up_root (
  3 ∷ [],
  sub_clusters,
  omega arith,
  ((omega arith, (omega arith, rw sub_sector (omega arith))), tt),
  empty,
)

around : Leads 1 (2 ^ 28) fs (stored tree) 2 (components (codes "sub.dir/../sub.dir")) (some 3)
unfolding components
around = go enter (go leave (go enter arrived))

navigate_path-Leads_example :
    (t : Kernel Drive) × (navigate_path ideal 1 (codes "/sub.dir/../sub.dir") planted
      ≡ ok (some 3) t)
    × SameDisk stored planted t
navigate_path-Leads_example =
    navigate_path-Leads ideal 1 (2 ^ 28) stored ideal-IsDisk fs (stored tree) fs-FatFits
      (codes "sub.dir/../sub.dir") (some 3) planted (ground arith) (omega arith) around (refl, refl)

inside : Leads 1 (2 ^ 28) fs (stored tree) 2 (components (codes "sub.dir")) (some 3)
unfolding components
inside = go enter arrived

at_parent-Leads_example :
    (t : Kernel Drive) × SameDisk stored planted t
    × (at_parent ideal 1 (codes "/sub.dir/note") (pure 0) (λ cluster name. pure cluster) planted
        ≡ ok 3 t)
unfolding resolve_path is_absolute
at_parent-Leads_example =
    at_parent-Leads ideal 1 (2 ^ 28) stored ideal-IsDisk fs (stored tree) fs-FatFits
      (codes "/sub.dir/note") (codes "sub.dir") (codes "note") (some 3) (pure 0)
      (λ cluster name. pure cluster) planted refl (ground arith) (ground arith) (ground arith)
      (omega arith) inside (refl, refl)
