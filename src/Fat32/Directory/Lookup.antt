-- ===== src/Fat32/Directory/Lookup.antt =====
-- `fat32_find_file` against a lookup in the list of a directory's entries.
use vidga_os.Base.{
  ℕ, zero, suc, ◌+◌, ◌≤◌, ◌≡◌, refl, sym, ap, inl, inr, Option, none, some, List, [], ◌∷◌, ◌++◌,
  arith, ◌==◌, if◌then◌else◌, length, All, Text,
}
use vidga_os.Kernel.{BlockDevice, FileSystem, Kernel, ok}
use vidga_os.Fat32.Disk.{IsDisk, FatFits, SameDisk-refl, SameDisk-trans}
use vidga_os.Fat32.Dirent.{Dirent, first_byte, entry_name, strcmp_83_eq}
use vidga_os.Fat32.Table.Alloc.{next_of}
use vidga_os.Fat32.Cluster.Reads.{cluster_bytes}
use vidga_os.Fat32.Directory.Chains.{
  Chain, end_mark, link, Scan-cases, Usable, Holds, Finds, Holds-SameDisk, reads, follows,
  Finds-after,
}
use vidga_os.Fat32.Directory.{
  stop, exhausted, entry_at, entries_per_cluster, is_skipped, find_scan, find_file,
}

-- The entries of a cluster from index `i` on.
unfoldable pub entries : List ℕ → ℕ → ℕ → List Dirent
entries data_bytes zero i = []
entries data_bytes (suc left) i = entry_at data_bytes i ∷ entries data_bytes left (i + 1)

-- The entries in front of the first whose name begins with a zero byte.
unfoldable pub live : List Dirent → List Dirent
live [] = []
live (e ∷ es) = if first_byte e == 0 then [] else e ∷ live es

-- The first entry of the list that is not skipped and has the name.
unfoldable pub first_named : Text → List Dirent → Option Dirent
first_named name [] = none
first_named name (e ∷ es) =
    if is_skipped e
    then first_named name es
    else if strcmp_83_eq (entry_name e) name
    then some e
    else first_named name es

-- Where the loop over a cluster stops, the entries of later clusters do not matter.
find_scan-stop :
    (name : Text) (data_bytes : List ℕ) (left i : ℕ) (r : Option Dirent) (more : List Dirent)
    → find_scan name data_bytes left i ≡ stop r
    → first_named name (live (entries data_bytes left i ++ more)) ≡ r
unfolding find_scan entries live first_named
find_scan-stop name data_bytes zero i r more h = cc
find_scan-stop name data_bytes (suc left) i r more h =
    ground (arith, find_scan-stop name data_bytes left (i + 1) r more)

-- Where it does not, they alone do.
find_scan-exhausted :
    (name : Text) (data_bytes : List ℕ) (left i : ℕ) (more : List Dirent)
    → find_scan name data_bytes left i ≡ exhausted
    → first_named name (live (entries data_bytes left i ++ more)) ≡ first_named name (live more)
unfolding find_scan entries live first_named
find_scan-exhausted name data_bytes zero i more h = refl
find_scan-exhausted name data_bytes (suc left) i more h =
    ground (arith, find_scan-exhausted name data_bytes left (i + 1) more)

first_named-live_nil : (name : Text) → first_named name (live []) ≡ none
unfolding first_named live
first_named-live_nil name = refl

-- All entries of a directory.
unfoldable pub directory : FileSystem → (ℕ → List ℕ) → List ℕ → List Dirent
directory fs stored [] = []
directory fs stored (c ∷ cs) =
    entries (cluster_bytes fs stored c) (entries_per_cluster fs) 0 ++ directory fs stored cs

module _ {D : Type 0} (dev : BlockDevice D) (size : ℕ) (sector : D → ℕ → List ℕ)
    (disk : IsDisk dev size sector) (fs : FileSystem) (stored : ℕ → List ℕ) (name : Text) where
  -- On a drive that works and holds the tables, if the table links the directory's clusters to an
  -- end mark, and all of them fit the drive and the buffer, then
  -- `fat32_find_file` ends with as much fuel as there are clusters, changes nothing on the drive,
  -- and its result is the first entry, over all clusters in order and up to the first whose name
  -- begins with a zero byte, that is neither deleted, nor a label or part of a long name, and has
  -- the name; or nothing, if there is none.
  pub find_file-first_named :
      (fuel c : ℕ) {cs : List ℕ} (s : Kernel D)
      → FatFits fs size
      → Chain (next_of fs stored) c cs
      → length cs ≤ fuel
      → All (Usable fs size) cs
      → Holds sector fs stored s
      → Finds sector s
          (first_named name (live (directory fs stored cs)))
          (find_file dev fuel c name s)
  unfolding find_file directory
  find_file-first_named zero c s fits (end_mark e) room usable h =
      rw (e, first_named-live_nil) (s, refl, SameDisk-refl sector s)
  find_file-first_named (suc fuel) c s fits (end_mark e) room usable h =
      rw (e, first_named-live_nil) (s, refl, SameDisk-refl sector s)
  find_file-first_named zero c s fits (link e rest) room usable h = absurd (omega arith)
  find_file-first_named (suc fuel) c s fits (link {cs} e rest) room (u, us) h =
      let bytes = cluster_bytes fs stored c in
      let got = reads dev size sector disk fs stored c s h u in
      let here = Holds-SameDisk dev size sector disk fs stored h got.2 in
      rw (e, got.1, here.0)
        (elim (Scan-cases (find_scan name bytes (entries_per_cluster fs) 0)) [
          | inl (r, st) ↦ rw st (
            got.0,
            ap (λ x. ok x got.0)
                (sym (
                  find_scan-stop name bytes (entries_per_cluster fs) 0 r (directory fs stored cs)
                    st)),
            got.2,
          )
          | inr ex ↦
              let next = follows dev size sector disk fs stored c got.0 fits here u in
              rw
                (
                  ex,
                  next.1,
                  find_scan-exhausted name bytes (entries_per_cluster fs) 0 (directory fs stored cs)
                      ex,
                )
                (Finds-after dev size sector disk fs stored _ _ (SameDisk-trans sector got.2 next.2)
                  (find_file-first_named fuel (next_of fs stored c) next.0 fits rest (omega arith)
                    us (Holds-SameDisk dev size sector disk fs stored here next.2)))
        ])
