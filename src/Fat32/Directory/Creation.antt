-- ===== src/Fat32/Directory/Creation.antt =====
-- `create_dirent`: where it puts the new entry.
use vidga_os.Base.{
  ℕ, zero, suc, ◌+◌, ◌≤◌, ◌<◌, ◌≡◌, refl, ap, ◌⊎◌, inl, inr, Bool, true, false, ◌||◌, List, [], ◌∷◌,
  ◌++◌, arith, ◌==◌, Bool-cases, length, All, IsByte, Text,
}
use native.Mathlib.Decide.{ℕ_discrete}
use vidga_os.Kernel.{BlockDevice, FileSystem, Kernel, Run}
use mathlib.Core.Path.{subst}
use vidga_os.Fat32.Disk.{IsDisk, FatFits, SameDisk, SameDisk-refl, SameDisk-trans}
use vidga_os.Fat32.Dirent.{Dirent, first_byte, new_entry}
use vidga_os.Fat32.Dirent.Layout.{IsEntry}
use vidga_os.Fat32.Dirent.Widths.{new_entry-IsEntry}
use vidga_os.Fat32.Table.Alloc.{next_of}
use vidga_os.Fat32.Cluster.Reads.{cluster_bytes}
use vidga_os.Fat32.Cluster.Writes.{WritesEntry, put_entry-WritesEntry}
use vidga_os.Fat32.Directory.{
  Scan, stop, exhausted, entry_at, entries_per_cluster, free_scan, fill_entry, create_dirent,
}
use vidga_os.Fat32.Directory.Chains.{
  Chain, end_mark, link, Scan-cases, Usable, Holds, Finds, Holds-SameDisk, reads, follows,
  Finds-after,
}

-- A slot that `create_dirent` takes: never used, or deleted.
abbrev pub is_free : Dirent → Bool
is_free e = first_byte e == 0 || first_byte e == 0xE5

-- The slots of a buffer from `lo` to `hi` are in use.
abbrev pub Used : List ℕ → ℕ → ℕ → Type 0
Used bytes lo hi = (k : ℕ) → lo ≤ k → k < hi → is_free (entry_at bytes k) ≡ false

-- Slot `i` is free, and those from `lo` on in front of it are in use.
abbrev pub FirstFree : List ℕ → ℕ → ℕ → ℕ → Type 0
FirstFree bytes lo hi i =
    (lo ≤ i) × (i < hi) × (is_free (entry_at bytes i) ≡ true) × Used bytes lo i

Used-cons :
    (bytes : List ℕ) (lo hi : ℕ)
    → is_free (entry_at bytes lo) ≡ false
    → Used bytes (lo + 1) hi
    → Used bytes lo hi
Used-cons bytes lo hi here rest k le lt = elim (ℕ_discrete k lo) [
  | yes e ↦ rw e here
  | no ne ↦ rest k (omega arith) lt
]

-- What the loop over a cluster finds out.
abbrev Scanned : List ℕ → ℕ → ℕ → Scan ℕ → Type 0
Scanned bytes lo hi (stop i) = FirstFree bytes lo hi i
Scanned bytes lo hi exhausted = Used bytes lo hi

Scanned-cons :
    (bytes : List ℕ) (lo hi : ℕ) (r : Scan ℕ)
    → is_free (entry_at bytes lo) ≡ false
    → Scanned bytes (lo + 1) hi r
    → Scanned bytes lo hi r
Scanned-cons bytes lo hi (stop i) used (le, lt, free, before) =
    (omega arith, lt, free, Used-cons bytes lo i used before)
Scanned-cons bytes lo hi exhausted used rest = Used-cons bytes lo hi used rest

free_scan-Scanned :
    (bytes : List ℕ) (left lo hi : ℕ)
    → lo + left ≡ hi
    → Scanned bytes lo hi (free_scan bytes left lo)
unfolding free_scan
free_scan-Scanned bytes zero lo hi e = λ k le lt. absurd (omega arith)
free_scan-Scanned bytes (suc left) lo hi e = elim (Bool-cases (is_free (entry_at bytes lo))) [
  | inl free ↦ rw free (omega arith, omega arith, free, λ k le lt. absurd (omega arith))
  | inr used ↦ rw used (
      Scanned-cons bytes lo hi (free_scan bytes left (lo + 1)) used
        (free_scan-Scanned bytes left (lo + 1) hi (omega arith)))
]

module _ {D : Type 0} (dev : BlockDevice D) (size : ℕ) (sector : D → ℕ → List ℕ)
    (disk : IsDisk dev size sector) (fs : FileSystem) (stored : ℕ → List ℕ) where
  -- Every slot of the cluster is in use.
  abbrev pub IsFull : ℕ → Type 0
  IsFull c = Used (cluster_bytes fs stored c) 0 (entries_per_cluster fs)

  -- The run fails and leaves the drive alone, as all slots are in use; or it succeeds, and the first
  -- free slot of the clusters then holds the entry, all else on the drive being as it was.
  abbrev pub Creates : Kernel D → List ℕ → Dirent → Run D Bool → Type 0
  Creates s cs e run =
      (All IsFull cs × Finds sector s false run)
      ⊎ ((before after : List ℕ) × (c i : ℕ) × (cs ≡ before ++ c ∷ after)
          × All IsFull before
          × FirstFree (cluster_bytes fs stored c) 0 (entries_per_cluster fs) i
          × WritesEntry dev size sector disk fs stored c i e run)

  fill_entry-WritesEntry :
      (c i : ℕ) (e : Dirent) (s : Kernel D)
      → Holds sector fs stored s
      → Usable fs size c
      → IsEntry e
      → i < entries_per_cluster fs
      → WritesEntry dev size sector disk fs stored c i e
          (fill_entry dev c (cluster_bytes fs stored c) i e s)
  unfolding fill_entry
  fill_entry-WritesEntry c i e s h u v lt =
      let done =
        put_entry-WritesEntry dev size sector disk fs stored c i e s h.0 h.1 v u.1 (omega arith) in
      rw done.1 (done.0, refl, done.2, done.3, done.4)

  -- A full cluster in front.
  Creates-cons :
      (c : ℕ) (cs : List ℕ) (e : Dirent) {s t : Kernel D} (run : Run D Bool)
      → IsFull c
      → SameDisk sector s t
      → Creates t cs e run
      → Creates s (c ∷ cs) e run
  Creates-cons c cs e run full same (inl (fulls, finds)) =
      inl ((full, fulls), Finds-after dev size sector disk fs stored false run same finds)
  Creates-cons c cs e run full same (inr (before, after, d, i, eq, fulls, first, writes)) =
      inr (c ∷ before, after, d, i, ap (λ l. c ∷ l) eq, (full, fulls), first, writes)

  -- On a drive that works and holds the tables, if the table links the directory's clusters to an
  -- end mark, and all of them fit the drive and the buffer, then `create_dirent` ends with as much
  -- fuel as there are clusters, for a name and attributes of bytes. If all slots are in use it fails and leaves the
  -- drive as it was. Otherwise it succeeds, the first slot, in the order of the chain, that was
  -- never used or is deleted holds the new entry, and the other slots of that cluster and all other
  -- sectors hold what they held.
  pub create_dirent-Creates :
      (fuel c : ℕ) {cs : List ℕ} (name : Text) (attr start : ℕ) (s : Kernel D)
      → FatFits fs size
      → Chain (next_of fs stored) c cs
      → length cs ≤ fuel
      → All (Usable fs size) cs
      → Holds sector fs stored s
      → All IsByte name
      → IsByte attr
      → Creates s cs (new_entry name attr start) (create_dirent dev fuel c name attr start s)
  unfolding create_dirent
  create_dirent-Creates zero c name attr start s fits (end_mark e) room usable h hn ha =
      rw e (inl (tt, (s, refl, SameDisk-refl sector s)))
  create_dirent-Creates (suc fuel) c name attr start s fits (end_mark e) room usable h hn ha =
      rw e (inl (tt, (s, refl, SameDisk-refl sector s)))
  create_dirent-Creates zero c name attr start s fits (link e rest) room usable h hn ha =
      absurd (omega arith)
  create_dirent-Creates (suc fuel) c name attr start s fits (link {cs} e rest) room (u, us) h hn
        ha =
      let bytes = cluster_bytes fs stored c in
      let n = entries_per_cluster fs in
      let got = reads dev size sector disk fs stored c s h u in
      let here = Holds-SameDisk dev size sector disk fs stored h got.2 in
      let scanned = free_scan-Scanned bytes n 0 n (omega arith) in
      rw (e, got.1, here.0)
        (elim (Scan-cases (free_scan bytes n 0)) [
          | inl (i, st) ↦
              let first : FirstFree bytes 0 n i = subst (Scanned bytes 0 n) st scanned in
              rw st (
                inr (
                  [],
                  cs,
                  c,
                  i,
                  refl,
                  tt,
                  first,
                  fill_entry-WritesEntry c i (new_entry name attr start) got.0 here u
                      (new_entry-IsEntry name attr start hn ha) first.1,
                ))
          | inr ex ↦
              let full : IsFull c = subst (Scanned bytes 0 n) ex scanned in
              let next = follows dev size sector disk fs stored c got.0 fits here u in
              rw (ex, next.1)
                (Creates-cons c cs (new_entry name attr start) _ full
                  (SameDisk-trans sector got.2 next.2)
                  (create_dirent-Creates fuel (next_of fs stored c) name attr start next.0 fits rest
                    (omega arith) us (Holds-SameDisk dev size sector disk fs stored here next.2) hn
                    ha))
        ])
