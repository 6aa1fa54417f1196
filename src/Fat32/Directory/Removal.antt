-- ===== src/Fat32/Directory/Removal.antt =====
-- `fat32_delete`: which entry it marks.
use vidga_os.Base.{
  ℕ, zero, suc, ◌*◌, ◌≤◌, ◌<◌, ◌≡◌, refl, ap, ◌∙◌, ◌⊎◌, inl, inr, Bool, true, false, none, some,
  List, [], ◌∷◌, ◌++◌, arith, ◌==◌, if◌then◌else◌, length, set, length-set, All, Text,
}
use mathlib.Core.Path.{subst, subst₂}
use vidga_os.Bytes.Laws.{All-set}
use vidga_os.Kernel.{BlockDevice, FileSystem, Kernel, Run, ok}
use vidga_os.Fat32.Disk.{IsDisk, FatFits, SameDisk, SameDisk-refl, SameDisk-trans}
use vidga_os.Fat32.Dirent.{decode}
use vidga_os.Fat32.Dirent.Marks.{with_first, decode-set}
use vidga_os.Fat32.Table.Alloc.{next_of}
use vidga_os.Fat32.Cluster.{cluster_sector}
use vidga_os.Fat32.Cluster.Reads.{cluster_bytes, ClusterFits}
use vidga_os.Fat32.Cluster.Writes.{
  Outside, write_cluster-Writes, length-stored_bytes, All-stored_bytes,
}
use vidga_os.Fat32.Directory.{entry_at, entries_per_cluster, delete_scan, mark_deleted, delete}
use vidga_os.Fat32.Directory.Chains.{
  Chain, end_mark, link, Scan-cases, Usable, Holds, Finds, Holds-SameDisk, reads, follows,
  Finds-after,
}
use vidga_os.Fat32.Directory.Named.{Passed, FirstNamed, EndsBefore, Scanned, delete_scan-Scanned}

module _ {D : Type 0} (dev : BlockDevice D) (size : ℕ) (sector : D → ℕ → List ℕ)
    (disk : IsDisk dev size sector) where
  -- The run succeeds, slot `i` of the cluster then has 0xE5 for the first byte of its name, and all
  -- else on the drive is as it was.
  abbrev pub Marks : FileSystem → (ℕ → List ℕ) → ℕ → ℕ → Run D Bool → Type 0
  Marks fs stored c i run =
      (t : Kernel D) × (run ≡ ok true t)
      × (t.fs ≡ fs)
      × ((j : ℕ)
          → entry_at (cluster_bytes fs (sector t.drive) c) j ≡ (
              if j == i
              then with_first 0xE5 (entry_at (cluster_bytes fs stored c) j)
              else entry_at (cluster_bytes fs stored c) j))
      × ((n : ℕ) → Outside dev size sector disk fs c n → sector t.drive n ≡ stored n)

  mark_here :
      (c i : ℕ) (s : Kernel D)
      → ClusterFits s.fs size c
      → i < entries_per_cluster s.fs
      → Marks s.fs
          (sector s.drive)
          c
          i
          (mark_deleted dev c (cluster_bytes s.fs (sector s.drive) c) (some i) s)
  unfolding mark_deleted
  mark_here c i s fits lt =
      let old = cluster_bytes s.fs (sector s.drive) c in
      let old_length : length old ≡ s.fs.sectors_per_cluster * 512 =
        length-stored_bytes (sector s.drive) s.fs.sectors_per_cluster 0 (cluster_sector s.fs c)
          (disk.length_sector s.drive) in
      let done =
        write_cluster-Writes dev size sector disk c (set old (i * 32) 0xE5) s fits
          (length-set old (i * 32) 0xE5 ∙ old_length)
          (All-set old (i * 32) 0xE5
            (All-stored_bytes (sector s.drive) s.fs.sectors_per_cluster 0 (cluster_sector s.fs c)
              (disk.bytes_sector s.drive))
            (omega arith)) in
      (
        done.0,
        done.1,
        done.2,
        (λ j.
            ap (λ x. decode x (j * 32)) done.3
            ∙ decode-set old i j 0xE5 (omega (arith, old_length))),
        done.4,
      )

module _ {D : Type 0} (dev : BlockDevice D) (size : ℕ) (sector : D → ℕ → List ℕ)
    (disk : IsDisk dev size sector) (fs : FileSystem) (stored : ℕ → List ℕ) where
  mark_deleted-Marks :
      (c i : ℕ) (s : Kernel D)
      → Holds sector fs stored s
      → ClusterFits fs size c
      → i < entries_per_cluster fs
      → Marks dev size sector disk fs stored c i
          (mark_deleted dev c (cluster_bytes fs stored c) (some i) s)
  mark_deleted-Marks c i s h =
      subst₂
        (λ f m.
          ClusterFits f size c
          → i < entries_per_cluster f
          → Marks dev size sector disk f m c i
              (mark_deleted dev c (cluster_bytes f m c) (some i) s))
        h.0 h.1 (mark_here dev size sector disk c i s)

  -- No slot of the cluster ends the directory or has the name.
  abbrev pub Lacks : Text → ℕ → Type 0
  Lacks name c = Passed name (cluster_bytes fs stored c) 0 (entries_per_cluster fs)

  -- The clusters before the directory's end do not have the name.
  abbrev pub Missing : Text → List ℕ → Type 0
  Missing name cs =
      All (Lacks name) cs
      ⊎ ((before after : List ℕ) × (c : ℕ) × (cs ≡ before ++ c ∷ after)
          × All (Lacks name) before
          × EndsBefore name (cluster_bytes fs stored c) 0 (entries_per_cluster fs))

  -- The run fails and leaves the drive alone, as no slot has the name; or it succeeds, and marks
  -- the first slot that has it.
  abbrev pub Deletes : Kernel D → List ℕ → Text → Run D Bool → Type 0
  Deletes s cs name run =
      (Missing name cs × Finds sector s false run)
      ⊎ ((before after : List ℕ) × (c i : ℕ) × (cs ≡ before ++ c ∷ after)
          × All (Lacks name) before
          × FirstNamed name (cluster_bytes fs stored c) 0 (entries_per_cluster fs) i
          × Marks dev size sector disk fs stored c i run)

  Missing-cons :
      (c : ℕ) (cs : List ℕ) (name : Text) → Lacks name c → Missing name cs → Missing name (c ∷ cs)
  Missing-cons c cs name here (inl all) = inl (here, all)
  Missing-cons c cs name here (inr (before, after, d, eq, all, ends)) =
      inr (c ∷ before, after, d, ap (λ l. c ∷ l) eq, (here, all), ends)

  -- A cluster in front without the name.
  Deletes-cons :
      (c : ℕ) (cs : List ℕ) (name : Text) {s t : Kernel D} (run : Run D Bool)
      → Lacks name c
      → SameDisk sector s t
      → Deletes t cs name run
      → Deletes s (c ∷ cs) name run
  Deletes-cons c cs name run here same (inl (missing, finds)) = inl (
    Missing-cons c cs name here missing,
    Finds-after dev size sector disk fs stored false run same finds,
  )
  Deletes-cons c cs name run here same (inr (before, after, d, i, eq, all, first, marks)) =
      inr (c ∷ before, after, d, i, ap (λ l. c ∷ l) eq, (here, all), first, marks)

  -- On a drive that works and holds the tables, if the table links the directory's clusters to an
  -- end mark, and all of them fit the drive and the buffer, then `fat32_delete` ends with as much
  -- fuel as there are clusters. If no slot before the end of the directory has the name and is not
  -- deleted, it fails and leaves the drive as it was. Otherwise it succeeds, and changes nothing
  -- but the first byte of the first such slot, which becomes 0xE5.
  pub delete-Deletes :
      (fuel c : ℕ) {cs : List ℕ} (name : Text) (s : Kernel D)
      → FatFits fs size
      → Chain (next_of fs stored) c cs
      → length cs ≤ fuel
      → All (Usable fs size) cs
      → Holds sector fs stored s
      → Deletes s cs name (delete dev fuel c name s)
  unfolding delete
  delete-Deletes zero c name s fits (end_mark e) room usable h =
      rw e (inl (inl tt, (s, refl, SameDisk-refl sector s)))
  delete-Deletes (suc fuel) c name s fits (end_mark e) room usable h =
      rw e (inl (inl tt, (s, refl, SameDisk-refl sector s)))
  delete-Deletes zero c name s fits (link e rest) room usable h = absurd (omega arith)
  delete-Deletes (suc fuel) c name s fits (link {cs} e rest) room (u, us) h =
      let bytes = cluster_bytes fs stored c in
      let n = entries_per_cluster fs in
      let got = reads dev size sector disk fs stored c s h u in
      let here = Holds-SameDisk dev size sector disk fs stored h got.2 in
      let scanned = delete_scan-Scanned name bytes n 0 n (omega arith) in
      rw (e, got.1, here.0)
        (elim (Scan-cases (delete_scan name bytes n 0)) [
          | inl (none, st) ↦
              let ends : EndsBefore name bytes 0 n = subst (Scanned name bytes 0 n) st scanned in
              rw st
                (inl (inr ([], cs, c, refl, tt, ends), (got.0, unfold mark_deleted in refl, got.2)))
          | inl (some i, st) ↦
              let first : FirstNamed name bytes 0 n i = subst (Scanned name bytes 0 n) st scanned in
              rw st
                (inr ([], cs, c, i, refl, tt, first, mark_deleted-Marks c i got.0 here u.1 first.1))
          | inr ex ↦
              let lacks : Lacks name c = subst (Scanned name bytes 0 n) ex scanned in
              let next = follows dev size sector disk fs stored c got.0 fits here u in
              rw (ex, next.1)
                (Deletes-cons c cs name _ lacks (SameDisk-trans sector got.2 next.2) (
                  delete-Deletes fuel (next_of fs stored c) name next.0 fits rest (omega arith) us
                    (Holds-SameDisk dev size sector disk fs stored here next.2)))
        ])
