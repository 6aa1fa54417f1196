-- ===== src/Fat32/Directory/Named.antt =====
-- What the loop of `fat32_delete` over the entries of a cluster finds.
use vidga_os.Base.{
  ℕ, zero, suc, ◌+◌, ◌≤◌, ◌<◌, ◌≡◌, refl, inl, inr, Bool, true, false, Option, none, some, List,
  arith, ◌==◌, Bool-cases, if◌then◌else◌, Text,
}
use native.Mathlib.Decide.{ℕ_discrete}
use vidga_os.Fat32.Dirent.{Dirent, first_byte, entry_name, strcmp_83_eq}
use vidga_os.Fat32.Directory.{Scan, stop, exhausted, entry_at, delete_scan}

-- The first byte of a name that ends the directory.
abbrev pub is_end : Dirent → Bool
is_end e = first_byte e == 0

-- An entry that is not deleted yet and has the name.
abbrev pub is_named : Text → Dirent → Bool
is_named name e = if first_byte e == 0xE5 then false else strcmp_83_eq (entry_name e) name

-- Slots from `lo` to `hi` that neither end the directory nor have the name.
abbrev pub Passed : Text → List ℕ → ℕ → ℕ → Type 0
Passed name bytes lo hi =
    (k : ℕ)
    → lo ≤ k
    → k < hi
    → (is_end (entry_at bytes k) ≡ false) × (is_named name (entry_at bytes k) ≡ false)

-- Slot `i` is the first that has the name.
abbrev pub FirstNamed : Text → List ℕ → ℕ → ℕ → ℕ → Type 0
FirstNamed name bytes lo hi i =
    (lo ≤ i)
    × (i < hi)
    × (is_end (entry_at bytes i) ≡ false)
    × (is_named name (entry_at bytes i) ≡ true)
    × Passed name bytes lo i

-- The directory ends at a slot before any that has the name.
abbrev pub EndsBefore : Text → List ℕ → ℕ → ℕ → Type 0
EndsBefore name bytes lo hi =
    (i : ℕ) × (lo ≤ i) × (i < hi) × (is_end (entry_at bytes i) ≡ true) × Passed name bytes lo i

Passed-cons :
    (name : Text) (bytes : List ℕ) (lo hi : ℕ)
    → is_end (entry_at bytes lo) ≡ false
    → is_named name (entry_at bytes lo) ≡ false
    → Passed name bytes (lo + 1) hi
    → Passed name bytes lo hi
Passed-cons name bytes lo hi here other rest k le lt = elim (ℕ_discrete k lo) [
  | yes e ↦ rw e (here, other)
  | no ne ↦ rest k (omega arith) lt
]

-- What the loop over a cluster finds out.
abbrev pub Scanned : Text → List ℕ → ℕ → ℕ → Scan (Option ℕ) → Type 0
Scanned name bytes lo hi (stop none) = EndsBefore name bytes lo hi
Scanned name bytes lo hi (stop (some i)) = FirstNamed name bytes lo hi i
Scanned name bytes lo hi exhausted = Passed name bytes lo hi

Scanned-cons :
    (name : Text) (bytes : List ℕ) (lo hi : ℕ) (r : Scan (Option ℕ))
    → is_end (entry_at bytes lo) ≡ false
    → is_named name (entry_at bytes lo) ≡ false
    → Scanned name bytes (lo + 1) hi r
    → Scanned name bytes lo hi r
Scanned-cons name bytes lo hi (stop none) here other (i, le, lt, at, before) =
    (i, omega arith, lt, at, Passed-cons name bytes lo i here other before)
Scanned-cons name bytes lo hi (stop (some i)) here other (le, lt, live, at, before) =
    (omega arith, lt, live, at, Passed-cons name bytes lo i here other before)
Scanned-cons name bytes lo hi exhausted here other rest =
    Passed-cons name bytes lo hi here other rest

pub delete_scan-Scanned :
    (name : Text) (bytes : List ℕ) (left lo hi : ℕ)
    → lo + left ≡ hi
    → Scanned name bytes lo hi (delete_scan name bytes left lo)
unfolding delete_scan
delete_scan-Scanned name bytes zero lo hi e = λ k le lt. absurd (omega arith)
delete_scan-Scanned name bytes (suc left) lo hi e =
    let rest = delete_scan-Scanned name bytes left (lo + 1) hi (omega arith) in
    elim (Bool-cases (first_byte (entry_at bytes lo) == 0)) [
      | inl ends ↦ rw ends (lo, omega arith, omega arith, ends, λ k le lt. absurd (omega arith))
      | inr live ↦ elim (Bool-cases (first_byte (entry_at bytes lo) == 0xE5)) [
        | inl deleted ↦
            rw (live, deleted) (Scanned-cons name bytes lo hi _ live (rw deleted refl) rest)
        | inr kept ↦ elim (Bool-cases (strcmp_83_eq (entry_name (entry_at bytes lo)) name)) [
          | inl same ↦
              rw (live, kept, same)
                (
                  omega arith,
                  omega arith,
                  live,
                  rw (kept, same) refl,
                  λ k le lt. absurd (omega arith),
                )
          | inr other ↦
              rw (live, kept, other)
                (Scanned-cons name bytes lo hi _ live (rw (kept, other) refl) rest)
        ]
      ]
    ]
