-- ===== src/Fat32/Dirent/Marks.antt =====
-- The mark of a deleted entry: a byte over the first of its name.
use vidga_os.Base.{
  ℕ, ◌⊎◌, inl, ◌+◌, ◌*◌, ◌≤◌, ◌<◌, ◌≡◌, refl, ap, ◌∙◌, List, arith, ◌==◌, if◌then◌else◌, length,
  get_or, set, get_or-set_ne, get_or-set_self,
}
use native.Mathlib.Decide.{ℕ_discrete}
use vidga_os.Bytes.{get16, bytes_at}
use vidga_os.Fat32.Dirent.{Dirent, decode}
use vidga_os.Fat32.Dirent.Fields.{SameBytes, bytes_at_ext, get16_ext, get32_ext, decode_ext}

-- What a mark in the first byte of a slot makes of the slot's entry.
abbrev pub with_first : ℕ → Dirent → Dirent
with_first v e = record e { filename = set e.filename 0 v }

SameBytes-set :
    (buf : List ℕ) (o v p : ℕ) → (o < p) ⊎ (p + 32 ≤ o) → SameBytes (set buf o v) p buf p
SameBytes-set buf o v p apart i j k e f h =
    get_or-set_ne buf o i v 0 (ground arith) ∙ ap (λ x. get_or buf x 0) (omega arith)

decode-set_here :
    (buf : List ℕ) (o v : ℕ) → o < length buf → decode (set buf o v) o ≡ with_first v (decode buf o)
unfolding decode bytes_at
decode-set_here buf o v h =
    rw
      (
        get_or-set_self buf o v 0 h,
        bytes_at_ext new buf (o + 1) (o + 1) 7 (o + 1) (o + 1) 0 same (omega arith) (omega arith)
            (omega arith),
        bytes_at_ext new buf (o + 1) (o + 1) 3 (o + 8) (o + 8) 7 same (omega arith) (omega arith)
            (omega arith),
        same (o + 11) (o + 11) 10 (omega arith) (omega arith) (omega arith),
        same (o + 12) (o + 12) 11 (omega arith) (omega arith) (omega arith),
        same (o + 13) (o + 13) 12 (omega arith) (omega arith) (omega arith),
        word 13 (o + 14) (omega arith) (omega arith),
        word 15 (o + 16) (omega arith) (omega arith),
        word 17 (o + 18) (omega arith) (omega arith),
        word 19 (o + 20) (omega arith) (omega arith),
        word 21 (o + 22) (omega arith) (omega arith),
        word 23 (o + 24) (omega arith) (omega arith),
        word 25 (o + 26) (omega arith) (omega arith),
        get32_ext new buf (o + 1) (o + 1) (o + 28) (o + 28) 27 same (omega arith) (omega arith)
            (omega arith),
      )
      refl
  where
    new : List ℕ
    new = set buf o v

    same : SameBytes new (o + 1) buf (o + 1)
    same = SameBytes-set buf o v (o + 1) (inl (omega arith))

    word : (k i : ℕ) → k + 1 < 32 → i ≡ o + 1 + k → get16 new i ≡ get16 buf i
    word k i h e = get16_ext new buf (o + 1) (o + 1) i i k same e e h

-- A byte written over the first of slot `i` changes the first byte of that slot's name alone.
pub decode-set :
    (buf : List ℕ) (i j v : ℕ)
    → i * 32 < length buf
    → decode (set buf (i * 32) v) (j * 32)
      ≡ (if j == i then with_first v (decode buf (j * 32)) else decode buf (j * 32))
decode-set buf i j v h = elim (ℕ_discrete j i) [
  | yes e ↦ rw e (decode-set_here buf (i * 32) v h ∙ ground arith)
  | no ne ↦
      decode_ext (set buf (i * 32) v) buf (j * 32) (j * 32)
        (SameBytes-set buf (i * 32) v (j * 32) (ground arith))
      ∙ ground arith
]
