-- ===== src/Bytes/Laws.antt =====
-- Reading a word back after writing one.
use vidga_os.Base.{
  ℕ, zero, suc, ◌+◌, ◌^◌, ◌≤◌, ◌<◌, ◌≡◌, refl, ap, ap₂, ◌++◌, ◌∙◌, ◌⊎◌, inl, List, [], ◌∷◌, arith,
  length, get_or, set, length-set, All, All-get_or, IsByte, get_or-set_self, get_or-set_ne,
}
use vidga_os.Bytes.{get16, get32, bytes16, bytes32, splice, put32, bytes_at}

pub length-splice : (buf bs : List ℕ) (o : ℕ) → length (splice buf o bs) ≡ length buf
unfolding splice
length-splice buf [] o = refl
length-splice buf (b ∷ bs) o = length-splice (set buf o b) bs (o + 1) ∙ length-set buf o b

pub length-put32 : (buf : List ℕ) (o v : ℕ) → length (put32 buf o v) ≡ length buf
unfolding put32
length-put32 buf o v = length-splice buf (bytes32 v) o

-- Outside the bytes written nothing changes.
pub splice_off :
    (buf bs : List ℕ) (o i : ℕ)
    → (i < o) ⊎ (o + length bs ≤ i)
    → get_or (splice buf o bs) i 0 ≡ get_or buf i 0
unfolding splice
splice_off buf [] o i h = refl
splice_off buf (b ∷ bs) o i h =
    splice_off (set buf o b) bs (o + 1) i (ground arith) ∙ get_or-set_ne buf o i b 0 (ground arith)

-- Inside them stands what was written.
pub splice_in :
    (buf bs : List ℕ) (o i j : ℕ)
    → j ≡ o + i
    → i < length bs
    → o + length bs ≤ length buf
    → get_or (splice buf o bs) j 0 ≡ get_or bs i 0
unfolding splice
splice_in buf [] o i j e lt h = absurd (omega arith)
splice_in buf (b ∷ bs) o zero j e lt h =
    splice_off (set buf o b) bs (o + 1) j (inl (omega arith))
    ∙ ap (λ k. get_or (set buf o b) k 0) (omega arith)
    ∙ get_or-set_self buf o b 0 (omega arith)
splice_in buf (b ∷ bs) o (suc i) j e lt h =
    splice_in (set buf o b) bs (o + 1) i j (omega arith) (omega arith)
      (omega (arith, length-set buf o b))

pub get32-put32 :
    (buf : List ℕ) (o v : ℕ) → v < 2 ^ 32 → o + 4 ≤ length buf → get32 (put32 buf o v) o ≡ v
unfolding get32 get16 put32
get32-put32 buf o v small fits = omega (
  arith,
  splice_in buf (bytes32 v) o 0 o (omega arith) (omega arith) fits,
  splice_in buf (bytes32 v) o 1 (o + 1) refl (omega arith) fits,
  splice_in buf (bytes32 v) o 2 (o + 2) refl (omega arith) fits,
  splice_in buf (bytes32 v) o 3 (o + 2 + 1) (omega arith) (omega arith) fits,
)

pub get32-put32_ne :
    (buf : List ℕ) (o o' v : ℕ)
    → (o' + 4 ≤ o) ⊎ (o + 4 ≤ o')
    → get32 (put32 buf o v) o' ≡ get32 buf o'
unfolding get32 get16 put32
get32-put32_ne buf o o' v apart = omega (
  arith,
  splice_off buf (bytes32 v) o o' (ground arith),
  splice_off buf (bytes32 v) o (o' + 1) (ground arith),
  splice_off buf (bytes32 v) o (o' + 2) (ground arith),
  splice_off buf (bytes32 v) o (o' + 2 + 1) (ground arith),
)

-- Bytes that agree with a list on its length are that list.
pub bytes_at_all :
    (buf xs : List ℕ) (o n : ℕ)
    → n ≡ length xs
    → ((k : ℕ) → k < n → get_or buf (o + k) 0 ≡ get_or xs k 0)
    → bytes_at buf o n ≡ xs
unfolding bytes_at
bytes_at_all buf [] o zero e h = refl
bytes_at_all buf (x ∷ xs) o zero e h = absurd (omega arith)
bytes_at_all buf [] o (suc n) e h = absurd (omega arith)
bytes_at_all buf (x ∷ xs) o (suc n) e h =
    ap₂ ◌∷◌ (ap (λ i. get_or buf i 0) (omega arith) ∙ h 0 (omega arith)) (
      bytes_at_all buf xs (o + 1) n (omega arith)
        (λ k lt. ap (λ i. get_or buf i 0) (omega arith) ∙ h (suc k) (omega arith)))

pub length-bytes_at : (buf : List ℕ) (o n : ℕ) → length (bytes_at buf o n) ≡ n
unfolding bytes_at
length-bytes_at buf o zero = refl
length-bytes_at buf o (suc n) = ap suc (length-bytes_at buf (o + 1) n)

pub bytes_at_add :
    (buf : List ℕ) (o m n : ℕ) → bytes_at buf o (m + n) ≡ bytes_at buf o m ++ bytes_at buf (o + m) n
unfolding bytes_at
bytes_at_add buf o zero n = ap₂ (λ x k. bytes_at buf x k) (omega arith) (omega arith)
bytes_at_add buf o (suc m) n =
    let step : suc m + n ≡ suc (m + n) = omega arith in
    rw step (
      ap (λ l. get_or buf o 0 ∷ l)
        (bytes_at_add buf (o + 1) m n
          ∙ ap (λ x. bytes_at buf (o + 1) m ++ bytes_at buf x n) (omega arith)))

-- Bytes stay bytes.
pub All-set : (xs : List ℕ) (i v : ℕ) → All IsByte xs → IsByte v → All IsByte (set xs i v)
All-set [] i v h hv = tt
All-set (x ∷ xs) zero v h hv = (hv, h.1)
All-set (x ∷ xs) (suc i) v h hv = (h.0, All-set xs i v h.1 hv)

pub All-splice :
    (buf bs : List ℕ) (o : ℕ) → All IsByte buf → All IsByte bs → All IsByte (splice buf o bs)
unfolding splice
All-splice buf [] o h hb = h
All-splice buf (b ∷ bs) o h hb = All-splice (set buf o b) bs (o + 1) (All-set buf o b h hb.0) hb.1

pub All-bytes16 : (v : ℕ) → All IsByte (bytes16 v)
All-bytes16 v = (omega arith, (omega arith, tt))

pub All-bytes32 : (v : ℕ) → All IsByte (bytes32 v)
All-bytes32 v = (omega arith, (omega arith, (omega arith, (omega arith, tt))))

pub All-put32 : (buf : List ℕ) (o v : ℕ) → All IsByte buf → All IsByte (put32 buf o v)
unfolding put32
All-put32 buf o v h = All-splice buf (bytes32 v) o h (All-bytes32 v)

pub All-bytes_at : (buf : List ℕ) (o n : ℕ) → All IsByte buf → All IsByte (bytes_at buf o n)
unfolding bytes_at
All-bytes_at buf o zero h = tt
All-bytes_at buf o (suc n) h =
    (All-get_or IsByte buf o 0 h (omega arith), All-bytes_at buf (o + 1) n h)
