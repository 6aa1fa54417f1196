-- ===== src/Fat32/Dirent/Fields.antt =====
-- The fields of a directory entry depend on its 32 bytes alone.
use vidga_os.Base.{ℕ, zero, suc, ◌+◌, ◌*◌, ◌≤◌, ◌<◌, ◌≡◌, refl, ap₂, List, ◌∷◌, arith, get_or}
use vidga_os.Bytes.{get16, get32, bytes_at}
use vidga_os.Fat32.Dirent.{decode}

-- The 32 bytes from `o` on in one buffer are those from `p` on in another.
abbrev pub SameBytes : List ℕ → ℕ → List ℕ → ℕ → Type 0
SameBytes a o b p = (i j k : ℕ) → i ≡ o + k → j ≡ p + k → k < 32 → get_or a i 0 ≡ get_or b j 0

pub bytes_at_ext :
    (a b : List ℕ) (o p n i j k : ℕ)
    → SameBytes a o b p
    → i ≡ o + k
    → j ≡ p + k
    → k + n ≤ 32
    → bytes_at a i n ≡ bytes_at b j n
unfolding bytes_at
bytes_at_ext a b o p zero i j k same e f h = refl
bytes_at_ext a b o p (suc n) i j k same e f h =
    ap₂ ◌∷◌ (same i j k e f (omega arith)) (
      bytes_at_ext a b o p n (i + 1) (j + 1) (k + 1) same (omega arith) (omega arith) (omega arith))

pub get16_ext :
    (a b : List ℕ) (o p i j k : ℕ)
    → SameBytes a o b p
    → i ≡ o + k
    → j ≡ p + k
    → k + 1 < 32
    → get16 a i ≡ get16 b j
unfolding get16
get16_ext a b o p i j k same e f h =
    ap₂ (λ x y. x + 256 * y) (same i j k e f (omega arith))
      (same (i + 1) (j + 1) (k + 1) (omega arith) (omega arith) h)

pub get32_ext :
    (a b : List ℕ) (o p i j k : ℕ)
    → SameBytes a o b p
    → i ≡ o + k
    → j ≡ p + k
    → k + 3 < 32
    → get32 a i ≡ get32 b j
unfolding get32
get32_ext a b o p i j k same e f h =
    ap₂ (λ x y. x + 65536 * y) (get16_ext a b o p i j k same e f (omega arith))
      (get16_ext a b o p (i + 2) (j + 2) (k + 2) same (omega arith) (omega arith) (omega arith))

pub decode_ext : (a b : List ℕ) (o p : ℕ) → SameBytes a o b p → decode a o ≡ decode b p
unfolding decode
decode_ext a b o p same =
    rw
      (
        bytes_at_ext a b o p 8 o p 0 same (omega arith) (omega arith) (omega arith),
        bytes_at_ext a b o p 3 (o + 8) (p + 8) 8 same refl refl (omega arith),
        same (o + 11) (p + 11) 11 refl refl (omega arith),
        same (o + 12) (p + 12) 12 refl refl (omega arith),
        same (o + 13) (p + 13) 13 refl refl (omega arith),
        word 14 (omega arith),
        word 16 (omega arith),
        word 18 (omega arith),
        word 20 (omega arith),
        word 22 (omega arith),
        word 24 (omega arith),
        word 26 (omega arith),
        get32_ext a b o p (o + 28) (p + 28) 28 same refl refl (omega arith),
      )
      refl
  where
    word : (k : ℕ) → k + 1 < 32 → get16 a (o + k) ≡ get16 b (p + k)
    word k h = get16_ext a b o p (o + k) (p + k) k same refl refl h
