-- ===== src/Bytes.antt =====
-- Little-endian words in buffers of bytes, as the casts of src/kernel/fat32.c read and write them.
pub mod Laws
use vidga_os.Base.{ℕ, zero, suc, ◌+◌, ◌*◌, ◌/◌, ◌%◌, List, [], ◌∷◌, get_or, set}

unfoldable pub get16 : List ℕ → ℕ → ℕ
get16 buf o = get_or buf o 0 + 256 * get_or buf (o + 1) 0

-- `*(uint32_t *)(buf + o)`
unfoldable pub get32 : List ℕ → ℕ → ℕ
get32 buf o = get16 buf o + 65536 * get16 buf (o + 2)

abbrev pub bytes16 : ℕ → List ℕ
bytes16 v = (v % 256) ∷ (v / 256 % 256) ∷ []

abbrev pub bytes32 : ℕ → List ℕ
bytes32 v = (v % 256) ∷ (v / 256 % 256) ∷ (v / 65536 % 256) ∷ (v / 16777216 % 256) ∷ []

-- The bytes of a buffer with others written over them from offset `o` on.
unfoldable pub splice : List ℕ → ℕ → List ℕ → List ℕ
splice buf o [] = buf
splice buf o (b ∷ bs) = splice (set buf o b) (o + 1) bs

-- `*(uint32_t *)(buf + o) = v`
unfoldable pub put32 : List ℕ → ℕ → ℕ → List ℕ
put32 buf o v = splice buf o (bytes32 v)

-- The `n` bytes of `buf` from offset `o` on.
unfoldable pub bytes_at : List ℕ → ℕ → ℕ → List ℕ
bytes_at buf o zero = []
bytes_at buf o (suc n) = get_or buf o 0 ∷ bytes_at buf (o + 1) n
