-- ===== src/Fat32/Dirent/Layout.antt =====
-- The bytes of a directory entry in a buffer: what is written to one slot is read back from it,
-- and the other slots stay as they were.
use vidga_os.Base.{
  ℕ, inl, inr, ◌+◌, ◌*◌, ◌/◌, ◌%◌, ◌^◌, ◌≤◌, ◌<◌, ◌≡◌, refl, ap, ◌∙◌, List, ◌∷◌, ◌++◌, arith, ◌==◌,
  if◌then◌else◌, length, get_or, All, IsByte, length-append, get_or-append, get_or-append_front,
  Bool-cases, ==_iff,
}
use vidga_os.Bytes.{get16, get32, bytes16, bytes32, splice, bytes_at}
use vidga_os.Bytes.Laws.{splice_off, splice_in, bytes_at_all}
use vidga_os.Fat32.Dirent.{Dirent, decode, encode}
use vidga_os.Fat32.Dirent.Fields.{decode_ext}

-- The fields have the widths of `fat32_dirent_t`.
pub record IsEntry (e : Dirent) : Type 0 where
  pub name_width : length e.filename ≡ 8
  pub extension_width : length e.extension ≡ 3
  pub creation_width : (e.creation_time < 2 ^ 16) × (e.creation_date < 2 ^ 16)
  pub access_width : e.access_date < 2 ^ 16
  pub write_width : (e.write_time < 2 ^ 16) × (e.write_date < 2 ^ 16)
  pub cluster_width : (e.high_cluster < 2 ^ 16) × (e.low_cluster < 2 ^ 16)
  pub size_width : e.file_size < 2 ^ 32
  pub name_bytes : All IsByte e.filename
  pub extension_bytes : All IsByte e.extension
  pub byte_fields : IsByte e.attributes × IsByte e.reserved × IsByte e.creation_time_tenths

-- The fields behind the name.
abbrev tail : Dirent → List ℕ
tail e =
    e.attributes
    ∷ e.reserved
    ∷ e.creation_time_tenths
    ∷ (bytes16 e.creation_time
        ++ (bytes16 e.creation_date
            ++ (bytes16 e.access_date
                ++ (bytes16 e.high_cluster
                    ++ (bytes16 e.write_time
                        ++ (bytes16 e.write_date
                            ++ (bytes16 e.low_cluster ++ bytes32 e.file_size)))))))

length-encode : (e : Dirent) → IsEntry e → length (encode e) ≡ 32
unfolding encode
length-encode e v = omega (
  arith,
  length-append e.filename (e.extension ++ tail e),
  length-append e.extension (tail e),
  v.name_width,
  v.extension_width,
)

module _ (e : Dirent) (v : IsEntry e) where
  in_tail : (i k : ℕ) → i ≡ 11 + k → get_or (encode e) i 0 ≡ get_or (tail e) k 0
  unfolding encode
  in_tail i k at =
      get_or-append e.filename (e.extension ++ tail e) (3 + k) i 0 (omega (arith, v.name_width))
      ∙ get_or-append e.extension (tail e) k (3 + k) 0 (omega (arith, v.extension_width))

  name_read : bytes_at (encode e) 0 8 ≡ e.filename
  unfolding encode
  name_read = bytes_at_all (encode e) e.filename 0 8 (omega (arith, v.name_width)) (λ k lt.
      ap (λ i. get_or (encode e) i 0) (omega arith)
      ∙ get_or-append_front e.filename (e.extension ++ tail e) k 0 (omega (arith, v.name_width)))

  extension_read : bytes_at (encode e) 8 3 ≡ e.extension
  unfolding encode
  extension_read =
      bytes_at_all (encode e) e.extension 8 3 (omega (arith, v.extension_width)) (λ k lt.
        get_or-append e.filename (e.extension ++ tail e) k (8 + k) 0 (omega (arith, v.name_width))
        ∙ get_or-append_front e.extension (tail e) k 0 (omega (arith, v.extension_width)))

  -- A word whose two bytes stand in the tail.
  word_read :
      (i k w : ℕ)
      → i ≡ 11 + k
      → w < 2 ^ 16
      → get_or (tail e) k 0 ≡ w % 256
      → get_or (tail e) (k + 1) 0 ≡ w / 256 % 256
      → get16 (encode e) i ≡ w
  unfolding get16
  word_read i k w at small lo hi =
      omega (arith, in_tail i k at, in_tail (i + 1) (k + 1) (omega arith), lo, hi, small)

  size_read : get32 (encode e) 28 ≡ e.file_size
  unfolding get32 get16
  size_read = omega (
    arith,
    in_tail 28 17 refl,
    in_tail 29 18 refl,
    in_tail 30 19 refl,
    in_tail 31 20 refl,
    v.size_width,
  )

  decode-encode : decode (encode e) 0 ≡ e
  unfolding decode
  decode-encode =
      rw
        (
          name_read,
          extension_read,
          in_tail 11 0 refl,
          in_tail 12 1 refl,
          in_tail 13 2 refl,
          word_read 14 3 e.creation_time refl v.creation_width.0 refl refl,
          word_read 16 5 e.creation_date refl v.creation_width.1 refl refl,
          word_read 18 7 e.access_date refl v.access_width refl refl,
          word_read 20 9 e.high_cluster refl v.cluster_width.0 refl refl,
          word_read 22 11 e.write_time refl v.write_width.0 refl refl,
          word_read 24 13 e.write_date refl v.write_width.1 refl refl,
          word_read 26 15 e.low_cluster refl v.cluster_width.1 refl refl,
          size_read,
        )
        refl

  -- An entry written to slot `i` of a buffer that has the slot is what the slot then holds, and
  -- every other slot holds what it held.
  pub decode-splice :
      (buf : List ℕ) (i j : ℕ)
      → i * 32 + 32 ≤ length buf
      → decode (splice buf (i * 32) (encode e)) (j * 32)
        ≡ (if j == i then e else decode buf (j * 32))
  decode-splice buf i j room = elim (Bool-cases (j == i)) [
    | inl here ↦ rw here (
        decode_ext (splice buf (i * 32) (encode e)) (encode e) (j * 32) 0 (λ a b k p q lt.
          splice_in buf (encode e) (i * 32) b a (omega (arith, (==_iff j i).0 here))
            (omega (arith, length-encode e v)) (omega (arith, length-encode e v)))
        ∙ decode-encode)
    | inr other ↦ rw other (
        decode_ext (splice buf (i * 32) (encode e)) buf (j * 32) (j * 32) (λ a b k p q lt.
          splice_off buf (encode e) (i * 32) a (ground (arith, length-encode e v))
          ∙ ap (λ x. get_or buf x 0) (omega arith)))
  ]
