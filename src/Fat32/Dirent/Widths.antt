-- ===== src/Fat32/Dirent/Widths.antt =====
-- The entries that `create_dirent` makes, and the bytes of an entry, have the widths of their types.
use vidga_os.Base.{
  ℕ, zero, suc, ◌≡◌, refl, ap, List, [], ◌∷◌, ◌++◌, arith, ◌==◌, length, All, All-append,
  Bool-cases, inl, inr, IsByte, Text,
}
use vidga_os.Bytes.{bytes16, bytes32}
use vidga_os.Fat32.Dirent.{Dirent, encode, pad, span_dot, new_extension, new_entry}
use vidga_os.Fat32.Dirent.Layout.{IsEntry}

-- The bytes of an entry are bytes.
pub All-encode : (e : Dirent) → IsEntry e → All IsByte (encode e)
unfolding encode
All-encode e v = both e.filename _ v.name_bytes (
    both e.extension _ v.extension_bytes
      (v.byte_fields.0, (v.byte_fields.1, (v.byte_fields.2, words))))
  where
    both : (xs ys : List ℕ) → All IsByte xs → All IsByte ys → All IsByte (xs ++ ys)
    both xs ys h k = All-append IsByte xs ys h k

    words : All IsByte (
        bytes16 e.creation_time
        ++ (bytes16 e.creation_date
            ++ (bytes16 e.access_date
                ++ (bytes16 e.high_cluster
                    ++ (bytes16 e.write_time
                        ++ (bytes16 e.write_date
                            ++ (bytes16 e.low_cluster ++ bytes32 e.file_size)))))))
    words = ground arith

length-pad : (n : ℕ) (cs : Text) → length (pad n cs) ≡ n
unfolding pad
length-pad zero cs = refl
length-pad (suc n) [] = ap suc (length-pad n [])
length-pad (suc n) (c ∷ cs) = ap suc (length-pad n cs)

length-new_extension : (cs : Text) → length (new_extension cs) ≡ 3
unfolding new_extension
length-new_extension [] = refl
length-new_extension (c ∷ cs) = length-pad 3 cs

All-pad : (n : ℕ) (cs : Text) → All IsByte cs → All IsByte (pad n cs)
unfolding pad
All-pad zero cs h = tt
All-pad (suc n) [] h = (omega arith, All-pad n [] tt)
All-pad (suc n) (c ∷ cs) h = (h.0, All-pad n cs h.1)

All-span_dot : (cs : Text) → All IsByte cs → All IsByte (span_dot cs).0 × All IsByte (span_dot cs).1
unfolding span_dot
All-span_dot [] h = (tt, tt)
All-span_dot (c ∷ cs) h = elim (Bool-cases (c == b'.')) [
  | inl dot ↦ rw dot (tt, h)
  | inr other ↦ let rest = All-span_dot cs h.1 in rw other ((h.0, rest.0), rest.1)
]

All-new_extension : (cs : Text) → All IsByte cs → All IsByte (new_extension cs)
unfolding new_extension
All-new_extension [] h = (omega arith, (omega arith, (omega arith, tt)))
All-new_extension (c ∷ cs) h = All-pad 3 cs h.1

-- The entries that `create_dirent` makes have the widths of the fields.
pub new_entry-IsEntry :
    (name : Text) (attr start : ℕ)
    → All IsByte name
    → IsByte attr
    → IsEntry (new_entry name attr start)
unfolding new_entry
new_entry-IsEntry name attr start h ha = record {
  name_width = length-pad 8 (span_dot name).0;
  extension_width = length-new_extension (span_dot name).1;
  creation_width = omega arith;
  access_width = omega arith;
  write_width = omega arith;
  cluster_width = omega arith;
  size_width = omega arith;
  name_bytes = All-pad 8 (span_dot name).0 (All-span_dot name h).0;
  extension_bytes = All-new_extension (span_dot name).1 (All-span_dot name h).1;
  byte_fields = (ha, omega arith, omega arith);
}
