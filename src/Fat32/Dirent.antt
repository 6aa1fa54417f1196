-- ===== src/Fat32/Dirent.antt =====
-- `fat32_dirent_t`, its bytes, and the names in src/kernel/fat32.c: `strcmp_83`, the name that
-- the loops over a directory build, and the entry that `create_dirent` makes from a name.
pub mod Fields
pub mod Layout
pub mod Widths
pub mod Marks
pub mod Names
use vidga_os.Base.{
  ℕ, zero, suc, ◌+◌, ◌-◌, ◌*◌, ◌/◌, ◌%◌, Bool, true, false, ◌&&◌, List, [], ◌∷◌, ◌++◌, leb, ◌==◌,
  if◌then◌else◌, get_or, replicate, take, Text, u16, shr, has_bit, c_str,
}
use vidga_os.Bytes.{get16, get32, bytes16, bytes32, bytes_at}

pub record Dirent : Type 0 where
  pub filename : List ℕ
  pub extension : List ℕ
  pub attributes : ℕ
  pub reserved : ℕ
  pub creation_time_tenths : ℕ
  pub creation_time : ℕ
  pub creation_date : ℕ
  pub access_date : ℕ
  pub high_cluster : ℕ
  pub write_time : ℕ
  pub write_date : ℕ
  pub low_cluster : ℕ
  pub file_size : ℕ

abbrev pub attr_directory : ℕ
attr_directory = 0x10

abbrev pub attr_archive : ℕ
attr_archive = 0x20

abbrev pub attr_long_name : ℕ
attr_long_name = 0x0F

-- The entry whose 32 bytes stand in `buf` from offset `o` on.
unfoldable pub decode : List ℕ → ℕ → Dirent
decode buf o = record {
  filename = bytes_at buf o 8;
  extension = bytes_at buf (o + 8) 3;
  attributes = get_or buf (o + 11) 0;
  reserved = get_or buf (o + 12) 0;
  creation_time_tenths = get_or buf (o + 13) 0;
  creation_time = get16 buf (o + 14);
  creation_date = get16 buf (o + 16);
  access_date = get16 buf (o + 18);
  high_cluster = get16 buf (o + 20);
  write_time = get16 buf (o + 22);
  write_date = get16 buf (o + 24);
  low_cluster = get16 buf (o + 26);
  file_size = get32 buf (o + 28);
}

-- The 32 bytes of an entry.
unfoldable pub encode : Dirent → List ℕ
encode e =
    e.filename
    ++ (e.extension
        ++ (e.attributes
            ∷ e.reserved
            ∷ e.creation_time_tenths
            ∷ (bytes16 e.creation_time
                ++ (bytes16 e.creation_date
                    ++ (bytes16 e.access_date
                        ++ (bytes16 e.high_cluster
                            ++ (bytes16 e.write_time
                                ++ (bytes16 e.write_date
                                    ++ (bytes16 e.low_cluster ++ bytes32 e.file_size)))))))))

-- `((uint32_t)entry.high_cluster << 16) | entry.low_cluster`, of two 16-bit fields
abbrev pub start_cluster : Dirent → ℕ
start_cluster e = e.high_cluster * 65536 + e.low_cluster

-- `if (c >= 'a' && c <= 'z') c -= 32;`
unfoldable pub fold_case : ℕ → ℕ
fold_case c = if leb b'a' c && leb c b'z' then c - 32 else c

-- `strcmp_83(a, b) == 0`, the only test made of the result: behind the loop the characters are
-- compared as they are, and the end of a string is the character 0.
unfoldable pub strcmp_83_eq : Text → Text → Bool
strcmp_83_eq [] [] = true
strcmp_83_eq [] (y ∷ ys) = 0 == y
strcmp_83_eq (x ∷ xs) [] = x == 0
strcmp_83_eq (x ∷ xs) (y ∷ ys) = fold_case x == fold_case y && strcmp_83_eq xs ys

-- `for (k = 0; k < n && field[k] != ' '; k++)`, over the bytes of a field of `n`
unfoldable pub until_space : List ℕ → List ℕ
until_space [] = []
until_space (c ∷ cs) = if c == b' ' then [] else c ∷ until_space cs

-- The bytes that the loops over a directory put into `entry_name`, before the terminator.
unfoldable pub name_bytes : Dirent → List ℕ
name_bytes e =
    until_space e.filename
    ++ (if get_or e.extension 0 0 == b' ' then [] else b'.' ∷ until_space e.extension)

-- `entry_name` as a string
unfoldable pub entry_name : Dirent → Text
entry_name e = c_str (name_bytes e)

-- `while (*dot && *dot != '.')`: the characters before the first dot, and the rest from it on.
unfoldable pub span_dot : Text → Text × Text
span_dot [] = ([], [])
span_dot (c ∷ cs) = if c == b'.' then ([], c ∷ cs) else (c ∷ (span_dot cs).0, (span_dot cs).1)

-- The loop that copies a string into a field of `n` bytes and pads it with spaces.
unfoldable pub pad : ℕ → Text → List ℕ
pad zero cs = []
pad (suc n) [] = b' ' ∷ pad n []
pad (suc n) (c ∷ cs) = c ∷ pad n cs

-- The extension of the new entry: it stays zero if the name has no dot.
unfoldable pub new_extension : Text → List ℕ
new_extension [] = 0 ∷ 0 ∷ 0 ∷ []
new_extension (dot ∷ cs) = pad 3 cs

-- `new_entry` of `create_dirent`
unfoldable pub new_entry : Text → ℕ → ℕ → Dirent
new_entry name attr start = record {
  filename = pad 8 (span_dot name).0;
  extension = new_extension (span_dot name).1;
  attributes = attr;
  reserved = 0;
  creation_time_tenths = 0;
  creation_time = 0;
  creation_date = 0x21;
  access_date = 0x21;
  high_cluster = u16 (shr start 16);
  write_time = 0;
  write_date = 0x21;
  low_cluster = u16 start;
  file_size = 0;
}

-- The first byte of the name.
abbrev pub first_byte : Dirent → ℕ
first_byte e = get_or e.filename 0 0
