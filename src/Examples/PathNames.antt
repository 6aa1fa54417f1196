-- ===== src/Examples/PathNames.antt =====
-- The theorems on paths, and runs of the path functions, at small paths.
use vidga_os.Base.{ℕ, ◌≤◌, ◌≡◌, refl, some, [], ◌∷◌, arith, length, drop, codes, strcmp_eq, Text}
use vidga_os.Paths.{
  root_path, span_component, cut_loop, normalize_step, normalize_loop, normalize_path, is_absolute,
  filename_offset, parent_path, split_in_place, skip_slash,
}
use vidga_os.Paths.Components.{components}
use vidga_os.Paths.Normalize.{resolve, show_path, IsName, normalize_path-resolve}
use vidga_os.Paths.Bounds.{length-normalize_path}
use vidga_os.Paths.Split.{split_apart, split_in_place_lem}

normalized : normalize_path (codes "/a/./b/../c") ≡ some (codes "/a/c")
unfolding normalize_path normalize_loop normalize_step span_component skip_slash cut_loop strcmp_eq
normalized = refl

split_below : split_in_place (codes "/home/notes") ≡ (codes "/home", codes "notes")
split_below =
    split_in_place_lem (codes "/home") (codes "notes") (ground arith) (ground arith) (ground arith)

letter : (c : ℕ) → b'a' ≤ c → IsName (c ∷ [])
letter c h = ground arith

normalize_path-resolve_example :
    normalize_path (codes "/a/b/../c")
    ≡ some (show_path (resolve [] (components (codes "a/b/../c"))))
unfolding skip_slash components
normalize_path-resolve_example = normalize_path-resolve (codes "/a/b/../c") (ground arith) (
  letter b'a' (omega arith),
  (letter b'b' (omega arith), (ground arith, (letter b'c' (omega arith), tt))),
)

length-normalize_path_example :
    (r : Text) × (normalize_path (codes "/a/../b") ≡ some r) × (length r ≤ 7)
unfolding is_absolute
length-normalize_path_example = length-normalize_path (codes "/a/../b") refl

split_apart_example :
    (drop (filename_offset (codes "/home/notes")) (codes "/home/notes") ≡ codes "notes")
    × (parent_path (codes "/home/notes") ≡ codes "/home")
split_apart_example = split_apart (codes "/home") (codes "notes") (ground arith)

split_in_place_lem_example : split_in_place (codes "/notes") ≡ (root_path, [])
split_in_place_lem_example = split_in_place_lem [] (codes "notes") tt (ground arith) (ground arith)
