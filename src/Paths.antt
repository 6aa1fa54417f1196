-- ===== src/Paths.antt =====
-- The path functions of src/kernel/vfs.c: `normalize_path`, `vfs_is_absolute`,
-- `vfs_get_filename`, `vfs_get_parent_path` and `vfs_resolve_path`.
pub mod Split
pub mod Bounds
pub mod Components
pub mod Normalize
use vidga_os.Base.{
  ℕ, zero, suc, ◌+◌, ◌-◌, ◌<◌, ◌≡◌, Bool, true, false, Option, none, some, List, [], ◌∷◌, ◌++◌, ltb,
  ◌==◌, if◌then◌else◌, length, get_or, set, take, drop, Text, strcmp_eq, codes, c_str,
}

abbrev pub slash : ℕ
slash = b'/'

abbrev pub root_path : Text
root_path = codes "/"

-- The inner loop of the two walks over a path: what stands before the next slash, and the rest
-- from that slash on.
unfoldable pub span_component : Text → Text × Text
span_component [] = ([], [])
span_component (c ∷ cs) =
    if c == slash then ([], c ∷ cs) else (c ∷ (span_component cs).0, (span_component cs).1)

-- `if (*p == '/') p++`
unfoldable pub skip_slash : Text → Text
skip_slash [] = []
skip_slash (c ∷ cs) = if c == slash then cs else c ∷ cs

-- `for (j = n - 1; j >= 0; j--) if (temp[j] == '/') { temp[j] = 0; break; }`
unfoldable pub cut_loop : ℕ → Text → Text
cut_loop zero temp = temp
cut_loop (suc j) temp = if get_or temp j 0 == slash then take j temp else cut_loop j temp

-- What one round of `normalize_path` does to `temp` with a component.
unfoldable pub normalize_step : Text → Text → Text
normalize_step temp comp =
    if strcmp_eq comp (codes ".")
    then temp
    else if strcmp_eq comp (codes "..")
    then (if ltb 1 (length temp) then cut_loop (length temp) temp else temp)
    else if length temp == 0
    then (temp ++ root_path) ++ comp
    else if get_or temp (length temp - 1) 0 == slash
    then temp ++ comp
    else (temp ++ root_path) ++ comp

-- The outer loop, on fuel; `none` means that the fuel ran out.
unfoldable pub normalize_loop : ℕ → Text → Text → Option Text
normalize_loop f temp [] = some temp
normalize_loop zero temp (c ∷ cs) = none
normalize_loop (suc f) temp (c ∷ cs) =
    normalize_loop f (normalize_step temp (span_component (c ∷ cs)).0)
      (skip_slash (span_component (c ∷ cs)).1)

-- `if (strlen(temp) == 0) strcpy(normalized, "/"); else strcpy(normalized, temp);`
abbrev pub normalize_result : Option Text → Option Text
normalize_result none = none
normalize_result (some temp) = some (if length temp == 0 then root_path else temp)

-- Each round of the loop takes at least one character, so a path's length is fuel enough.
unfoldable pub normalize_path : Text → Option Text
normalize_path path =
    if strcmp_eq path root_path
    then some root_path
    else normalize_result (normalize_loop (length path) [] (skip_slash path))

-- `path[0] == '/'`
unfoldable pub is_absolute : Text → Bool
is_absolute [] = false
is_absolute (c ∷ cs) = c == slash

-- `vfs_resolve_path`, with `cwd` for the path of the working directory
unfoldable pub resolve_path : Text → Text → Text
resolve_path cwd relpath =
    if is_absolute relpath
    then relpath
    else if get_or cwd (length cwd - 1) 0 == slash
    then cwd ++ relpath
    else (cwd ++ root_path) ++ relpath

-- The loop of `vfs_get_filename`: `i` is the offset of `p`, `found` that of `filename`.
unfoldable pub filename_loop : ℕ → ℕ → Text → ℕ
filename_loop i found [] = found
filename_loop i found (c ∷ cs) = filename_loop (i + 1) (if c == slash then i + 1 else found) cs

-- The pointer that `vfs_get_filename` returns, as an offset into the path.
unfoldable pub filename_offset : Text → ℕ
filename_offset path = filename_loop 0 0 path

-- `for (i = n - 1; i >= 0; i--) if (path[i] == '/') { last_slash = i; break; }`
unfoldable pub last_slash_loop : ℕ → Text → ℕ
last_slash_loop zero path = 0
last_slash_loop (suc i) path = if get_or path i 0 == slash then i else last_slash_loop i path

-- The string that `vfs_get_parent_path` stores in `parent`.
unfoldable pub parent_path : Text → Text
parent_path path =
    let last_slash = last_slash_loop (length path) path in
    if last_slash == 0 then root_path else take last_slash path

-- `vfs_get_parent_path(buf, buf)`, as its callers use it: source and target are one buffer.
unfoldable pub parent_in_place : List ℕ → List ℕ
parent_in_place buf =
    let path = c_str buf in
    let last_slash = last_slash_loop (length path) path in
    if last_slash == 0 then set (set buf 0 slash) 1 0 else set buf last_slash 0

-- The three lines with which the operations on a path begin: the resolved path stands in a
-- buffer, the name is a pointer into it, and the parent's path is written over it. The result
-- is what the two strings read afterwards. The second 0 stands for the byte behind the
-- terminator, which is written before it is read.
unfoldable pub split_in_place : Text → Text × Text
split_in_place path =
    let buf = parent_in_place (path ++ 0 ∷ 0 ∷ []) in
    (c_str buf, c_str (drop (filename_offset path) buf))
