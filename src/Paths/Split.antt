-- ===== src/Paths/Split.antt =====
-- How `vfs_get_filename` and `vfs_get_parent_path` take a path apart, with two buffers and with
-- one.
use vidga_os.Base.{
  ℕ, zero, suc, ◌+◌, ◌-◌, ◌≤◌, ◌<◌, ◌≡◌, refl, ap, ap₂, ◌∙◌, ◌≢◌, inl, inr, false, List, [], ◌∷◌,
  ◌++◌, append_assoc, arith, ◌==◌, Bool-cases, if◌then◌else◌, length, get_or, set, drop, All,
  length-append, get_or-append, drop-append, set-length_append, All-get_or, All-append,
  take-length_append, Text, IsText, c_str, c_str-append,
}
use vidga_os.Paths.{
  slash, root_path, cut_loop, filename_loop, filename_offset, last_slash_loop, parent_path,
  parent_in_place, split_in_place,
}

-- A file name: no slash in it.
abbrev pub NoSlash : Text → Type 0
NoSlash = All (λ c. c ≢ slash)

filename_loop-NoSlash :
    (i found : ℕ) (name : Text) → NoSlash name → filename_loop i found name ≡ found
unfolding filename_loop
filename_loop-NoSlash i found [] h = refl
filename_loop-NoSlash i found (c ∷ cs) h =
    ground (arith, filename_loop-NoSlash (i + 1) found cs h.1)

filename_loop-append :
    (i found : ℕ) (dir name : Text)
    → NoSlash name
    → filename_loop i found (dir ++ slash ∷ name) ≡ i + length dir + 1
unfolding filename_loop
filename_loop-append i found [] name h = filename_loop-NoSlash (i + 1) (i + 1) name h ∙ omega arith
filename_loop-append i found (c ∷ cs) name h =
    filename_loop-append (i + 1) (if c == slash then i + 1 else found) cs name h ∙ omega arith

-- What either backward loop reads from the last slash on.
get_or-slash :
    (dir name : Text) (i : ℕ)
    → NoSlash name
    → length dir ≤ i
    → (get_or (dir ++ slash ∷ name) i 0 == slash) ≡ (i == length dir)
get_or-slash dir name i h le = elim (Bool-cases (i == length dir)) [
  | inl e ↦ ground (arith, get_or-append dir (slash ∷ name) 0 i 0)
  | inr ne ↦ ground (
    arith,
    get_or-append dir (slash ∷ name) (suc (i - length dir - 1)) i 0,
    All-get_or (λ c. c ≢ slash) name (i - length dir - 1) 0 h (omega arith),
  )
]

last_slash_loop-append :
    (n : ℕ) (dir name : Text)
    → NoSlash name
    → length dir < n
    → last_slash_loop n (dir ++ slash ∷ name) ≡ length dir
unfolding last_slash_loop
last_slash_loop-append zero dir name h lt = elim lt [ ]
last_slash_loop-append (suc i) dir name h lt =
    ground (arith, get_or-slash dir name i h, last_slash_loop-append i dir name h)

pub cut_loop-append :
    (n : ℕ) (dir name : Text)
    → NoSlash name
    → length dir < n
    → cut_loop n (dir ++ slash ∷ name) ≡ dir
unfolding cut_loop
cut_loop-append zero dir name h lt = elim lt [ ]
cut_loop-append (suc i) dir name h lt = ground (
  arith,
  get_or-slash dir name i h,
  take-length_append dir (slash ∷ name),
  cut_loop-append i dir name h,
)

filename_offset_lem :
    (dir name : Text) → NoSlash name → filename_offset (dir ++ slash ∷ name) ≡ length dir + 1
unfolding filename_offset
filename_offset_lem dir name h = filename_loop-append 0 0 dir name h ∙ omega arith

last_slash_lem :
    (dir name : Text)
    → NoSlash name
    → last_slash_loop (length (dir ++ slash ∷ name)) (dir ++ slash ∷ name) ≡ length dir
last_slash_lem dir name h =
    last_slash_loop-append (length (dir ++ slash ∷ name)) dir name h
      (omega (arith, length-append dir (slash ∷ name)))

-- For a path made of a directory and a name without a slash, `vfs_get_filename` points at the
-- name, and `vfs_get_parent_path` with a target of its own stores the directory, or "/" if that
-- is empty.
pub split_apart :
    (dir name : Text)
    → NoSlash name
    → (drop (filename_offset (dir ++ slash ∷ name)) (dir ++ slash ∷ name) ≡ name)
      × (parent_path (dir ++ slash ∷ name) ≡ (if length dir == 0 then root_path else dir))
unfolding parent_path
split_apart dir name h = (
  rw (filename_offset_lem dir name h) (drop-append dir (slash ∷ name) 1 (length dir + 1) refl),
  ground (arith, last_slash_lem dir name h, take-length_append dir (slash ∷ name)),
)

parent_in_place_root :
    (name : Text)
    → IsText name
    → NoSlash name
    → parent_in_place ((slash ∷ name) ++ 0 ∷ 0 ∷ []) ≡ slash ∷ set (name ++ 0 ∷ 0 ∷ []) 0 0
unfolding parent_in_place
parent_in_place_root name t h =
    rw (c_str-append (slash ∷ name) (0 ∷ []) ((λ e. cc), t), last_slash_lem [] name h)

parent_in_place_below :
    (dir name : Text)
    → IsText dir
    → IsText name
    → NoSlash name
    → length dir ≢ 0
    → parent_in_place ((dir ++ slash ∷ name) ++ 0 ∷ 0 ∷ []) ≡ dir ++ (0 ∷ (name ++ 0 ∷ 0 ∷ []))
unfolding parent_in_place
parent_in_place_below dir name td tn h ne =
    let below : (length dir == 0) ≡ false = ground arith in
    rw
      (
        c_str-append (dir ++ slash ∷ name) (0 ∷ [])
            (All-append (λ c. c ≢ 0) dir (slash ∷ name) td ((λ e. cc), tn)),
        last_slash_lem dir name h,
        below,
        append_assoc,
      )
      (set-length_append dir slash 0 (name ++ 0 ∷ 0 ∷ []))

c_str-slash : (buf : List ℕ) → c_str (slash ∷ buf) ≡ slash ∷ c_str buf
unfolding c_str
c_str-slash buf = refl

c_str-set_zero : (name : Text) → c_str (set (name ++ 0 ∷ 0 ∷ []) 0 0) ≡ []
unfolding c_str
c_str-set_zero [] = refl
c_str-set_zero (c ∷ cs) = refl

-- The callers use one buffer for the path and its parent. For a path made of a directory and a
-- name without a slash, the two strings are then the directory and the name. For a path "/name" the parent's path "/" overwrites the first
-- character of the name with the terminator, so the name reads as the empty string.
pub split_in_place_lem :
    (dir name : Text)
    → IsText dir
    → IsText name
    → NoSlash name
    → split_in_place (dir ++ slash ∷ name)
      ≡ (if length dir == 0 then (root_path, []) else (dir, name))
unfolding split_in_place
split_in_place_lem [] name td tn h =
    rw (filename_offset_lem [] name h, parent_in_place_root name tn h, c_str-slash)
      (ap₂ (λ s t. (s, t)) (ap (λ t. slash ∷ t) (c_str-set_zero name)) (c_str-set_zero name))
split_in_place_lem (c ∷ dir) name td tn h =
    let below : (length (c ∷ dir) == 0) ≡ false = ground arith in
    rw
      (
        filename_offset_lem (c ∷ dir) name h,
        parent_in_place_below (c ∷ dir) name td tn h (omega arith),
        below,
      )
      (ap₂ (λ s t. (s, t)) (c_str-append (c ∷ dir) (name ++ 0 ∷ 0 ∷ []) td)
        (ap c_str (drop-append (c ∷ dir) (0 ∷ name ++ 0 ∷ 0 ∷ []) 1 (length (c ∷ dir) + 1) refl)
          ∙ c_str-append name (0 ∷ []) tn))
