-- ===== src/Paths/Bounds.antt =====
-- What `normalize_path` stores fits where its argument fits.
use vidga_os.Base.{
  ℕ, zero, suc, ◌+◌, ◌≤◌, ◌≡◌, refl, inl, inr, true, some, List, [], ◌∷◌, ◌++◌, arith, ◌==◌,
  Bool-cases, if◌then◌else◌, length, length-append, length-take, Text, strcmp_eq,
}
use vidga_os.Paths.{
  root_path, span_component, skip_slash, is_absolute, cut_loop, normalize_step, normalize_path,
}
use vidga_os.Paths.Components.{add_char, components, components-span}
use vidga_os.Paths.Normalize.{normalize_all, normalize_loop-components}

length-cut_loop : (j : ℕ) (temp : Text) → length (cut_loop j temp) ≤ length temp
unfolding cut_loop
length-cut_loop zero temp = omega arith
length-cut_loop (suc j) temp = ground (arith, length-take j temp, length-cut_loop j temp)

length-normalize_step :
    (temp w : Text) → length (normalize_step temp w) ≤ length temp + (length w + 1)
unfolding normalize_step
length-normalize_step temp w = ground (
  arith,
  length-cut_loop (length temp) temp,
  length-append temp w,
  length-append temp root_path,
  length-append (temp ++ root_path) w,
)

-- The characters of the components, with a slash for each.
abbrev total : List Text → ℕ
total [] = 0
total (w ∷ ws) = length w + 1 + total ws

total-add_char :
    (c : ℕ) (w : Text) (ws : List Text) → total (add_char c (w ∷ ws)) ≡ total (w ∷ ws) + 1
total-add_char c w ws = omega arith

total-components : (path : Text) → total (components path) ≤ length path + 1
unfolding components
total-components [] = omega arith
total-components (c ∷ []) = ground arith
total-components (c ∷ d ∷ ds) = ground (
  arith,
  total-components (d ∷ ds),
  components-span d ds,
  total-add_char c (span_component (d ∷ ds)).0
      (components (skip_slash (span_component (d ∷ ds)).1)),
)

length-normalize_all :
    (temp : Text) (ws : List Text) → length (normalize_all temp ws) ≤ length temp + total ws
length-normalize_all temp [] = omega arith
length-normalize_all temp (w ∷ ws) =
    omega (arith, length-normalize_step temp w, length-normalize_all (normalize_step temp w) ws)

result : Text → Text
result cs =
    let temp = normalize_all [] (components cs) in if length temp == 0 then root_path else temp

-- For an absolute path the loop of `normalize_path` ends, and the result is no longer than the
-- path: a buffer that holds the one holds the other.
pub length-normalize_path :
    (path : Text)
    → is_absolute path ≡ true
    → (r : Text) × (normalize_path path ≡ some r) × (length r ≤ length path)
unfolding normalize_path is_absolute skip_slash result
length-normalize_path [] h = cc
length-normalize_path (c ∷ cs) h = elim (Bool-cases (strcmp_eq (c ∷ cs) root_path)) [
  | inl e ↦ rw e (root_path, refl, omega arith)
  | inr ne ↦ (
    result cs,
    rw (ne, h, normalize_loop-components (suc (length cs)) [] cs (omega arith)),
    ground (arith, length-normalize_all [] (components cs), total-components cs),
  )
]
