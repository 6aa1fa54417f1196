-- ===== src/Paths/Components.antt =====
-- A path as the list of its components, and the walk that the loops of src/kernel/vfs.c make
-- over them.
use vidga_os.Base.{ℕ, ◌≤◌, ◌≡◌, refl, List, [], ◌∷◌, arith, ◌==◌, if◌then◌else◌, length, Text}
use vidga_os.Paths.{slash, span_component, skip_slash}

-- One more character in front of the first component.
abbrev pub add_char : ℕ → List Text → List Text
add_char c [] = (c ∷ []) ∷ []
add_char c (w ∷ ws) = (c ∷ w) ∷ ws

-- The strings between the slashes; an empty string for each slash that ends no component, and
-- none behind a slash at the end.
unfoldable pub components : Text → List Text
components [] = []
components (c ∷ cs) = let rest = components cs in if c == slash then [] ∷ rest else add_char c rest

pub components-span :
    (c : ℕ) (cs : Text)
    → components (c ∷ cs)
      ≡ (span_component (c ∷ cs)).0 ∷ components (skip_slash (span_component (c ∷ cs)).1)
unfolding components span_component skip_slash
components-span c [] = ground arith
components-span c (d ∷ ds) = ground (arith, components-span d ds)

length-span : (cs : Text) → length (skip_slash (span_component cs).1) ≤ length cs
unfolding span_component skip_slash
length-span [] = omega arith
length-span (c ∷ cs) = ground (arith, length-span cs)

-- A round of either loop shortens what is left of the path.
pub length-span-lt :
    (c : ℕ) (cs : Text) → length (skip_slash (span_component (c ∷ cs)).1) ≤ length cs
unfolding span_component skip_slash
length-span-lt c cs = ground (arith, length-span cs)

pub components-nil : components [] ≡ []
unfolding components
components-nil = refl
