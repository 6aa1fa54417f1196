-- ===== src/Fat32/Dirent/Names.antt =====
-- When two names match, and when the entry made from a name bears that name.
use vidga_os.Base.{
  ℕ, zero, suc, ◌+◌, ◌⊎◌, ◌≤◌, ◌<◌, ◌≡◌, refl, ◌≢◌, ◌↔◌, true, false, [], ◌∷◌, ◌++◌, arith, ◌==◌,
  length, All, All-append, Text, IsText, c_str,
}
use vidga_os.Fat32.Dirent.{
  fold_case, strcmp_83_eq, until_space, name_bytes, entry_name, span_dot, pad, new_extension,
  new_entry,
}

-- The first is a lower-case letter of ASCII, and the second the upper-case one.
abbrev pub IsCapitalOf : ℕ → ℕ → Type 0
IsCapitalOf c d = (97 ≤ c) × (c ≤ 122) × (c ≡ d + 32)

-- Equal, or the two cases of a letter.
abbrev pub SameLetter : ℕ → ℕ → Type 0
SameLetter c d = (c ≡ d) ⊎ IsCapitalOf c d ⊎ IsCapitalOf d c

-- As long as each other, with the same letter at each place.
abbrev pub SameName : Text → Text → Type 0
SameName [] [] = Unit
SameName [] (y ∷ ys) = ⊥
SameName (x ∷ xs) [] = ⊥
SameName (x ∷ xs) (y ∷ ys) = SameLetter x y × SameName xs ys

fold_case-eq : (x y : ℕ) → fold_case x ≡ fold_case y → SameLetter x y
unfolding fold_case
fold_case-eq x y e = ground arith

fold_case-SameLetter : (x y : ℕ) → SameLetter x y → fold_case x ≡ fold_case y
unfolding fold_case
fold_case-SameLetter x y h = ground arith

-- `strcmp_83` returns 0 exactly for strings of the same length that differ at most in the case of
-- the letters from "a" to "z".
pub strcmp_83_eq_iff : (a b : Text) → IsText a → IsText b → (strcmp_83_eq a b ≡ true) ↔ SameName a b
unfolding strcmp_83_eq
strcmp_83_eq_iff [] [] ha hb = (λ e. tt, λ e. refl)
strcmp_83_eq_iff [] (y ∷ ys) ha hb = ground arith
strcmp_83_eq_iff (x ∷ xs) [] ha hb = ground arith
strcmp_83_eq_iff (x ∷ xs) (y ∷ ys) ha hb =
    ground (arith, strcmp_83_eq_iff xs ys ha.1 hb.1, fold_case-eq x y, fold_case-SameLetter x y)

-- A part of a name: no space, and no NUL.
abbrev pub IsPart : Text → Type 0
IsPart = All (λ c. (c ≢ b' ') × (c ≢ 0))

abbrev pub NoDot : Text → Type 0
NoDot = All (λ c. c ≢ b'.')

until_space-pad : (n : ℕ) (cs : Text) → IsPart cs → length cs ≤ n → until_space (pad n cs) ≡ cs
unfolding until_space pad
until_space-pad zero [] p h = refl
until_space-pad zero (c ∷ cs) p h = absurd (omega arith)
until_space-pad (suc n) [] p h = ground arith
until_space-pad (suc n) (c ∷ cs) p h = ground (arith, until_space-pad n cs p.1)

span_dot-append :
    (stem ext : Text) → NoDot stem → span_dot (stem ++ b'.' ∷ ext) ≡ (stem, b'.' ∷ ext)
unfolding span_dot
span_dot-append [] ext h = refl
span_dot-append (c ∷ cs) ext h = ground (arith, span_dot-append cs ext h.1)

span_dot-NoDot : (name : Text) → NoDot name → span_dot name ≡ (name, [])
unfolding span_dot
span_dot-NoDot [] h = refl
span_dot-NoDot (c ∷ cs) h = ground (arith, span_dot-NoDot cs h.1)

c_str-IsText : (cs : Text) → IsText cs → c_str cs ≡ cs
unfolding c_str
c_str-IsText [] h = refl
c_str-IsText (c ∷ cs) h = ground (arith, c_str-IsText cs h.1)

IsPart-IsText : (cs : Text) → IsPart cs → IsText cs
IsPart-IsText [] h = tt
IsPart-IsText (c ∷ cs) h = (h.0.1, IsPart-IsText cs h.1)

pad-cons : (c : ℕ) (cs : Text) → pad 3 (c ∷ cs) ≡ c ∷ pad 2 cs
unfolding pad
pad-cons c cs = refl

-- A string with one more character at the end is another.
strcmp_83_eq-longer : (name : Text) → IsText name → strcmp_83_eq (name ++ b'.' ∷ []) name ≡ false
unfolding strcmp_83_eq
strcmp_83_eq-longer [] h = refl
strcmp_83_eq-longer (c ∷ cs) h = ground (arith, strcmp_83_eq-longer cs h.1)

-- What the zero extension adds to a name.
c_str-dotted :
    (name : Text) → IsText name → c_str (name ++ (b'.' ∷ 0 ∷ 0 ∷ 0 ∷ [])) ≡ name ++ b'.' ∷ []
unfolding c_str
c_str-dotted [] h = refl
c_str-dotted (c ∷ cs) h = ground (arith, c_str-dotted cs h.1)

-- The entry made from a name of at most eight characters, a dot and one to three characters,
-- none of them a space, bears exactly that name.
pub entry_name-new_entry :
    (stem ext : Text) (attr start : ℕ)
    → NoDot stem
    → IsPart stem
    → IsPart ext
    → length stem ≤ 8
    → 0 < length ext
    → length ext ≤ 3
    → entry_name (new_entry (stem ++ b'.' ∷ ext) attr start) ≡ stem ++ b'.' ∷ ext
unfolding entry_name name_bytes new_entry new_extension
entry_name-new_entry stem [] attr start nd ps pe h8 h1 h3 = absurd (omega arith)
entry_name-new_entry stem (c ∷ cs) attr start nd ps pe h8 h1 h3 =
    let visible : (c == b' ') ≡ false = ground arith in
    rw
      (
        span_dot-append stem (c ∷ cs) nd,
        until_space-pad 8 stem ps h8,
        pad-cons c cs,
        visible,
        ← pad-cons c cs,
        until_space-pad 3 (c ∷ cs) pe h3,
      )
      (c_str-IsText _ (
        All-append (λ x. x ≢ 0) stem (b'.' ∷ c ∷ cs) (IsPart-IsText stem ps)
          ((λ e. cc), IsPart-IsText (c ∷ cs) pe)))

entry_name_zero :
    (name : Text) (attr start : ℕ)
    → NoDot name
    → IsPart name
    → length name ≤ 8
    → entry_name (new_entry name attr start) ≡ name ++ b'.' ∷ []
unfolding entry_name name_bytes new_entry new_extension until_space
entry_name_zero name attr start nd p h =
    rw (span_dot-NoDot name nd, until_space-pad 8 name p h)
      (c_str-dotted name (IsPart-IsText name p))

-- The entry made from a name of at most eight characters, none a dot or a space, bears that name with a
-- dot behind it, and `strcmp_83` does not take that for the name.
pub entry_name-undotted :
    (name : Text) (attr start : ℕ)
    → NoDot name
    → IsPart name
    → length name ≤ 8
    → (entry_name (new_entry name attr start) ≡ name ++ b'.' ∷ [])
      × (strcmp_83_eq (entry_name (new_entry name attr start)) name ≡ false)
entry_name-undotted name attr start nd p h =
    let bears = entry_name_zero name attr start nd p h in
    (bears, rw bears (strcmp_83_eq-longer name (IsPart-IsText name p)))
