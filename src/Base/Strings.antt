-- ===== src/Base/Strings.antt =====
-- C strings as the lists of their characters, without the terminating NUL.
use Prim.Native.Nat.{ℕ}
use Prim.Native.Char.{code}
use Prim.Native.String.{String}
use mathlib.Core.Path.{◌≡◌, refl}
use mathlib.Core.Logic.{◌≢◌, ◌↔◌}
use mathlib.Core.Bool.{Bool, true, ◌&&◌}
use mathlib.Core.List.{List, [], ◌∷◌, ◌++◌}
use native.Mathlib.Omega.{arith}
use vidga_os.Base.Tests.{◌==◌, if◌then◌else◌}
use vidga_os.Base.Arrays.{All}

-- the characters of a literal
abbrev pub codes : String → List ℕ
codes String.[] = []
codes (String.◌∷◌ c s) = code c ∷ codes s

abbrev pub Text : Type 0
Text = List ℕ

-- no character is NUL
abbrev pub IsText : Text → Type 0
IsText = All (λ c. c ≢ 0)

-- `strcmp(a, b) == 0`, the only test that the callers make of the result: the end of a string
-- is compared as the character 0
unfoldable pub strcmp_eq : Text → Text → Bool
strcmp_eq [] [] = true
strcmp_eq [] (y ∷ ys) = 0 == y
strcmp_eq (x ∷ xs) [] = x == 0
strcmp_eq (x ∷ xs) (y ∷ ys) = x == y && strcmp_eq xs ys

pub strcmp_eq_iff : (a b : Text) → IsText a → IsText b → (strcmp_eq a b ≡ true) ↔ (a ≡ b)
unfolding strcmp_eq
strcmp_eq_iff [] [] ha hb = (λ e. refl, λ e. refl)
strcmp_eq_iff [] (y ∷ ys) ha hb = ground arith
strcmp_eq_iff (x ∷ xs) [] ha hb = ground arith
strcmp_eq_iff (x ∷ xs) (y ∷ ys) ha hb = ground (arith, strcmp_eq_iff xs ys ha.1 hb.1)

-- The string that a pointer into a buffer reads: the bytes before the first NUL.
unfoldable pub c_str : List ℕ → Text
c_str [] = []
c_str (c ∷ cs) = if c == 0 then [] else c ∷ c_str cs

pub c_str-append : (path : Text) (rest : List ℕ) → IsText path → c_str (path ++ 0 ∷ rest) ≡ path
unfolding c_str
c_str-append [] rest h = refl
c_str-append (c ∷ cs) rest h = ground (arith, c_str-append cs rest h.1)
