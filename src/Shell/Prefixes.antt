-- ===== src/Shell/Prefixes.antt =====
-- The first characters of a buffer.
use vidga_os.Base.{
  ℕ, zero, suc, ◌+◌, ◌-◌, ◌≤◌, ◌<◌, ◌≡◌, refl, ap, ◌≢◌, List, [], ◌∷◌, ◌++◌, arith, length, set,
  take, Text, IsText, c_str,
}

pub length-take_le : (n : ℕ) (xs : List ℕ) → n ≤ length xs → length (take n xs) ≡ n
length-take_le zero xs h = refl
length-take_le (suc n) [] h = absurd (omega arith)
length-take_le (suc n) (x ∷ xs) h = ap suc (length-take_le n xs (omega arith))

pub take-take : (n : ℕ) (xs : List ℕ) → n ≤ length xs → take (n - 1) (take n xs) ≡ take (n - 1) xs
take-take zero xs h = refl
take-take (suc n) xs h = rw sub (inner n xs)
  where
    sub : suc n - 1 ≡ n
    sub = omega arith

    inner : (n : ℕ) (xs : List ℕ) → take n (take (suc n) xs) ≡ take n xs
    inner zero xs = refl
    inner (suc n) [] = refl
    inner (suc n) (x ∷ xs) = ap (λ l. x ∷ l) (inner n xs)

pub take-set :
    (n : ℕ) (xs : List ℕ) (c : ℕ) → n < length xs → take (n + 1) (set xs n c) ≡ take n xs ++ c ∷ []
take-set zero [] c h = absurd (omega arith)
take-set zero (x ∷ xs) c h = refl
take-set (suc n) [] c h = absurd (omega arith)
take-set (suc n) (x ∷ xs) c h =
    let step : suc n + 1 ≡ suc (n + 1) = omega arith in
    rw step (ap (λ l. x ∷ l) (take-set n xs c (omega arith)))

pub c_str-set :
    (n : ℕ) (xs : List ℕ) → n < length xs → IsText (take n xs) → c_str (set xs n 0) ≡ take n xs
unfolding c_str
c_str-set zero [] h t = absurd (omega arith)
c_str-set zero (x ∷ xs) h t = refl
c_str-set (suc n) [] h t = absurd (omega arith)
c_str-set (suc n) (x ∷ xs) h t = ground (arith, c_str-set n xs)

pub All-snoc : (xs : Text) (c : ℕ) → IsText xs → c ≢ 0 → IsText (xs ++ c ∷ [])
All-snoc [] c h ne = (ne, tt)
All-snoc (x ∷ xs) c h ne = (h.0, All-snoc xs c h.1 ne)
