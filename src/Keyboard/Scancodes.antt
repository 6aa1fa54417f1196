-- ===== src/Keyboard/Scancodes.antt =====
-- What `translate_scancode` can give.
use vidga_os.Base.{
  ℕ, zero, suc, ◌≤◌, ◌<◌, ◌≡◌, refl, ◌⊎◌, inl, inr, Bool, true, false, not, Option, none, some,
  List, [], ◌∷◌, arith, leb, ltb, ◌==◌, ◌&&◌, ◌||◌, Bool-cases, if◌then◌else◌, length, get_elem?,
  has_bit, low_bits,
}
use vidga_os.Keyboard.{
  Keyboard, sc_normal, sc_shift, enter_key, apply_caps, key_char, key_result, translate_scancode,
}

-- A character that the shell can read: none, backspace, line feed, or a printable one.
abbrev pub IsInput : ℕ → Type 0
IsInput c = (c ≡ 0) ⊎ (c ≡ 8) ⊎ (c ≡ 10) ⊎ ((32 ≤ c) × (c < 127))

is_key : ℕ → Bool
is_key c = c == 0 || (leb 32 c && ltb c 127)

all_keys : List ℕ → Bool
all_keys [] = true
all_keys (c ∷ cs) = is_key c && all_keys cs

get_elem?-is_key :
    (xs : List ℕ) (i : ℕ) {c : ℕ} → all_keys xs ≡ true → get_elem? xs i ≡ some c → is_key c ≡ true
unfolding all_keys
get_elem?-is_key [] i h e = cc
get_elem?-is_key (x ∷ xs) zero h e = ground arith
get_elem?-is_key (x ∷ xs) (suc i) h e = get_elem?-is_key xs i (ground arith) e

get_elem?-IsSome : (xs : List ℕ) (i : ℕ) → i < length xs → (c : ℕ) × (get_elem? xs i ≡ some c)
get_elem?-IsSome [] i h = absurd (omega arith)
get_elem?-IsSome (x ∷ xs) zero h = (x, refl)
get_elem?-IsSome (x ∷ xs) (suc i) h = get_elem?-IsSome xs i (omega arith)

get_elem?-none : (xs : List ℕ) (i : ℕ) → length xs ≤ i → get_elem? xs i ≡ none
get_elem?-none [] i h = refl
get_elem?-none (x ∷ xs) zero h = absurd (omega arith)
get_elem?-none (x ∷ xs) (suc i) h = get_elem?-none xs i (omega arith)

tables-all_keys : (all_keys sc_normal ≡ true) × (all_keys sc_shift ≡ true)
unfolding all_keys is_key
tables-all_keys = (refl, refl)

table : Bool → List ℕ
table shift = if shift then sc_shift else sc_normal

length-table : (shift : Bool) → length (table shift) ≡ 0x60
unfolding table
length-table true = refl
length-table false = refl

table-all_keys : (shift : Bool) → all_keys (table shift) ≡ true
unfolding table
table-all_keys true = tables-all_keys.1
table-all_keys false = tables-all_keys.0

key_char-is_key : (k : Keyboard) (c : ℕ) → is_key c ≡ true → is_key (key_char k c) ≡ true
unfolding is_key apply_caps
key_char-is_key k c h = ground arith

is_key-IsInput : (c : ℕ) → is_key c ≡ true → IsInput c
unfolding is_key
is_key-IsInput c h = ground arith

-- What a branch of `translate_scancode` gives.
abbrev pub Gives : Option (ℕ × Keyboard) → Type 0
Gives r = (c : ℕ) × (k : Keyboard) × (r ≡ some (c, k)) × IsInput c

key_result-Gives :
    (k : Keyboard) (sc : ℕ) → sc < 0x60 → Gives (key_result k (get_elem? (table k.shift) sc))
key_result-Gives k sc h =
    let at = get_elem?-IsSome (table k.shift) sc (omega (arith, length-table k.shift)) in
    rw at.1 (
      key_char k at.0,
      k,
      refl,
      is_key-IsInput _ (
          key_char-is_key k at.0
            (get_elem?-is_key (table k.shift) sc (table-all_keys k.shift) at.1)),
    )

release-Gives : (b : Bool) (k k' : Keyboard) → Gives (if b then some (0, k) else some (0, k'))
release-Gives true k k' = (0, k, refl, inl refl)
release-Gives false k k' = (0, k', refl, inl refl)

-- The last three branches.
press-Gives :
    (sc : ℕ) (k k1 k2 : Keyboard) (b1 b2 : Bool)
    → sc < 0x60
    → Gives (
        if b1
        then some (0, k1)
        else if b2
        then some (0, k2)
        else key_result k (get_elem? (table k.shift) sc))
press-Gives sc k k1 k2 true b2 h = (0, k1, refl, inl refl)
press-Gives sc k k1 k2 false true h = (0, k2, refl, inl refl)
press-Gives sc k k1 k2 false false h = key_result-Gives k sc h

-- For a scancode below 0x60, and for the release of a key, `translate_scancode` reads inside its
-- tables and gives no character, a backspace, a line feed or a printable ASCII character. For a
-- pressed key from 0x60 on it reads behind the end of a table.
pub translate_scancode-Gives :
    (sc : ℕ) (k : Keyboard)
    → sc < 256
    → ((sc < 0x60) ⊎ (128 ≤ sc) → Gives (translate_scancode sc k))
      × ((0x60 ≤ sc) × (sc < 128) → translate_scancode sc k ≡ none)
unfolding translate_scancode table
translate_scancode-Gives sc k h = (inside, outside)
  where
    below : (sc < 0x60) ⊎ (128 ≤ sc) → has_bit sc 7 ≡ false → sc < 0x60
    below o down = ground arith

    inside : (sc < 0x60) ⊎ (128 ≤ sc) → Gives (translate_scancode sc k)
    inside o = elim (Bool-cases (has_bit sc 7)) [
      | inl up ↦ rw up (
          release-Gives (low_bits sc 7 == 0x2A || low_bits sc 7 == 0x36)
            (record k { shift = false }) k)
      | inr down ↦ elim (Bool-cases (sc == enter_key)) [
        | inl enter ↦ rw (down, enter) (10, k, refl, inr (inr (inl refl)))
        | inr n ↦ elim (Bool-cases (sc == 0x0E)) [
          | inl back ↦ rw (down, n, back) (8, k, refl, inr (inl refl))
          | inr m ↦
              rw (down, n, m)
                (press-Gives sc k (record k { shift = true }) (record k { caps = not k.caps })
                  (sc == 0x2A || sc == 0x36) (sc == 0x3A) (below o down))
        ]
      ]
    ]

    outside : (0x60 ≤ sc) × (sc < 128) → translate_scancode sc k ≡ none
    outside (lo, hi) =
        let past : get_elem? (table k.shift) sc ≡ none =
          get_elem?-none (table k.shift) sc (omega (arith, length-table k.shift)) in
        ground (arith, past)
