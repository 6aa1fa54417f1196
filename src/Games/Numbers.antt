-- ===== src/Games/Numbers.antt =====
-- `read_number`: which number the keys make, and how it fits the numbers that are printed.
pub mod Printed
use vidga_os.Base.{
  ℕ, zero, suc, ◌+◌, ◌-◌, ◌*◌, ◌^◌, ◌≤◌, ◌<◌, ◌≡◌, ◌⊎◌, refl, sym, ap, ◌∙◌, append-nil,
  append_assoc, inl, inr, true, false, ◌&&◌, Option, none, some, List, [], ◌∷◌, ◌++◌, arith, ltb,
  leb, Bool-cases, if◌then◌else◌, length, take, length-append, length-take, All, All-append,
  All-take, Text,
}
use mathlib.Core.Path.{subst}
use vidga_os.Vga.{Screen, number_text}
use vidga_os.Kernel.{Kernel, Run, ok, waiting, and_then, Cmd, pure, ◌>>=◌, ◌>>◌}
use vidga_os.Shell.{is_enter, is_erase}
use vidga_os.Games.{is_digit, parse_loop, edit_number, number_loop, read_number}
use vidga_os.Games.Numbers.Printed.{IsDigits, parse_loop-lt, number_text-IsDigits}

-- What a key does to the digits typed so far.
unfoldable pub edit_digits : Text → ℕ → Text
edit_digits buf c =
    if is_erase c
    then take (length buf - 1) buf
    else if is_digit c && ltb (length buf) 6
    then buf ++ c ∷ []
    else buf

-- The digits at the key that ends the number, and the keys after it.
unfoldable pub typed : List ℕ → Text → Option (Text × List ℕ)
typed [] buf = none
typed (c ∷ cs) buf = if is_enter c then some (buf, cs) else typed cs (edit_digits buf c)

-- What `typed` gives fits the run: a wait, or a result with those keys left; the screen may change.
unfoldable pub Reads : {D : Type 0} → Kernel D → Option (Text × List ℕ) → Run D Text → Type 0
Reads s none run = run ≡ waiting
Reads s (some (buf, rest)) run =
    (screen : Screen) × (run ≡ ok buf (record s { keys = rest; screen = screen }))

nothing_left : (buf : Text) → length buf ≤ 0 → take (length buf - 1) buf ≡ buf
nothing_left [] h = refl
nothing_left (x ∷ buf) h = absurd (omega arith)

module _ {D : Type 0} (design : ℕ) where
  edit_number-edit_digits :
      (c : ℕ) (buf : Text) (s : Kernel D)
      → (screen : Screen) × (edit_number design c buf s
          ≡ ok (edit_digits buf c) (record s { screen = screen }))
  unfolding edit_number edit_digits
  edit_number-edit_digits c buf s = elim (Bool-cases (is_erase c)) [
    | inl e ↦ elim (Bool-cases (ltb 0 (length buf))) [
      | inl some_left ↦ rw (e, some_left) (_, refl)
      | inr none_left ↦
          let same = nothing_left buf (ground arith) in rw (e, none_left, same) (_, refl)
    ]
    | inr n ↦ elim (Bool-cases (is_digit c && ltb (length buf) 6)) [
      | inl fits ↦ rw (n, fits) (_, refl)
      | inr other ↦ rw (n, other) (_, refl)
    ]
  ]

  Reads-after :
      (s : Kernel D) (keys : List ℕ) (screen : Screen) (o : Option (Text × List ℕ))
      (run : Run D Text)
      → Reads (record s { keys = keys; screen = screen }) o run
      → Reads s o run
  unfolding Reads
  Reads-after s keys screen none run h = h
  Reads-after s keys screen (some (buf, rest)) run h = h

  pub number_loop-Reads :
      (cs : List ℕ) (buf : Text) (s : Kernel D)
      → Reads s (typed cs buf) (number_loop design cs buf s)
  unfolding number_loop typed Reads
  number_loop-Reads [] buf s = refl
  number_loop-Reads (c ∷ cs) buf s = elim (Bool-cases (is_enter c)) [
    | inl e ↦ rw e (_, refl)
    | inr n ↦
        let step = edit_number-edit_digits c buf (record s { keys = cs }) in
        rw (n, step.1)
          (Reads-after s cs step.0 (typed cs (edit_digits buf c)) _
            (number_loop-Reads cs (edit_digits buf c) (record s { keys = cs; screen = step.0 })))
  ]

-- A reading that leaves fewer than `n` keys, of six digits at most.
unfoldable pub IsReading : ℕ → Option (Text × List ℕ) → Type 0
IsReading n none = Unit {0}
IsReading n (some (buf, rest)) = IsDigits buf × (length buf ≤ 6) × (length rest < n)

IsReading-suc : (n : ℕ) (o : Option (Text × List ℕ)) → IsReading n o → IsReading (suc n) o
unfolding IsReading
IsReading-suc n none h = tt
IsReading-suc n (some (buf, rest)) (d, le, lt) = (d, le, omega arith)

edit_digits-IsDigits :
    (buf : Text) (c : ℕ)
    → IsDigits buf
    → length buf ≤ 6
    → IsDigits (edit_digits buf c) × (length (edit_digits buf c) ≤ 6)
unfolding edit_digits
edit_digits-IsDigits buf c d le = elim (Bool-cases (is_erase c)) [
  | inl e ↦
      rw e (All-take _ (length buf - 1) buf d, omega (arith, length-take (length buf - 1) buf))
  | inr n ↦ elim (Bool-cases (is_digit c && ltb (length buf) 6)) [
    | inl fits ↦
        rw (n, fits)
          (
            All-append _ buf (c ∷ []) d (ground arith, tt),
            ground (arith, length-append buf (c ∷ [])),
          )
    | inr other ↦ rw (n, other) (d, le)
  ]
]

pub typed-IsReading :
    (cs : List ℕ) (buf : Text)
    → IsDigits buf
    → length buf ≤ 6
    → IsReading (length cs) (typed cs buf)
unfolding typed IsReading
typed-IsReading [] buf d le = tt
typed-IsReading (c ∷ cs) buf d le = elim (Bool-cases (is_enter c)) [
  | inl e ↦ rw e (d, le, omega arith)
  | inr n ↦
      let next = edit_digits-IsDigits buf c d le in
      rw n (
        IsReading-suc (length cs) (typed cs (edit_digits buf c))
          (typed-IsReading cs (edit_digits buf c) next.0 next.1))
]

-- A number typed as it is printed, digit by digit.
pub typed-digits :
    (ds buf : Text) (rest : List ℕ)
    → IsDigits ds
    → length buf + length ds ≤ 6
    → typed (ds ++ 10 ∷ rest) buf ≡ some (buf ++ ds, rest)
unfolding typed edit_digits
typed-digits [] buf rest d le = ap (λ b. some (b, rest)) (sym (append-nil buf))
typed-digits (c ∷ ds) buf rest (d, ds_digits) le =
    let other : is_enter c ≡ false = ground arith in
    let kept : is_erase c ≡ false = ground arith in
    let room : ltb (length buf) 6 ≡ true = ground arith in
    rw (other, kept, d, room)
      (typed-digits ds (buf ++ c ∷ []) rest ds_digits (omega (arith, length-append buf (c ∷ [])))
        ∙ ap (λ b. some (b, rest)) (append_assoc buf (c ∷ []) ds))

module _ {D : Type 0} where
  -- The number that a reading makes.
  unfoldable pub Gives : Kernel D → Option (Text × List ℕ) → Run D ℕ → Type 0
  Gives s none run = run ≡ waiting
  Gives s (some (buf, rest)) run =
      (screen : Screen) × (run ≡ ok (parse_loop buf 0) (record s { keys = rest; screen = screen }))

  Reads-Gives :
      (s : Kernel D) (o : Option (Text × List ℕ)) (run : Run D Text)
      → Reads s o run
      → Gives s o (and_then run (λ buf. pure (parse_loop buf 0)))
  unfolding Reads Gives
  Reads-Gives s none run e = rw e refl
  Reads-Gives s (some (buf, rest)) run (screen, e) = rw e (screen, refl)

  -- A run of `read_number` that waits, or that gives a number below 10 ^ 6, has used a key, and
  -- has changed nothing but the keys and the screen.
  abbrev pub Answers : Kernel D → Run D ℕ → Type 0
  Answers s run =
      (run ≡ waiting)
      ⊎ ((num : ℕ) × (rest : List ℕ) × (screen : Screen) × (num < 10 ^ 6)
          × (length rest < length s.keys)
          × (run ≡ ok num (record s { keys = rest; screen = screen })))

  Gives-Answers :
      (s : Kernel D) (o : Option (Text × List ℕ)) (run : Run D ℕ)
      → IsReading (length s.keys) o
      → Gives s o run
      → Answers s run
  unfolding IsReading Gives
  Gives-Answers s none run h e = inl e
  Gives-Answers s (some (buf, rest)) run (digits, short, fewer) (screen, e) =
      inr (parse_loop buf 0, rest, screen, parse_loop-lt buf short digits, fewer, e)

module _ {D : Type 0} (design : ℕ) where
  pub read_number-Gives : (s : Kernel D) → Gives s (typed s.keys []) (read_number design s)
  unfolding read_number
  read_number-Gives s = Reads-Gives s (typed s.keys []) _ (number_loop-Reads design s.keys [] s)

  -- The digits that `print_msg_num` prints for a number below 10 ^ 6, then the key that ends a
  -- line: `read_number` gives the number back, leaves the keys after it, and changes nothing but
  -- these and the screen.
  pub read_number-number_text :
      (num : ℕ) (rest : List ℕ) (s : Kernel D)
      → num < 10 ^ 6
      → s.keys ≡ number_text num ++ 10 ∷ rest
      → (screen : Screen) × (read_number design s
          ≡ ok num (record s { keys = rest; screen = screen }))
  unfolding Gives
  read_number-number_text num rest s lt e =
      let (digits, short, value) = number_text-IsDigits num lt in
      let reading : typed s.keys [] ≡ some (number_text num, rest) =
        rw e (typed-digits (number_text num) [] rest digits (omega (arith, short))) in
      let (screen, run) =
        subst (λ o. Gives s o (read_number design s)) reading (read_number-Gives s) in
      (screen, run ∙ ap (λ n. ok n (record s { keys = rest; screen = screen })) value)

  pub read_number-Answers : (s : Kernel D) → Answers s (read_number design s)
  read_number-Answers s =
      Gives-Answers s (typed s.keys []) (read_number design s)
        (typed-IsReading s.keys [] tt (omega arith)) (read_number-Gives s)
