-- ===== src/Shell/Editing.antt =====
-- The line editor against the line as a list of characters.
use vidga_os.Base.{
  ℕ, suc, ◌+◌, ◌-◌, ◌≤◌, ◌≡◌, ◌≢◌, refl, sym, ap, ◌∙◌, inl, inr, true, false, ◌&&◌, List, [], ◌∷◌,
  ◌++◌, arith, ltb, ◌==◌, Bool-cases, if◌then◌else◌, length, set, take, length-set, All, All-take,
  Text, IsText,
}
use mathlib.Core.Path.{subst}
use vidga_os.Kernel.{Kernel, Run, ok, fault, out_of_fuel, waiting, and_then, Cmd, pure, ◌>>=◌}
use vidga_os.Shell.Prefixes.{length-take_le, take-take, take-set, c_str-set, All-snoc}
use vidga_os.Shell.{
  Editor, is_enter, is_erase, is_shown, erase, insert, enter, run_line, print_prompt, process_input,
  process_keys,
}

-- The characters typed and not erased.
abbrev pub line : Editor → Text
line ed = take ed.buffer_idx ed.input_buffer

pub record IsValid (ed : Editor) : Type 0 where
  pub room : length ed.input_buffer ≡ 256
  pub index : ed.buffer_idx ≤ 255
  pub text : IsText (line ed)

-- What a key does to the line.
unfoldable pub edit : Text → ℕ → Text
edit l c =
    if is_erase c
    then take (length l - 1) l
    else if ltb (length l) 255 && is_shown c
    then l ++ c ∷ []
    else l

unfoldable pub edit_all : Text → List ℕ → Text
edit_all l [] = l
edit_all l (c ∷ cs) = edit_all (if c == 0 then l else edit l c) cs

line-empty : (ed : Editor) → ed.buffer_idx ≡ 0 → line ed ≡ take (ed.buffer_idx - 1) (line ed)
line-empty ed e = rw e refl

module _ {D : Type 0} where
  -- Two states that may differ in the screen alone.
  abbrev pub SameBelow : Kernel D → Kernel D → Type 0
  SameBelow s t = t ≡ record s { screen = t.screen }

  -- Two states that may differ in the screen, and in the keys that are left.
  abbrev pub SameButKeys : List ℕ → Kernel D → Kernel D → Type 0
  SameButKeys rest s t = t ≡ record s { keys = rest; screen = t.screen }

  -- The run gives an editor with the line, and touches the screen alone.
  abbrev pub Edits : Kernel D → Text → Run D Editor → Type 0
  Edits s l run =
      (ed : Editor) × (t : Kernel D) × (run ≡ ok ed t) × IsValid ed × (line ed ≡ l) × SameBelow s t

  erase-Edits :
      (design : ℕ) (ed : Editor) (s : Kernel D)
      → IsValid ed
      → Edits s (take (length (line ed) - 1) (line ed)) (erase design ed s)
  unfolding erase
  erase-Edits design ed s v =
      let len = length-take_le ed.buffer_idx ed.input_buffer (omega (arith, v.room, v.index)) in
      let shorter = take-take ed.buffer_idx ed.input_buffer (omega (arith, v.room, v.index)) in
      rw len (elim (Bool-cases (ltb 0 ed.buffer_idx)) [
        | inl some_left ↦ rw some_left (
          record ed { buffer_idx = ed.buffer_idx - 1 },
          _,
          refl,
          record {
            room = v.room;
            index = omega (arith, v.index);
            text =
                subst IsText shorter (All-take (λ c. c ≢ 0) (ed.buffer_idx - 1) (line ed) v.text);
          },
          sym shorter,
          refl,
        )
        | inr none_left ↦ rw none_left (ed, s, refl, v, line-empty ed (ground arith), refl)
      ])

  insert-Edits :
      (design c : ℕ) (ed : Editor) (s : Kernel D)
      → IsValid ed
      → Edits s
          (if ltb (length (line ed)) 255 && is_shown c then line ed ++ c ∷ [] else line ed)
          (insert design c ed s)
  unfolding insert
  insert-Edits design c ed s v =
      let len = length-take_le ed.buffer_idx ed.input_buffer (omega (arith, v.room, v.index)) in
      rw len (elim (Bool-cases (ltb ed.buffer_idx 255 && is_shown c)) [
        | inl fits ↦
            let longer =
              take-set ed.buffer_idx ed.input_buffer c (omega (arith, v.room, v.index)) in
            rw fits (
              record {
                input_buffer = set ed.input_buffer ed.buffer_idx c;
                buffer_idx = ed.buffer_idx + 1;
              },
              _,
              refl,
              record {
                room = length-set ed.input_buffer ed.buffer_idx c ∙ v.room;
                index = ground arith;
                text = subst IsText (sym longer) (All-snoc (line ed) c v.text (ground arith));
              },
              longer,
              refl,
            )
        | inr not_shown ↦ rw not_shown (ed, s, refl, v, refl, refl)
      ])

module _ {D : Type 0} (execute_command : Text → ℕ → Cmd D (Unit {0})) (design : ℕ) where
  process_input-Edits :
      (c : ℕ) (ed : Editor) (s : Kernel D)
      → IsValid ed
      → is_enter c ≡ false
      → Edits s (edit (line ed) c) (process_input execute_command design c ed s)
  unfolding process_input edit
  process_input-Edits c ed s v h = elim (Bool-cases (is_erase c)) [
    | inl e ↦ rw (h, e) (erase-Edits design ed s v)
    | inr n ↦ rw (h, n) (insert-Edits design c ed s v)
  ]

  -- The line is run if it is not empty; then follow the prompt and an empty line.
  abbrev pub finish : Text → List ℕ → Cmd D Editor
  finish l buffer = (if length l == 0 then pure tt else execute_command l design) >>= λ _.
      print_prompt design >>= λ _. pure (record { input_buffer = buffer; buffer_idx = 0 })

  abbrev pub Finishes : List ℕ → Kernel D → Text → Run D Editor → Type 0
  Finishes rest s l run =
      (buffer : List ℕ) × (t : Kernel D) × SameButKeys rest s t × (run ≡ finish l buffer t)

  enter-Finishes :
      (ed : Editor) (s : Kernel D)
      → IsValid ed
      → Finishes s.keys s (line ed) (enter execute_command design ed s)
  unfolding enter run_line
  enter-Finishes ed s v =
      let len = length-take_le ed.buffer_idx ed.input_buffer (omega (arith, v.room, v.index)) in
      let str = c_str-set ed.buffer_idx ed.input_buffer (omega (arith, v.room, v.index)) v.text in
      elim (Bool-cases (ltb 0 ed.buffer_idx)) [
        | inl some_left ↦
            let full : (ed.buffer_idx == 0) ≡ false = ground arith in
            rw (len, some_left, full, str) (_, _, refl, refl)
        | inr none_left ↦
            let empty : (ed.buffer_idx == 0) ≡ true = ground arith in
            rw (len, none_left, empty) (_, _, refl, refl)
      ]

  and_then-pure : {A : Type 0} (run : Run D A) → and_then run pure ≡ run
  and_then-pure (ok a t) = refl
  and_then-pure fault = refl
  and_then-pure out_of_fuel = refl
  and_then-pure waiting = refl

  process_input-enter :
      (ed : Editor) (s : Kernel D)
      → process_input execute_command design 10 ed s ≡ enter execute_command design ed s
  unfolding process_input
  process_input-enter ed s = refl

  Finishes-after :
      (rest keys : List ℕ) (s t : Kernel D) (l l' : Text) (cs : List ℕ) (run : Run D Editor)
      → SameButKeys keys s t
      → l ≡ l'
      → Finishes rest t (edit_all l cs) run
      → Finishes rest s (edit_all l' cs) run
  Finishes-after rest keys s t l l' cs run same e (buffer, u, same', eq) = (
    buffer,
    u,
    same' ∙ ap (λ (x : Kernel D). record x { keys = rest; screen = u.screen }) same,
    eq ∙ ap (λ x. finish (edit_all x cs) buffer u) e,
  )

  -- With a buffer of 256 bytes, its index at most 255 and no NUL in the line, let the keys be some
  -- that do not end the line and then the one that does. After as many rounds, the line that is
  -- run, unless it is empty, is what appending the shown characters, up to 255, and erasing the
  -- last one make of the line so far; before that these keys are read and nothing else but the
  -- screen has changed; after it come the prompt and an empty line.
  pub process_keys-Finishes :
      (keys rest : List ℕ) (ed : Editor) (s : Kernel D)
      → IsValid ed
      → All (λ c. is_enter c ≡ false) keys
      → s.keys ≡ keys ++ 10 ∷ rest
      → Finishes rest s
          (edit_all (line ed) keys)
          (process_keys execute_command design (suc (length keys)) ed s)
  unfolding process_keys edit_all
  process_keys-Finishes [] rest ed s v h e =
      rw (e, and_then-pure, process_input-enter) (enter-Finishes ed (record s { keys = rest }) v)
  process_keys-Finishes (c ∷ cs) rest ed s v (h, hs) e =
      let read = record s { keys = cs ++ 10 ∷ rest } in
      elim (Bool-cases (c == 0)) [
        | inl none_typed ↦
            rw (e, none_typed)
              (Finishes-after rest read.keys s read (line ed) (line ed) cs _ refl refl
                (process_keys-Finishes cs rest ed read v hs refl))
        | inr typed ↦
            let done = process_input-Edits c ed read v h in
            rw (e, typed, done.2)
              (Finishes-after rest read.keys s done.1 (line done.0) (edit (line ed) c) cs _ done.5
                done.4
                (process_keys-Finishes cs rest done.0 done.1 done.3 hs
                  (ap (λ (x : Kernel D). x.keys) done.5)))
      ]
