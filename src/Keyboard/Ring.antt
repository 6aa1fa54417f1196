-- ===== src/Keyboard/Ring.antt =====
-- The ring buffer of the keyboard driver as a bounded queue.
use vidga_os.Base.{
  ℕ, zero, suc, ◌+◌, ◌-◌, ◌%◌, ◌<◌, ◌≡◌, refl, sym, ap, ap₂, ◌∙◌, ◌≢◌, inl, inr, true, false,
  Option, none, some, List, [], ◌∷◌, ◌++◌, arith, ◌==◌, Bool-cases, Option-cases, if◌then◌else◌,
  length, get_or, set, length-set, get_or-set_self, get_or-set_ne,
}
use vidga_os.Keyboard.{Keyboard, buf_size, kb_buf_push, getchar}

-- Both indices lie in the buffer.
pub record IsValid (k : Keyboard) : Type 0 where
  pub room : length k.buf ≡ buf_size
  pub head_in : k.head < buf_size
  pub tail_in : k.tail < buf_size

-- The characters from index `t` on, as many as `n`, going round at the end of the buffer.
abbrev pub window : List ℕ → ℕ → ℕ → List ℕ
window buf t zero = []
window buf t (suc n) = get_or buf t 0 ∷ window buf ((t + 1) % buf_size) n

abbrev pub waiting : Keyboard → ℕ
waiting k = (k.head + buf_size - k.tail) % buf_size

-- The characters that have been stored and not been read, the oldest first.
abbrev pub contents : Keyboard → List ℕ
contents k = window k.buf k.tail (waiting k)

length-window : (buf : List ℕ) (t n : ℕ) → length (window buf t n) ≡ n
length-window buf t zero = refl
length-window buf t (suc n) = ap suc (length-window buf ((t + 1) % buf_size) n)

-- A character stored just behind a window extends it.
window-set :
    (buf : List ℕ) (c n t i : ℕ)
    → length buf ≡ buf_size
    → t < buf_size
    → n < buf_size
    → i ≡ (t + n) % buf_size
    → window (set buf i c) t (suc n) ≡ window buf t n ++ (c ∷ [])
window-set buf c zero t i room ht hn e =
    let e' : i ≡ t = omega arith in rw (e', get_or-set_self buf t c 0 (omega arith))
window-set buf c (suc n) t i room ht hn e =
    ap₂ ◌∷◌ (get_or-set_ne buf i t c 0 (omega arith))
      (window-set buf c n ((t + 1) % buf_size) i room (omega arith) (omega arith) (omega arith))

window_of_ne_zero :
    (buf : List ℕ) (t n : ℕ)
    → n ≢ 0
    → window buf t n ≡ get_or buf t 0 ∷ window buf ((t + 1) % buf_size) (n - 1)
window_of_ne_zero buf t zero h = absurd (h refl)
window_of_ne_zero buf t (suc n) h = ap (λ m. window buf t (suc m)) (omega arith)

-- The queue: at most 127 characters, and one that finds it full is dropped.
abbrev pub capacity : ℕ
capacity = buf_size - 1

unfoldable pub enqueue : ℕ → List ℕ → List ℕ
enqueue c q = if length q == capacity then q else q ++ (c ∷ [])

unfoldable pub dequeue : List ℕ → Option (ℕ × List ℕ)
dequeue [] = none
dequeue (c ∷ q) = some (c, q)

abbrev pub view : Option (ℕ × Keyboard) → Option (ℕ × List ℕ)
view none = none
view (some (c, k)) = some (c, contents k)

pub kb_buf_push-IsValid : (c : ℕ) {k : Keyboard} → IsValid k → IsValid (kb_buf_push c k)
unfolding kb_buf_push
kb_buf_push-IsValid c {k} v = ground (arith, length-set k.buf k.head c)

pub kb_buf_push-enqueue :
    (c : ℕ) (k : Keyboard) → IsValid k → contents (kb_buf_push c k) ≡ enqueue c (contents k)
unfolding kb_buf_push enqueue
kb_buf_push-enqueue c k v = elim (Bool-cases ((k.head + 1) % buf_size == k.tail)) [
  | inl full ↦
      let count : (length (contents k) == capacity) ≡ true =
        ground (arith, length-window k.buf k.tail (waiting k)) in
      rw (full, count)
  | inr room ↦
      let count : (length (contents k) == capacity) ≡ false =
        ground (arith, length-window k.buf k.tail (waiting k)) in
      let more : ((k.head + 1) % buf_size + buf_size - k.tail) % buf_size ≡ suc (waiting k) =
        ground arith in
      rw (room, count, more)
        (window-set k.buf c (waiting k) k.tail k.head v.room v.tail_in (omega arith) (omega arith))
]

pub getchar-dequeue : (k : Keyboard) → IsValid k → view (getchar k) ≡ dequeue (contents k)
unfolding getchar dequeue
getchar-dequeue k v = elim (Bool-cases (k.tail == k.head)) [
  | inl none_left ↦ let count : waiting k ≡ 0 = ground arith in rw (none_left, count)
  | inr some_left ↦
      let fewer : (k.head + buf_size - (k.tail + 1) % buf_size) % buf_size ≡ waiting k - 1 =
        ground arith in
      rw (some_left, fewer, window_of_ne_zero k.buf k.tail (waiting k) (ground arith))
]

pub getchar-IsValid : {k k' : Keyboard} {c : ℕ} → IsValid k → getchar k ≡ some (c, k') → IsValid k'
unfolding getchar
getchar-IsValid v e = ground arith

-- What happens at the buffer: an interrupt stores a character, or a reader asks for one.
pub data Event : Type 0 where
  typed : ℕ → Event
  asked : Event

-- One reply, and those that follow: from the state as it was if the reader would wait.
abbrev pub answer :
    {S : Type 0} → Option (ℕ × S) → List (Option ℕ) → (S → List (Option ℕ)) → List (Option ℕ)
answer none same next = none ∷ same
answer (some (c, s)) same next = some c ∷ next s

-- What the readers get, `none` for one that would wait.
unfoldable pub run : Keyboard → List Event → List (Option ℕ)
run k [] = []
run k (typed c ∷ es) = run (kb_buf_push c k) es
run k (asked ∷ es) = let same = run k es in answer (getchar k) same (λ k'. run k' es)

unfoldable pub run_queue : List ℕ → List Event → List (Option ℕ)
run_queue q [] = []
run_queue q (typed c ∷ es) = run_queue (enqueue c q) es
run_queue q (asked ∷ es) =
    let same = run_queue q es in answer (dequeue q) same (λ q'. run_queue q' es)

-- However interrupts and reads follow one another, the readers get what they would get from the
-- queue of at most 127 characters that drops a character when it is full.
pub run_refines :
    (es : List Event) (k : Keyboard) → IsValid k → run k es ≡ run_queue (contents k) es
unfolding run run_queue
run_refines [] k v = refl
run_refines (typed c ∷ es) k v =
    run_refines es (kb_buf_push c k) (kb_buf_push-IsValid c v)
    ∙ ap (λ q. run_queue q es) (kb_buf_push-enqueue c k v)
run_refines (asked ∷ es) k v = elim (Option-cases (getchar k)) [
  | inl e ↦
      let d : dequeue (contents k) ≡ none = sym (getchar-dequeue k v) ∙ ap view e in
      rw (e, d) (ap (λ l. none ∷ l) (run_refines es k v))
  | inr ((c, k'), e) ↦
      let d : dequeue (contents k) ≡ some (c, contents k') =
        sym (getchar-dequeue k v) ∙ ap view e in
      rw (e, d) (ap (λ l. some c ∷ l) (run_refines es k' (getchar-IsValid v e)))
]
