-- ===== src/Fat32/File/Copying.antt =====
-- One round of `fat32_read` at the start of a cluster, and the lists and sums behind it.
use vidga_os.Base.{
  ℕ, zero, suc, ◌+◌, ◌-◌, ◌*◌, ◌^◌, ◌≤◌, ◌<◌, ◌≡◌, refl, sym, ap, ◌∙◌, false, none, some, List, [],
  ◌∷◌, ◌++◌, arith, min, leb, ◌==◌, if◌then◌else◌, length, take, length-take, get_or, u32,
}
use vidga_os.Bytes.{bytes_at}
use vidga_os.Bytes.Laws.{bytes_at_all}
use vidga_os.Fat32.File.{OpenFile, Reading, to_copy, copy_round}

pub get_or-take : (n : ℕ) (xs : List ℕ) (i d : ℕ) → i < n → get_or (take n xs) i d ≡ get_or xs i d
get_or-take zero xs i d h = absurd (omega arith)
get_or-take (suc n) [] i d h = refl
get_or-take (suc n) (x ∷ xs) zero d h = refl
get_or-take (suc n) (x ∷ xs) (suc i) d h = get_or-take n xs i d (omega arith)

pub take-append_front : (n : ℕ) (xs ys : List ℕ) → n ≤ length xs → take n (xs ++ ys) ≡ take n xs
take-append_front zero xs ys h = refl
take-append_front (suc n) [] ys h = absurd (omega arith)
take-append_front (suc n) (x ∷ xs) ys h = ap (λ l. x ∷ l) (take-append_front n xs ys (omega arith))

pub take-append :
    (n m : ℕ) (xs ys : List ℕ) → n ≡ length xs + m → take n (xs ++ ys) ≡ xs ++ take m ys
take-append n m [] ys h = ap (λ k. take k ys) (omega arith)
take-append zero m (x ∷ xs) ys h = absurd (omega arith)
take-append (suc n) m (x ∷ xs) ys h = ap (λ l. x ∷ l) (take-append n m xs ys (omega arith))

-- The bytes that a round copies from the start of a cluster.
pub bytes_at-take : (n : ℕ) (xs : List ℕ) → n ≤ length xs → bytes_at xs 0 n ≡ take n xs
bytes_at-take n xs h =
    bytes_at_all xs (take n xs) 0 n (omega (arith, length-take n xs))
      (λ k lt. ap (λ i. get_or xs i 0) (omega arith) ∙ sym (get_or-take n xs k 0 lt))

pub at_start : (c : ℕ) → (if leb c c then 0 else c) ≡ 0
at_start c = ground arith

-- What is left after a whole cluster of `c` bytes: of `w` bytes wanted, of which `k` have been
-- copied, and `f` bytes of the file, up to `p`.
pub advance :
    (w f k p c : ℕ)
    → k ≤ w
    → p ≤ f
    → c ≤ min (w - k) (f - p)
    → (min (w - k) (f - p) ≡ c + min (w - (k + c)) (f - (p + c))) × (k + c ≤ w) × (p + c ≤ f)
advance w f k p c hk hp h = (omega arith, omega arith, omega arith)

pub fewer : (n m l c : ℕ) → n ≡ c + m → n ≤ suc l * c → m ≤ l * c
fewer n m l c e h = let expand : suc l * c ≡ c + l * c = omega arith in omega (arith, expand)

pub whole_cluster : (xs : List ℕ) → bytes_at xs 0 (length xs) ≡ xs
whole_cluster xs =
    bytes_at_all xs xs 0 (length xs) refl (λ k lt. ap (λ i. get_or xs i 0) (omega arith))

-- The state of the call after a cluster has been read at its start.
abbrev pub loaded : ℕ → List ℕ → Reading → Reading
loaded next bytes r = record r {
  file = record r.file { cluster = next };
  cluster_data = some bytes;
}

-- That state after a round that has copied `m` bytes of the cluster.
abbrev pub copied_from : ℕ → ℕ → ℕ → List ℕ → Reading → Reading
copied_from cluster_size m next bytes r = record (loaded next bytes r) {
  file = record r.file {
    cluster = next;
    position = r.file.position + m;
    cluster_pos = if leb cluster_size m then 0 else m;
  };
  copied = r.copied ++ bytes_at bytes 0 m;
  bytes_read = r.bytes_read + m;
}

pub copy_round-start :
    (cluster_size size m next : ℕ) (bytes : List ℕ) (r : Reading)
    → r.file.cluster_pos ≡ 0
    → to_copy cluster_size size r ≡ m
    → 0 < m
    → m < 2 ^ 32
    → r.bytes_read + m < 2 ^ 32
    → r.file.position + m < 2 ^ 32
    → copy_round cluster_size size (loaded next bytes r)
      ≡ some (copied_from cluster_size m next bytes r)
unfolding copy_round
copy_round-start cluster_size size m next bytes r e tm pos small k p =
    let some_left : (m == 0) ≡ false = ground arith in
    let at : u32 (r.file.cluster_pos + m) ≡ m = omega arith in
    let position : u32 (r.file.position + m) ≡ r.file.position + m = omega arith in
    let count : u32 (r.bytes_read + m) ≡ r.bytes_read + m = omega arith in
    rw (tm, some_left, position, count, at, e) refl

-- How much the first round copies.
pub to_copy-start :
    (cluster_size size : ℕ) (r : Reading)
    → r.file.cluster_pos ≡ 0
    → cluster_size < 2 ^ 32
    → size < 2 ^ 32
    → r.file.file_size < 2 ^ 32
    → r.bytes_read ≤ size
    → r.file.position ≤ r.file.file_size
    → to_copy cluster_size size r
      ≡ min cluster_size (min (size - r.bytes_read) (r.file.file_size - r.file.position))
to_copy-start cluster_size size r e c s f k p = omega arith

-- The start of a call.
abbrev pub fresh : OpenFile → Reading
fresh file = record { file = file; copied = []; bytes_read = 0; cluster_data = none }

-- A call that starts inside a cluster has something to copy.
pub to_copy-inside :
    (cluster_size want : ℕ) (file : OpenFile)
    → file.cluster_pos < cluster_size
    → cluster_size < 2 ^ 32
    → 0 < want
    → want < 2 ^ 32
    → file.position < file.file_size
    → file.file_size < 2 ^ 32
    → (to_copy cluster_size want (fresh file) == 0) ≡ false
to_copy-inside cluster_size want file room small some_wanted w some_left f = ground arith
