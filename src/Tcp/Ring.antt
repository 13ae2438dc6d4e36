-- ===== src/Tcp/Ring.antt =====
-- The 64 KiB ring buffer of a session: `write_ring_buffer` and `read_ring_buffer`.
use intrusion_detection.Base.{
  ℕ, zero, suc, ◌+◌, ◌-◌, ◌%◌, ◌≤◌, ◌<◌, ◌≡◌, refl, ap, ◌∙◌, ◌&&◌, ltb, leb, List, [], ◌∷◌, ◌++◌,
  length, get_or, take, drop, length-append, length-take, get_or-take, get_or-drop, sym,
  if◌then◌else◌, arith,
}
use mathlib.Core.Path.{ap₂}

abbrev pub window_size : ℕ
window_size = 65536

-- A block of memory, by its byte at each index.
abbrev pub Memory : Type 0
Memory = ℕ → ℕ

-- `memcpy(&m[at], source, n)`
abbrev pub copy_in : Memory → ℕ → List ℕ → ℕ → Memory
copy_in m at source n i = if leb at i && ltb i (at + n) then get_or source (i - at) 0 else m i

-- The `n` bytes from index `at` on, as `memcpy(out, &m[at], n)` takes them.
unfoldable pub copy_out : Memory → ℕ → ℕ → List ℕ
copy_out m at zero = []
copy_out m at (suc n) = m at ∷ copy_out m (at + 1) n

unfoldable pub write_ring_buffer : ℕ → List ℕ → ℕ → Memory → Memory
write_ring_buffer start source len m =
    let s = start % window_size in
    let first = window_size - s in
    if ltb window_size (s + len)
    then copy_in (copy_in m s source first) 0 (drop first source) (len - first)
    else copy_in m s source len

unfoldable pub read_ring_buffer : ℕ → ℕ → Memory → List ℕ
read_ring_buffer start len m =
    let s = start % window_size in
    let first = window_size - s in
    if ltb window_size (s + len)
    then copy_out m s first ++ copy_out m 0 (len - first)
    else copy_out m s len

-- The distance from index `start` to index `i`, going up round the ring.
abbrev pub ahead : ℕ → ℕ → ℕ
ahead start i = (i + window_size - start % window_size) % window_size

-- A write puts the byte at distance `k` from its start where the ring index says, and changes no
-- other byte.
pub write_ring_buffer_lem :
    (start : ℕ) (source : List ℕ) (len : ℕ) (m : Memory) (i : ℕ)
    → len ≤ window_size
    → i < window_size
    → write_ring_buffer start source len m i
      ≡ (if ltb (ahead start i) len then get_or source (ahead start i) 0 else m i)
unfolding write_ring_buffer
write_ring_buffer_lem start source len m i hl hi =
    ground (arith, get_or-drop (window_size - start % window_size) source i 0)

get_or-copy_out : (m : Memory) (at n j : ℕ) → j < n → get_or (copy_out m at n) j 0 ≡ m (at + j)
unfolding copy_out
get_or-copy_out m at zero j h = elim h [ ]
get_or-copy_out m at (suc n) zero h = ap m (omega arith)
get_or-copy_out m at (suc n) (suc j) h =
    get_or-copy_out m (at + 1) n j (omega arith) ∙ ap m (omega arith)

pub length-copy_out : (m : Memory) (at n : ℕ) → length (copy_out m at n) ≡ n
unfolding copy_out
length-copy_out m at zero = refl
length-copy_out m at (suc n) = ap suc (length-copy_out m (at + 1) n)

get_or-append :
    (xs ys : List ℕ) (j : ℕ)
    → get_or (xs ++ ys) j 0
      ≡ (if ltb j (length xs) then get_or xs j 0 else get_or ys (j - length xs) 0)
get_or-append [] ys j = ground arith
get_or-append (x ∷ xs) ys zero = ground arith
get_or-append (x ∷ xs) ys (suc j) = ground (arith, get_or-append xs ys j)

pub length-read_ring_buffer :
    (start len : ℕ) (m : Memory) → len ≤ window_size → length (read_ring_buffer start len m) ≡ len
unfolding read_ring_buffer
length-read_ring_buffer start len m h = ground (
  arith,
  length-append (copy_out m (start % window_size) (window_size - start % window_size))
      (copy_out m 0 (len - (window_size - start % window_size))),
  length-copy_out m (start % window_size) (window_size - start % window_size),
  length-copy_out m 0 (len - (window_size - start % window_size)),
  length-copy_out m (start % window_size) len,
)

-- A read gives the bytes from its start on, going round at the end of the ring.
pub read_ring_buffer_lem :
    (start len : ℕ) (m : Memory) (j : ℕ)
    → j < len
    → len ≤ window_size
    → get_or (read_ring_buffer start len m) j 0 ≡ m ((start + j) % window_size)
unfolding read_ring_buffer
read_ring_buffer_lem start len m j hj hl =
    let s = start % window_size in
    let first = window_size - s in
    ground (
      arith,
      get_or-append (copy_out m s first) (copy_out m 0 (len - first)) j,
      length-copy_out m s first,
      get_or-copy_out m s first j,
      get_or-copy_out m 0 (len - first) (j - first),
      get_or-copy_out m s len j,
    )

-- A list is what `copy_out` takes if it has the length and the bytes.
pub copy_out-ext :
    (stream : Memory) (n m : ℕ) (xs : List ℕ)
    → length xs ≡ m
    → ((j : ℕ) → j < m → get_or xs j 0 ≡ stream (n + j))
    → xs ≡ copy_out stream n m
unfolding copy_out
copy_out-ext stream n zero [] e h = refl
copy_out-ext stream n zero (x ∷ xs) e h = absurd (omega arith)
copy_out-ext stream n (suc m) [] e h = absurd (omega arith)
copy_out-ext stream n (suc m) (x ∷ xs) e h = ap₂ ◌∷◌ (h 0 (omega arith) ∙ ap stream (omega arith)) (
    copy_out-ext stream (n + 1) m xs (omega arith)
      (λ j hj. h (suc j) (omega arith) ∙ ap stream (omega arith)))

-- What is written is read back, also round the end of the ring: of a source of at least `len` bytes, the
-- first `len`, for at most 65536 of them.
pub read_ring_buffer-write_ring_buffer :
    (start : ℕ) (source : List ℕ) (len : ℕ) (m : Memory)
    → len ≤ window_size
    → len ≤ length source
    → read_ring_buffer start len (write_ring_buffer start source len m) ≡ take len source
read_ring_buffer-write_ring_buffer start source len m fits enough =
    let bytes : Memory = λ j. get_or source j 0 in
    let written = write_ring_buffer start source len m in
    copy_out-ext bytes 0 len _ (length-read_ring_buffer start len written fits) (λ j hj.
      let i = (start + j) % window_size in
      let near : ahead start i ≡ j = omega arith in
      read_ring_buffer_lem start len written j hj fits
      ∙ ground (arith, write_ring_buffer_lem start source len m i fits, ap bytes near))
    ∙ sym (
        copy_out-ext bytes 0 len (take len source) (omega (arith, length-take {0} len source))
          (λ j hj. get_or-take len source j 0 hj ∙ ap bytes (omega arith)))
