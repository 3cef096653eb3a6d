-- ===== src/Ipc/Messages/RoundTrip.antt =====
-- A message of Linux_Multi_Server_Ipc/ that is read after it is written.
use mathlib.Core.List.{append_assoc, append-nil}
use operating_systems.Base.{
  ℕ, zero, suc, ◌+◌, ◌≤◌, ◌<◌, ◌≡◌, ◌≢◌, refl, sym, ap, ◌∙◌, ◌==◌, Bool-cases, inl, inr, false,
  none, some, List, [], ◌∷◌, ◌++◌, length, map, flat, All, arith,
}
use operating_systems.Ipc.Messages.{
  shared_memory_size, Segment, nul, put, padded, store, write_message, read_message, c_string,
  read_pieces,
}

length-nul : (bytes : List ℕ) → length (map nul bytes) ≡ length bytes
length-nul [] = refl
length-nul (b ∷ bytes) = omega (arith, length-nul bytes)

length-padded : (bytes : List ℕ) → length (padded bytes) ≡ length bytes
unfolding padded
length-padded [] = refl
length-padded (byte ∷ bytes) = ground (arith, length-padded bytes, length-nul bytes)

-- A store leaves what is in front of it.
store-before :
    (bytes : List ℕ) (i j : ℕ) (memory : Segment) → j < i → store bytes i memory j ≡ memory j
unfolding store
store-before [] i j memory h = refl
store-before (byte ∷ bytes) i j memory h =
    ground (arith, store-before bytes (suc i) j (put memory i byte) (omega arith))

store-first :
    (byte : ℕ) (bytes : List ℕ) (i : ℕ) (memory : Segment) → store (byte ∷ bytes) i memory i ≡ byte
unfolding store
store-first byte bytes i memory =
    store-before bytes (suc i) i (put memory i byte) (omega arith) ∙ ground arith

read_message-nul : (rounds i : ℕ) (m : Segment) → m i ≡ 0 → read_message (suc rounds) i m ≡ []
unfolding read_message
read_message-nul rounds i m e = ground (arith, e)

read_message-byte :
    (rounds i byte : ℕ) (m : Segment)
    → m i ≡ byte
    → (byte == 0) ≡ false
    → read_message (suc rounds) i m ≡ byte ∷ read_message rounds (suc i) m
unfolding read_message
read_message-byte rounds i byte m e z = rw (e, z) refl

-- The bytes up to `end`, where a NUL is put.
read_message-store :
    (end rounds : ℕ) (bytes : List ℕ) (i : ℕ) (m : Segment)
    → length bytes + i ≡ end
    → length bytes < rounds
    → read_message rounds i (put (store (padded bytes) i m) end 0) ≡ c_string bytes
unfolding padded c_string store
read_message-store end zero bytes i m h k = absurd (omega arith)
read_message-store end (suc rounds) [] i m h k =
    read_message-nul rounds i (put (store [] i m) end 0) (ground (arith, h))
read_message-store end (suc rounds) (byte ∷ bytes) i m h k = elim (Bool-cases (byte == 0)) [
  | inl z ↦
      let first = store-first 0 (map nul bytes) i m in
      rw z (
        read_message-nul rounds i (put (store (0 ∷ map nul bytes) i m) end 0)
          (ground (arith, first)))
  | inr z ↦
      let first = store-first byte (padded bytes) i m in
      let here : put (store (byte ∷ padded bytes) i m) end 0 i ≡ byte = ground (arith, first, h) in
      let ih =
        read_message-store end rounds bytes (suc i) (put m i byte) (omega arith) (omega arith) in
      rw z (
        read_message-byte rounds i byte (put (store (byte ∷ padded bytes) i m) end 0) here z
        ∙ ap (λ r. byte ∷ r) ih)
]

-- A message that leaves room for the closing NUL is written inside the segment, and the client
-- reads from it the message up to its first NUL; a longer one is written behind the segment.
pub write_message-read_message :
    (msg : List ℕ) (memory : Segment)
    → (length msg < shared_memory_size
        → (memory' : Segment) × (write_message msg memory ≡ some memory')
          × (read_message shared_memory_size 0 memory' ≡ c_string msg))
      × (shared_memory_size ≤ length msg → write_message msg memory ≡ none)
unfolding write_message
write_message-read_message msg memory = (
  (λ h. (
    put (store (padded msg) 0 memory) (length msg) 0,
    ground (arith, h),
    read_message-store (length msg) shared_memory_size msg 0 memory (omega arith) h,
  )),
  (λ h. ground (arith, h)),
)

c_string-flat : (msg : List ℕ) → All (λ b. b ≢ 0) msg → c_string msg ≡ msg
unfolding c_string
c_string-flat [] h = refl
c_string-flat (byte ∷ bytes) h = ground (arith, h.0, c_string-flat bytes h.1)

-- However a message without NULs is split, the client reads it whole behind what it has read.
pub read_pieces-flat :
    (reads : List (List ℕ)) (msg : List ℕ)
    → All (All (λ b. b ≢ 0)) reads
    → read_pieces reads msg ≡ msg ++ flat (λ buffer. buffer) reads
unfolding read_pieces
read_pieces-flat [] msg h = sym (append-nil msg)
read_pieces-flat (buffer ∷ reads) msg h =
    let ih = read_pieces-flat reads (msg ++ c_string buffer) h.1 in
    let same = c_string-flat buffer h.0 in
    ih
    ∙ ap (λ b. msg ++ b ++ flat (λ c. c) reads) same
    ∙ append_assoc msg buffer (flat (λ c. c) reads)
