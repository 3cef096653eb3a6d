-- ===== src/Ipc/Messages.antt =====
-- The messages of Linux_Multi_Server_Ipc/: bytes in a segment of shared memory, which server.cpp
-- writes and client.cpp reads, and the pieces that client.cpp reads from a socket.
pub mod RoundTrip
use operating_systems.Base.{
  ℕ, zero, suc, ◌==◌, ltb, if◌then◌else◌, Bool, true, false, Option, none, some, List, [], ◌∷◌,
  ◌++◌, length, map,
}

-- SHARED_MEMORY_SIZE.
abbrev pub shared_memory_size : ℕ
shared_memory_size = 4096

-- A segment's bytes by their offsets.
abbrev pub Segment : Type 0
Segment = ℕ → ℕ

abbrev pub put : Segment → ℕ → ℕ → Segment
put memory i byte j = if i == j then byte else memory j

abbrev pub nul : ℕ → ℕ
nul byte = 0

-- What `strncpy` copies: after a NUL only NULs.
unfoldable pub padded : List ℕ → List ℕ
padded [] = []
padded (byte ∷ bytes) =
    let rest = padded bytes in if byte == 0 then 0 ∷ map nul bytes else byte ∷ rest

unfoldable pub store : List ℕ → ℕ → Segment → Segment
store [] i memory = memory
store (byte ∷ bytes) i memory = store bytes (suc i) (put memory i byte)

-- The copy and the closing NUL of `write_to_shm`; `none` is a write behind the segment.
unfoldable pub write_message : List ℕ → Segment → Option Segment
write_message msg memory =
    if ltb (length msg) shared_memory_size
    then some (put (store (padded msg) 0 memory) (length msg) 0)
    else none

-- The loop of `get_message_from_shm` from `i`, with `rounds` bytes to the end of the segment.
unfoldable pub read_message : ℕ → ℕ → Segment → List ℕ
read_message zero i memory = []
read_message (suc rounds) i memory =
    let rest = read_message rounds (suc i) memory in if memory i == 0 then [] else memory i ∷ rest

-- `msg += buffer`: the bytes up to the first NUL.
unfoldable pub c_string : List ℕ → List ℕ
c_string [] = []
c_string (byte ∷ bytes) = let rest = c_string bytes in if byte == 0 then [] else byte ∷ rest

-- The loop of `get_message_from_socket` over what the calls of `read` give until they give nothing.
unfoldable pub read_pieces : List (List ℕ) → List ℕ → List ℕ
read_pieces [] msg = msg
read_pieces (buffer ∷ reads) msg = read_pieces reads (msg ++ c_string buffer)
