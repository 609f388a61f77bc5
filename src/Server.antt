-- ===== src/Server.antt =====
-- The line servers of tools/server: the transformations of upper.c and reverse.c, and the reading
-- of a line and its handling, which the two share. A `char` buffer is a function from indices to
-- bytes; who writes past its end says so.
pub mod Upper
pub mod Reverse
pub mod Lines
pub mod Serve
pub mod Clients
pub mod Closed
pub mod Start
pub mod Client
mod Examples
use libco_lite.Base.{
  ℕ, zero, suc, ◌+◌, ◌-◌, Bool, true, false, Option, none, some, List, [], ◌∷◌, ◌&&◌, ◌||◌, ◌==◌,
  ltb, leb, if◌then◌else◌, update, length,
}

abbrev pub Buffer : Type 0
Buffer = ℕ → ℕ

-- MAXSIZE.
abbrev pub max_size : ℕ
max_size = 1024

abbrev pub newline : ℕ
newline = 10

unfoldable pub is_lowercase : ℕ → Bool
is_lowercase ch = leb b'a' ch && leb ch b'z'

-- `buf[i] + LOW_UP_SETOFF` for a lower-case byte.
unfoldable pub raise : ℕ → ℕ
unfolding is_lowercase
raise ch = if is_lowercase ch then ch - 32 else ch

-- The loop of `upper` from index `i` on, with `r` bytes left below `n`.
unfoldable pub upper_from : (r i : ℕ) → Buffer → Buffer
upper_from zero i buf = buf
upper_from (suc r) i buf =
    let rest = upper_from r (i + 1) (update buf i (raise (buf i))) in
    if buf i == newline then buf else rest

-- The buffer, and the result `n`.
unfoldable pub upper : Buffer → ℕ → Buffer × ℕ
unfolding upper_from
upper buf n = (upper_from n 0 buf, n)

abbrev pub swap : Buffer → ℕ → ℕ → Buffer
swap buf left right = update (update buf left (buf right)) right (buf left)

-- The loop of `reverse`; `fuel` bounds its rounds.
unfoldable pub reverse_from : (fuel left right : ℕ) → Buffer → Option Buffer
reverse_from zero left right buf = none
reverse_from (suc fuel) left right buf =
    let rest = reverse_from fuel (left + 1) (right - 1) (swap buf left right) in
    if ltb left right then rest else some buf

-- `right` starts at `n - 1`; at n = 0 that is -1, and 0 serves as well since the loop does not run.
unfoldable pub reverse : (fuel : ℕ) → Buffer → ℕ → Option (Buffer × ℕ)
unfolding reverse_from
reverse fuel buf n = elim (reverse_from fuel 0 (n - 1) buf) [ none ↦ none | some b ↦ some (b, n) ]

-- What a call of `read` brings: an error, or bytes, none of them where the peer has closed.
pub data Chunk : Type 0 where
  failed : Chunk
  bytes : List ℕ → Chunk

-- The outcome of reading a line: its length with the buffer and what is still to be read, the -1
-- for a closed peer, a write past the end of the buffer, a read before its start, where the -1 of a
-- failed `read` has been added to the length, or no more calls answered.
pub data Line : Type 0 where
  line : ℕ → Buffer → List Chunk → Line
  closed : Buffer → List Chunk → Line
  overrun : Line
  misread : Line
  blocked : Line

-- `read(fd, buf + curr, ...)` of a chunk.
unfoldable pub put_bytes : Buffer → ℕ → List ℕ → Buffer
put_bytes buf curr [] = buf
put_bytes buf curr (c ∷ cs) = put_bytes (update buf curr c) (curr + 1) cs

-- The `do` loop of `get_line` over the answers of `read`, with `curr` bytes in the buffer.
unfoldable pub get_line : List Chunk → Buffer → ℕ → Line
unfolding put_bytes
get_line [] buf curr = blocked
get_line (failed ∷ more) buf curr =
    let rest = get_line more buf (curr - 1) in
    if ltb curr 2
    then misread
    else (if buf (curr - 2) == newline then line (curr - 1) buf more else rest)
get_line (bytes cs ∷ more) buf curr =
    let n = length cs in
    let buf' = put_bytes buf curr cs in
    let rest = get_line more buf' (curr + n) in
    if n == 0
    then closed buf' more
    else (if ltb max_size (curr + n)
        then overrun
        else (if buf' (curr + n - 1) == newline then line (curr + n) buf' more else rest))

-- What `handle` does: it writes `n` bytes back and returns `n`, returns -1 without a write, or
-- touches memory outside of its buffer.
pub data Handled : Type 0 where
  wrote : ℕ → Buffer → List Chunk → Handled
  dropped : List Chunk → Handled
  out_of_bounds : Handled
  waits : Handled

-- `handle` behind its call of `get_line`, over the transformation that the server applies.
-- `buf[n] = '\n'` is a write outside of the buffer at n = MAXSIZE, and where -1 has become the
-- largest `size_t`.
unfoldable pub answer : (Buffer → ℕ → Buffer × ℕ) → Line → Handled
answer transform (line n b more) =
    if ltb n max_size
    then (let (b', n') = transform (update b n newline) n in
        if n == 0 then dropped more else wrote n' b' more)
    else out_of_bounds
answer transform (closed b more) = out_of_bounds
answer transform overrun = out_of_bounds
answer transform misread = out_of_bounds
answer transform blocked = waits

unfoldable pub handle : (Buffer → ℕ → Buffer × ℕ) → List Chunk → Buffer → Handled
unfolding get_line answer
handle transform chunks buf = answer transform (get_line chunks buf 0)
