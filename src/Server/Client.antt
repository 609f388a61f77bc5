-- ===== src/Server/Client.antt =====
-- tools/server/cli.c: the client of the line servers, which sends what is typed and prints the reply.
pub mod Talk
pub mod Replies
mod Examples
use libco_lite.Base.{
  ℕ, zero, suc, ◌+◌, Bool, Option, none, some, List, [], ◌∷◌, ◌==◌, ltb, if◌then◌else◌, update,
  length,
}
use libco_lite.Server.{Buffer, newline, Chunk, failed, bytes, put_bytes}
use libco_lite.Chars.{taken, c_string}

-- The size of `buf`, and how much of it the code clears.
abbrev pub buf_size : ℕ
buf_size = 128

abbrev pub cleared_size : ℕ
cleared_size = 100

-- `memset(buf, 0, 100)`.
unfoldable pub clear : Buffer → Buffer
clear buf j = if ltb j cleared_size then 0 else buf j

-- What `fgets` takes of its input, at most `n` bytes and to the end of a line, and what it leaves.
unfoldable pub next_line : ℕ → List ℕ → List ℕ × List ℕ
next_line zero input = ([], input)
next_line (suc n) [] = ([], [])
next_line (suc n) (c ∷ cs) =
    let (l, rest) = next_line n cs in if c == newline then (c ∷ [], cs) else (c ∷ l, rest)

-- `fgets(buf, 100, stdin)`: the buffer, as it was at the end of the input, and what is left of it.
unfoldable pub fgets : List ℕ → Buffer → Buffer × List ℕ
unfolding next_line
fgets input buf =
    let (l, rest) = next_line 99 input in
    (if length l == 0 then buf else update (put_bytes buf 0 l) (length l) 0, rest)

-- What the loop of `str_cli` does up to `write`: the bytes sent, the buffer, and the rest of the
-- input; or a `strlen` that runs out of the buffer.
pub data Asked : Type 0 where
  asked : List ℕ → Buffer → List ℕ → Asked
  runaway : Asked

unfoldable pub ask : List ℕ → Buffer → Asked
unfolding clear fgets
ask input buf =
    let (b, rest) = fgets input (clear buf) in
    elim (c_string buf_size 0 b) [
      | none ↦ runaway
      | some s ↦
          let len = length s in
          let b' = update b len newline in asked (taken (len + 1) 0 b') b' rest
    ]

-- From `read` on: what is printed, `none` where `printf` runs out of the buffer. The result of `read`
-- is not looked at.
unfoldable pub show_reply : Chunk → Buffer → Option (List ℕ)
show_reply failed buf = c_string buf_size 0 buf
show_reply (bytes cs) buf = c_string buf_size 0 (put_bytes buf 0 cs)
