-- ===== src/Server/Lines.antt =====
-- How the line servers read a line (tools/server/upper.c and reverse.c, `get_line` and `handle`).
use libco_lite.Base.{
  subst, ℕ, suc, ◌+◌, ◌-◌, ◌≤◌, ◌<◌, ◌≡◌, refl, ◌∙◌, Bool, true, false, ◌&&◌, List, [], ◌∷◌, ◌++◌,
  arith, append_nil, ◌==◌, ltb, not, if◌then◌else◌, update, update-ne, update_self, length,
}
use libco_lite.Server.{
  answer, Buffer, max_size, newline, Chunk, bytes, line, put_bytes, get_line, wrote, handle,
}

-- The bytes of several chunks.
unfoldable pub joined : List (List ℕ) → List ℕ
joined [] = []
joined (cs ∷ css) = cs ++ joined css

-- The answers of `read` that bring these chunks, before `more`.
unfoldable pub arriving : List (List ℕ) → List Chunk → List Chunk
arriving [] more = more
arriving (cs ∷ css) more = bytes cs ∷ arriving css more

-- A newline is the last byte.
unfoldable pub ends : List ℕ → Bool
ends [] = false
ends (c ∷ []) = c == newline
ends (c ∷ d ∷ cs) = ends (d ∷ cs)

-- No chunk is empty, and the last one is the first that ends in a newline.
unfoldable pub one_line : List (List ℕ) → Bool
one_line [] = false
one_line ([] ∷ css) = false
one_line ((c ∷ cs) ∷ []) = ends (c ∷ cs)
one_line ((c ∷ cs) ∷ ds ∷ css) = not (ends (c ∷ cs)) && one_line (ds ∷ css)

pub length-append : (xs ys : List ℕ) → length (xs ++ ys) ≡ length xs + length ys
length-append [] ys = omega arith
length-append (x ∷ xs) ys = ground (arith, length-append xs ys)

pub put_bytes-append :
    (buf : Buffer) (curr : ℕ) (xs ys : List ℕ)
    → put_bytes buf curr (xs ++ ys) ≡ put_bytes (put_bytes buf curr xs) (curr + length xs) ys
unfolding put_bytes
put_bytes-append buf curr [] ys = let e : curr + 0 ≡ curr = omega arith in rw e
put_bytes-append buf curr (x ∷ xs) ys =
    let e : curr + suc (length xs) ≡ curr + 1 + length xs = omega arith in
    rw e (put_bytes-append (update buf curr x) (curr + 1) xs ys)

pub put_bytes-before :
    (buf : Buffer) (curr j : ℕ) (xs : List ℕ) → j < curr → put_bytes buf curr xs j ≡ buf j
unfolding put_bytes
put_bytes-before buf curr j [] h = refl
put_bytes-before buf curr j (x ∷ xs) h =
    put_bytes-before (update buf curr x) (curr + 1) j xs (omega arith)
    ∙ update-ne buf curr x j (omega arith)

-- The test of the loop reads the last byte of the chunk.
last-ends :
    (buf : Buffer) (curr c : ℕ) (cs : List ℕ)
    → (put_bytes buf curr (c ∷ cs) (curr + length (c ∷ cs) - 1) == newline) ≡ ends (c ∷ cs)
unfolding put_bytes ends
last-ends buf curr c [] =
    let e : curr + 1 - 1 ≡ curr = omega arith in rw (e, update_self buf curr c)
last-ends buf curr c (d ∷ cs) =
    let e : curr + suc (suc (length cs)) - 1 ≡ curr + 1 + suc (length cs) - 1 = omega arith in
    rw e (last-ends (update buf curr c) (curr + 1) d cs)

-- One round of the loop on a chunk that is not empty and fits.
pub get_line-chunk :
    (c : ℕ) (cs : List ℕ) (more : List Chunk) (buf : Buffer) (curr : ℕ)
    → curr + length (c ∷ cs) ≤ max_size
    → get_line (bytes (c ∷ cs) ∷ more) buf curr ≡ (
        if ends (c ∷ cs)
        then line (curr + length (c ∷ cs)) (put_bytes buf curr (c ∷ cs)) more
        else get_line more (put_bytes buf curr (c ∷ cs)) (curr + length (c ∷ cs)))
unfolding get_line
get_line-chunk c cs more buf curr h =
    let some_bytes : (length (c ∷ cs) == 0) ≡ false = ground arith in
    let fits : ltb max_size (curr + length (c ∷ cs)) ≡ false = ground arith in
    rw (some_bytes, fits, last-ends buf curr c cs)

get_line-arriving :
    (css : List (List ℕ)) (more : List Chunk) (buf : Buffer) (curr : ℕ)
    → one_line css ≡ true
    → curr + length (joined css) ≤ max_size
    → get_line (arriving css more) buf curr
      ≡ line (curr + length (joined css)) (put_bytes buf curr (joined css)) more
unfolding arriving joined one_line
get_line-arriving [] more buf curr h k = absurd (ground arith)
get_line-arriving ([] ∷ css) more buf curr h k = absurd (ground arith)
get_line-arriving ((c ∷ cs) ∷ []) more buf curr h k =
    let e : (c ∷ cs) ++ [] ≡ c ∷ cs = append_nil (c ∷ cs) in
    rw e (
      get_line-chunk c cs more buf curr (subst (λ xs. curr + length xs ≤ max_size) e k)
      ∙ rw (h, append_nil cs))
get_line-arriving ((c ∷ cs) ∷ ds ∷ css) more buf curr h k =
    let rest = joined (ds ∷ css) in
    let l : length ((c ∷ cs) ++ rest) ≡ length (c ∷ cs) + length rest =
      length-append (c ∷ cs) rest in
    let a : curr + length ((c ∷ cs) ++ rest) ≡ curr + length (c ∷ cs) + length rest = omega arith in
    let goes_on : ends (c ∷ cs) ≡ false = ground arith in
    get_line-chunk c cs (arriving (ds ∷ css) more) buf curr (omega arith)
    ∙ rw (goes_on, a, put_bytes-append buf curr (c ∷ cs) rest)
        (get_line-arriving (ds ∷ css) more (put_bytes buf curr (c ∷ cs)) (curr + length (c ∷ cs))
          (ground arith) (omega arith))

pub one_line-length :
    (css : List (List ℕ)) → one_line css ≡ true → (length (joined css) == 0) ≡ false
unfolding one_line joined
one_line-length [] h = absurd (ground arith)
one_line-length ([] ∷ css) h = absurd (ground arith)
one_line-length ((c ∷ cs) ∷ css) h = ground arith

-- When the bytes that the calls of `read` bring make one line of at most 1023 bytes, whatever their
-- division into chunks none of which is empty, `handle` transforms the line and writes it back.
pub handle-arriving :
    (transform : Buffer → ℕ → Buffer × ℕ) (css : List (List ℕ)) (more : List Chunk) (buf : Buffer)
    → one_line css ≡ true
    → length (joined css) < max_size
    → handle transform (arriving css more) buf ≡ (
        let n = length (joined css) in
        let (b, m) = transform (update (put_bytes buf 0 (joined css)) n newline) n in
        wrote m b more)
unfolding handle
handle-arriving transform css more buf h k =
    let some_bytes : (length (joined css) == 0) ≡ false = one_line-length css h in
    let z : 0 + length (joined css) ≡ length (joined css) = omega arith in
    let fits : ltb (length (joined css)) max_size ≡ true = ground arith in
    rw (handle, answer, get_line-arriving css more buf 0 h (omega arith), z, fits, some_bytes)
