-- ===== src/Server/Client/Talk.antt =====
-- A line typed into the client (tools/server/cli.c), and what comes back from the servers.
use libco_lite.Base.{
  ℕ, zero, suc, ◌+◌, ◌≤◌, ◌<◌, ◌≡◌, refl, ap, ◌∙◌, Bool, true, false, not, ◌&&◌, some, List, [],
  ◌∷◌, ◌++◌, arith, ◌==◌, if◌then◌else◌, update, update_self, update-ne, length, inl, inr,
  Bool-cases,
}
use libco_lite.Server.{Buffer, newline, put_bytes}
use libco_lite.Chars.{
  taken, c_string, until_nul, is_text, until_nul-text, taken-same, taken-put_bytes, put_bytes-after,
  taken-append, c_string_lem,
}
use libco_lite.Server.Client.{buf_size, cleared_size, clear, next_line, fgets, asked, ask}

-- No NUL byte and no newline.
unfoldable pub plain : List ℕ → Bool
plain [] = true
plain (c ∷ cs) = not (c == 0) && not (c == newline) && plain cs

-- A typed line and its newline are taken whole.
pub next_line-line :
    (w : List ℕ) (n : ℕ) (input : List ℕ)
    → plain w ≡ true
    → length w < n
    → next_line n (w ++ newline ∷ input) ≡ (w ++ newline ∷ [], input)
unfolding next_line plain
next_line-line w zero input h k = absurd (omega arith)
next_line-line [] (suc n) input h k = refl
next_line-line (c ∷ w) (suc n) input h k =
    let other : (c == newline) ≡ false = ground arith in
    rw (other, next_line-line w n input (ground arith) (omega arith))

pub plain-text : (w v : List ℕ) → plain w ≡ true → is_text v ≡ true → is_text (w ++ v) ≡ true
unfolding plain is_text
plain-text [] v h k = k
plain-text (c ∷ w) v h k = ground (arith, plain-text w v)

next_line-length : (n : ℕ) (input : List ℕ) → length (next_line n input).0 ≤ n
unfolding next_line
next_line-length zero input = omega arith
next_line-length (suc n) [] = omega arith
next_line-length (suc n) (c ∷ cs) = elim (Bool-cases (c == newline)) [
  | inl e ↦ rw e (omega arith)
  | inr e ↦ rw e (omega (arith, next_line-length n cs))
]

-- A buffer that holds `l` and a newline, and NUL bytes from there to the end of what is cleared.
pub record Holds (l : List ℕ) (b : Buffer) : Type 0 where
  pub line : taken (length l + 1) 0 b ≡ l ++ newline ∷ []
  pub nul : (j : ℕ) → length l < j → j < cleared_size → b j ≡ 0

-- The buffer behind `fgets` of `l`.
abbrev filled : List ℕ → Buffer → Buffer
filled l buf = if length l == 0 then clear buf else update (put_bytes (clear buf) 0 l) (length l) 0

filled-before : (l : List ℕ) (buf : Buffer) → taken (length l) 0 (filled l buf) ≡ l
unfolding taken
filled-before [] buf = refl
filled-before (c ∷ cs) buf =
    let l = c ∷ cs in
    let more : (length l == 0) ≡ false = ground arith in
    rw more (
      taken-same (length l) 0 (update (put_bytes (clear buf) 0 l) (length l) 0)
        (put_bytes (clear buf) 0 l)
        (λ j a b. update-ne (put_bytes (clear buf) 0 l) (length l) 0 j (ground arith))
      ∙ taken-put_bytes l 0 (clear buf))

filled-after :
    (l : List ℕ) (buf : Buffer) (j : ℕ) → length l ≤ j → j < cleared_size → filled l buf j ≡ 0
unfolding clear
filled-after [] buf j h k = ground arith
filled-after (c ∷ cs) buf j h k =
    let l = c ∷ cs in
    let more : (length l == 0) ≡ false = ground arith in
    rw more (ground (arith, put_bytes-after l 0 j (clear buf)))

taken_last : (b : Buffer) (i : ℕ) → taken 1 i (update b i newline) ≡ newline ∷ []
unfolding taken
taken_last b i = rw (update_self b i newline)

-- `buf[len] = '\n'`.
held :
    (l : List ℕ) (b : Buffer)
    → taken (length l) 0 b ≡ l
    → taken (length l + 1) 0 (update b (length l) newline) ≡ l ++ newline ∷ []
held l b e =
    let b' = update b (length l) newline in
    let z : 0 + length l ≡ length l = omega arith in
    let same =
      taken-same (length l) 0 b' b (λ j x y. update-ne b (length l) newline j (ground arith)) in
    taken-append (length l) 1 0 b' ∙ rw (same, e, z, taken_last b (length l))

-- What the client does with its input.
pub record Asks (input : List ℕ) (buf : Buffer) : Type 0 where
  pub after : Buffer
  pub sent :
      ask input buf ≡ asked ((next_line 99 input).0 ++ newline ∷ []) after (next_line 99 input).1
  pub holds : Holds (next_line 99 input).0 after

-- `str_cli` sends the next line of its input, newline included, or the next 99 bytes of a longer one,
-- with one newline more, if there is no NUL byte among them; at the end of the input it sends that
-- newline alone.
pub ask-Asks :
    (input : List ℕ) (buf : Buffer) → is_text (next_line 99 input).0 ≡ true → Asks input buf
unfolding ask fgets taken
ask-Asks input buf h =
    let l = (next_line 99 input).0 in
    let b = filled l buf in
    let b' = update b (length l) newline in
    let small : length l ≤ 99 = next_line-length 99 input in
    let z : 0 + length l ≡ length l = omega arith in
    let nul : b (0 + length l) ≡ 0 =
      rw z (filled-after l buf (length l) (omega arith) (omega arith)) in
    let text : until_nul l ≡ l = until_nul-text l h in
    let string : c_string buf_size 0 b ≡ some l =
      c_string_lem l buf_size 0 b (omega arith) (filled-before l buf) nul ∙ ap some text in
    let line : taken (length l + 1) 0 b' ≡ l ++ newline ∷ [] = held l b (filled-before l buf) in
    record {
      after = b';
      sent = rw (ask, fgets, string, line);
      holds = record {
        line = line;
        nul = λ j x y.
            update-ne b (length l) newline j (ground arith) ∙ filled-after l buf j (omega arith) y;
      };
    }
