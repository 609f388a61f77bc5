-- ===== src/Chars.antt =====
-- Runs of bytes in the `char` buffers of the programs in tools/server and examples: what `write`
-- takes of a buffer, and the strings that `printf` and `strlen` read.
use libco_lite.Base.{
  ℕ, zero, suc, ◌+◌, ◌≤◌, ◌<◌, ◌≡◌, refl, ◌∙◌, Bool, true, not, ◌&&◌, Option, none, some, List, [],
  ◌∷◌, ◌++◌, arith, ◌==◌, if◌then◌else◌, update, update_self, update-ne, length, inl, inr,
  Bool-cases,
}
use libco_lite.Server.{Buffer, put_bytes}
use libco_lite.Server.Lines.{put_bytes-before}

-- The `n` bytes from index `i` on.
unfoldable pub taken : (n i : ℕ) → Buffer → List ℕ
taken zero i buf = []
taken (suc n) i buf = buf i ∷ taken n (i + 1) buf

abbrev prefixed : ℕ → Option (List ℕ) → Option (List ℕ)
prefixed c none = none
prefixed c (some cs) = some (c ∷ cs)

-- The string at index `i`, in a buffer whose bytes are known for `n` places from there; `none` where
-- the NUL byte is not among them, and a reader goes on past them.
unfoldable pub c_string : (n i : ℕ) → Buffer → Option (List ℕ)
c_string zero i buf = none
c_string (suc n) i buf =
    let rest = c_string n (i + 1) buf in if buf i == 0 then some [] else prefixed (buf i) rest

-- No NUL byte.
unfoldable pub is_text : List ℕ → Bool
is_text [] = true
is_text (c ∷ cs) = not (c == 0) && is_text cs

pub taken-same :
    (n i : ℕ) (a b : Buffer) → ((j : ℕ) → i ≤ j → j < i + n → a j ≡ b j) → taken n i a ≡ taken n i b
unfolding taken
taken-same zero i a b h = refl
taken-same (suc n) i a b h = rw (
  h i (omega arith) (omega arith),
  taken-same n (i + 1) a b (λ j x y. h j (omega arith) (omega arith)),
)

-- What has been put into a buffer stands there.
pub taken-put_bytes :
    (cs : List ℕ) (i : ℕ) (buf : Buffer) → taken (length cs) i (put_bytes buf i cs) ≡ cs
unfolding taken put_bytes
taken-put_bytes [] i buf = refl
taken-put_bytes (c ∷ cs) i buf = rw (
  put_bytes-before (update buf i c) (i + 1) i cs (omega arith),
  update_self buf i c,
  taken-put_bytes cs (i + 1) (update buf i c),
)

-- And nothing else changes.
pub put_bytes-after :
    (cs : List ℕ) (i j : ℕ) (buf : Buffer) → i + length cs ≤ j → put_bytes buf i cs j ≡ buf j
unfolding put_bytes
put_bytes-after [] i j buf h = refl
put_bytes-after (c ∷ cs) i j buf h =
    put_bytes-after cs (i + 1) j (update buf i c) (omega arith) ∙ update-ne buf i c j (omega arith)

pub taken-append :
    (m n i : ℕ) (buf : Buffer) → taken (m + n) i buf ≡ taken m i buf ++ taken n (i + m) buf
unfolding taken
taken-append zero n i buf =
    let e : i + 0 ≡ i = omega arith in let z : 0 + n ≡ n = omega arith in rw (e, z)
taken-append (suc m) n i buf =
    let e : i + suc m ≡ i + 1 + m = omega arith in
    let z : suc m + n ≡ suc (m + n) = omega arith in rw (e, z, taken-append m n (i + 1) buf)

-- The bytes before the first NUL byte.
unfoldable pub until_nul : List ℕ → List ℕ
until_nul [] = []
until_nul (c ∷ cs) = if c == 0 then [] else c ∷ until_nul cs

pub until_nul-text : (cs : List ℕ) → is_text cs ≡ true → until_nul cs ≡ cs
unfolding until_nul is_text
until_nul-text [] h = refl
until_nul-text (c ∷ cs) h = ground (arith, until_nul-text cs)

-- Bytes that stand in a buffer before a NUL byte are read as a string up to the first NUL byte.
pub c_string_lem :
    (cs : List ℕ) (n i : ℕ) (buf : Buffer)
    → length cs < n
    → taken (length cs) i buf ≡ cs
    → buf (i + length cs) ≡ 0
    → c_string n i buf ≡ some (until_nul cs)
unfolding taken c_string until_nul
c_string_lem cs zero i buf h e z = absurd (omega arith)
c_string_lem [] (suc n) i buf h e z =
    let p : i + 0 ≡ i = omega arith in let q : buf i ≡ 0 = rw p at z in rw q
c_string_lem (c ∷ cs) (suc n) i buf h e z =
    let head : buf i ≡ c = cc in
    let tail : taken (length cs) (i + 1) buf ≡ cs = cc in
    let p : i + suc (length cs) ≡ i + 1 + length cs = omega arith in
    let q : buf (i + 1 + length cs) ≡ 0 = rw p at z in
    rw (head, c_string_lem cs n (i + 1) buf (omega arith) tail q)
      (elim (Bool-cases (c == 0)) [ inl x ↦ rw x | inr x ↦ rw x ])

-- In a buffer that they fill, a reader runs past them if there is no NUL byte among them.
pub c_string-full :
    (cs : List ℕ) (i : ℕ) (buf : Buffer)
    → taken (length cs) i buf ≡ cs
    → c_string (length cs) i buf ≡ (if is_text cs then none else some (until_nul cs))
unfolding taken c_string until_nul is_text
c_string-full [] i buf e = refl
c_string-full (c ∷ cs) i buf e =
    let head : buf i ≡ c = cc in
    let tail : taken (length cs) (i + 1) buf ≡ cs = cc in
    rw (head, c_string-full cs (i + 1) buf tail)
      (elim (Bool-cases (c == 0)) [
        | inl x ↦ rw x
        | inr x ↦ elim (Bool-cases (is_text cs)) [ inl y ↦ rw (x, y) | inr y ↦ rw (x, y) ]
      ])
