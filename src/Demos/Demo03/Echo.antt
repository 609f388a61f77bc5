-- ===== src/Demos/Demo03/Echo.antt =====
-- What a client of examples/demo03.c gets back (`do_client`).
use libco_lite.Base.{
  ℕ, ◌+◌, ◌<◌, ◌≡◌, ◌≢◌, refl, ◌∙◌, ℤ, pos, is_negative, Bool, true, false, not, ◌&&◌, Option, some,
  List, [], ◌∷◌, arith, ◌==◌, ltb, update, update_self, update-ne, length, inl, inr, Bool-cases,
  is_some,
}
use libco_lite.Server.{Buffer, failed, bytes, put_bytes}
use libco_lite.Chars.{taken, c_string, until_nul, taken-same, taken-put_bytes, c_string_lem}
use libco_lite.Demos.Demo03.{
  buf_size, Round, Ended, returns, exits, overrun, waiting, Session, stop, echoed, do_client,
}

-- The buffer behind a read of `cs`: its bytes and the NUL byte.
abbrev received : List ℕ → Buffer → Buffer
received cs buf = update (put_bytes buf 0 cs) (length cs) 0

taken-received : (cs : List ℕ) (buf : Buffer) → taken (length cs) 0 (received cs buf) ≡ cs
taken-received cs buf =
    taken-same (length cs) 0 (received cs buf) (put_bytes buf 0 cs)
      (λ j a b. update-ne (put_bytes buf 0 cs) (length cs) 0 j (ground arith))
    ∙ taken-put_bytes cs 0 buf

c_string-received :
    (cs : List ℕ) (buf : Buffer)
    → length cs < buf_size
    → c_string buf_size 0 (received cs buf) ≡ some (until_nul cs)
c_string-received cs buf h =
    let z : 0 + length cs ≡ length cs = omega arith in
    c_string_lem cs buf_size 0 (received cs buf) h (taken-received cs buf)
      (rw z (update_self (put_bytes buf 0 cs) (length cs) 0))

-- Rounds in which the client sends, and `co_write` returns a count.
unfoldable pub talk : List (List ℕ × ℕ) → List Round → List Round
talk [] rs = rs
talk ((cs, n) ∷ ts) rs = (bytes cs, pos n) ∷ talk ts rs

-- 1 to 63 bytes each time, as `co_read(clifd, buf, 63)` brings them.
unfoldable pub all_fit : List (List ℕ × ℕ) → Bool
all_fit [] = true
all_fit ((cs, n) ∷ ts) = not (length cs == 0) && ltb (length cs) buf_size && all_fit ts

abbrev pub texts : List (List ℕ × ℕ) → List (List ℕ)
texts [] = []
texts ((cs, n) ∷ ts) = cs ∷ texts ts

abbrev pub lines : List (List ℕ × ℕ) → List (Option (List ℕ))
lines [] = []
lines ((cs, n) ∷ ts) = some (until_nul cs) ∷ lines ts

-- A client that sends 1 to 63 bytes at a time and then closes: `do_client` gives the very bytes of
-- each read to `co_write` once, in order, whatever count that returns, prints them up to the first
-- NUL byte, and returns.
pub do_client-talk :
    (ts : List (List ℕ × ℕ)) (wrote : ℤ) (rs : List Round) (buf : Buffer)
    → all_fit ts ≡ true
    → do_client (talk ts ((bytes [], wrote) ∷ rs)) buf
      ≡ record { offered = texts ts; printed = lines ts; ended = returns }
unfolding do_client talk all_fit
do_client-talk [] wrote rs buf h = refl
do_client-talk ((cs, n) ∷ ts) wrote rs buf h =
    let sent : (length cs == 0) ≡ false = ground arith in
    let fits : ltb (length cs) buf_size ≡ true = ground arith in
    rw (
      sent,
      fits,
      taken-received cs buf,
      c_string-received cs buf (ground arith),
      do_client-talk ts wrote rs (received cs buf) (ground arith),
    )

-- No read brings more than the 63 bytes that are asked for.
unfoldable pub bounded : List Round → Bool
bounded [] = true
bounded ((failed, wrote) ∷ rs) = bounded rs
bounded ((bytes cs, wrote) ∷ rs) = ltb (length cs) buf_size && bounded rs

abbrev pub all_some : List (Option (List ℕ)) → Bool
all_some [] = true
all_some (o ∷ os) = is_some o && all_some os

-- A session that stays within the buffer: nothing is written past its end, and every string that is
-- printed has its NUL byte within.
pub record InBounds (s : Session) : Type 0 where
  pub written : s.ended ≢ overrun
  pub strings : all_some s.printed ≡ true

stop-InBounds : (e : Ended) → e ≢ overrun → InBounds (stop e)
stop-InBounds e h = record { written = h; strings = refl }

echoed-InBounds :
    (text line : List ℕ) (wrote : ℤ) (rest : Session)
    → InBounds rest
    → InBounds (echoed text (some line) wrote rest)
echoed-InBounds text line wrote rest h = elim (Bool-cases (is_negative wrote)) [
  | inl e ↦ rw e (record { written = λ x. cc; strings = refl })
  | inr e ↦ rw e (record { written = h.written; strings = h.strings })
]

-- Whatever the client sends, errors and closing included: as long as no read brings more than the 63
-- bytes that are asked for, `do_client` stays within `buf`, also where it prints it.
pub do_client-InBounds :
    (rs : List Round) (buf : Buffer) → bounded rs ≡ true → InBounds (do_client rs buf)
unfolding do_client bounded
do_client-InBounds [] buf h = stop-InBounds waiting (λ x. cc)
do_client-InBounds ((failed, wrote) ∷ rs) buf h = stop-InBounds exits (λ x. cc)
do_client-InBounds ((bytes cs, wrote) ∷ rs) buf h =
    let fits : ltb (length cs) buf_size ≡ true = ground arith in
    rw (fits, c_string-received cs buf (ground arith))
      (elim (Bool-cases (length cs == 0)) [
        | inl e ↦ rw e (stop-InBounds returns (λ x. cc))
        | inr e ↦ rw e (
            echoed-InBounds (taken (length cs) 0 (received cs buf)) (until_nul cs) wrote
              (do_client rs (received cs buf))
              (do_client-InBounds rs (received cs buf) (ground arith)))
      ])
