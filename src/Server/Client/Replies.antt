-- ===== src/Server/Client/Replies.antt =====
-- A line typed into the client (tools/server/cli.c), by way of a server, and back.
use libco_lite.Base.{
  ℕ, zero, suc, ◌+◌, ◌≤◌, ◌<◌, ◌≡◌, refl, sym, ap, ◌∙◌, subst, true, false, some, List, [], ◌∷◌,
  ◌++◌, arith, ◌==◌, update, update_self, update-ne, length,
}
use libco_lite.Server.{
  Buffer, max_size, newline, raise, upper_from, upper, Chunk, bytes, put_bytes, wrote, handle,
}
use libco_lite.Server.Lines.{length-append, joined, arriving, one_line, handle-arriving}
use libco_lite.Server.Upper.{capital, raise-capital, upper_from-before}
use libco_lite.Chars.{
  taken, until_nul, is_text, until_nul-text, taken-same, taken-put_bytes, put_bytes-after,
  taken-append, c_string_lem,
}
use libco_lite.Server.Client.{buf_size, cleared_size, asked, ask, show_reply}
use libco_lite.Server.Client.Talk.{plain, next_line-line, plain-text, Holds, ask-Asks}

-- A reply that is shorter than what is cleared, and longer than the line that the buffer still holds,
-- is printed up to its first NUL byte.
show_reply-Holds :
    (l cs : List ℕ) (b : Buffer)
    → Holds l b
    → length l < length cs
    → length cs < cleared_size
    → show_reply (bytes cs) b ≡ some (until_nul cs)
unfolding show_reply
show_reply-Holds l cs b h k small =
    let z : 0 + length cs ≡ length cs = omega arith in
    c_string_lem cs buf_size 0 (put_bytes b 0 cs) (omega arith) (taken-put_bytes cs 0 b)
      (rw z (put_bytes-after cs 0 (length cs) b (omega arith) ∙ h.nul (length cs) k small))

-- Each letter made a capital.
unfoldable pub raised : List ℕ → List ℕ
raised [] = []
raised (c ∷ cs) = capital c ∷ raised cs

-- The loop of `upper` on a line that stands in the buffer before a newline.
upper_from-line :
    (w : List ℕ) (r i : ℕ) (buf : Buffer)
    → length w < r
    → plain w ≡ true
    → taken (length w) i buf ≡ w
    → buf (i + length w) ≡ newline
    → (taken (length w) i (upper_from r i buf) ≡ raised w)
      × ((j : ℕ) → i + length w ≤ j → upper_from r i buf j ≡ buf j)
unfolding upper_from taken raised plain
upper_from-line w zero i buf h p e n = absurd (omega arith)
upper_from-line [] (suc r) i buf h p e n =
    let z : i + 0 ≡ i = omega arith in
    let at : buf i ≡ newline = rw z at n in rw at (refl, λ j k. refl)
upper_from-line (c ∷ w) (suc r) i buf h p e n =
    let head : buf i ≡ c = cc in
    let tail : taken (length w) (i + 1) buf ≡ w = cc in
    let other : (c == newline) ≡ false = ground arith in
    let b = update buf i (raise c) in
    let z : i + suc (length w) ≡ i + 1 + length w = omega arith in
    let end : b (i + 1 + length w) ≡ newline =
      update-ne buf i (raise c) (i + 1 + length w) (omega arith) ∙ rw z at n in
    let below : taken (length w) (i + 1) b ≡ w =
      taken-same (length w) (i + 1) b buf (λ j x y. update-ne buf i (raise c) j (omega arith))
      ∙ tail in
    let (loop, kept) = upper_from-line w r (i + 1) b (omega arith) (ground arith) below end in
    rw (head, other)
      (
        rw (
          upper_from-before r (i + 1) i b (omega arith),
          update_self buf i (raise c),
          loop,
          raise-capital c,
        ),
        λ j k. kept j (omega arith) ∙ update-ne buf i (raise c) j (omega arith),
      )

length-taken : (n i : ℕ) (buf : Buffer) → length (taken n i buf) ≡ n
unfolding taken
length-taken zero i buf = refl
length-taken (suc n) i buf = ap suc (length-taken n (i + 1) buf)

append-split : (a b c d : List ℕ) → length a ≡ length c → a ++ b ≡ c ++ d → (a ≡ c) × (b ≡ d)
append-split [] b [] d h e = (refl, e)
append-split [] b (y ∷ c) d h e = absurd (omega arith)
append-split (x ∷ a) b [] d h e = absurd (omega arith)
append-split (x ∷ a) b (y ∷ c) d h e =
    let tails : a ++ b ≡ c ++ d = cc in
    let heads : x ≡ y = cc in
    let (p, q) = append-split a b c d (omega arith) tails in (rw (heads, p), q)

length-raised : (w : List ℕ) → length (raised w) ≡ length w
unfolding raised
length-raised [] = refl
length-raised (c ∷ w) = ap suc (length-raised w)

raised-text : (w v : List ℕ) → plain w ≡ true → is_text v ≡ true → is_text (raised w ++ v) ≡ true
unfolding raised capital is_text plain
raised-text [] v h k = k
raised-text (c ∷ w) v h k = ground (arith, raised-text w v)

-- `upper` on a buffer that holds a line and what follows it.
upper-line :
    (w v : List ℕ) (b : Buffer)
    → plain w ≡ true
    → taken (length w + suc (length v)) 0 b ≡ w ++ newline ∷ v
    → taken (length w + suc (length v)) 0 (upper b (length w + suc (length v))).0
      ≡ raised w ++ newline ∷ v
unfolding upper taken
upper-line w v b p e =
    let m = suc (length v) in
    let c = (upper b (length w + m)).0 in
    let (line, rest) =
      append-split (taken (length w) 0 b) (taken m (0 + length w) b) w (newline ∷ v)
        (length-taken (length w) 0 b) (sym (taken-append (length w) m 0 b) ∙ e) in
    let at : b (0 + length w) ≡ newline = cc in
    let (loop, kept) = upper_from-line w (length w + m) 0 b (omega arith) p line at in
    taken-append (length w) m 0 c
    ∙ rw (loop, taken-same m (0 + length w) c b (λ j x y. kept j x), rest)

append-two : (w : List ℕ) (a b : ℕ) → (w ++ a ∷ []) ++ b ∷ [] ≡ w ++ a ∷ b ∷ []
append-two [] a b = refl
append-two (c ∷ w) a b = rw (append-two w a b)

ask-line :
    (w input : List ℕ) (buf : Buffer)
    → plain w ≡ true
    → length w ≤ 97
    → (b : Buffer) × (ask (w ++ newline ∷ input) buf ≡ asked (w ++ newline ∷ newline ∷ []) b input)
      × Holds (w ++ newline ∷ []) b
unfolding is_text
ask-line w input buf p h =
    let line = next_line-line w 99 input p (omega arith) in
    let asks = ask-Asks (w ++ newline ∷ input) buf (rw line (plain-text w (newline ∷ []) p refl)) in
    (
      asks.after,
      rw (line, append-two w newline newline) at asks.sent,
      subst (λ (x : List ℕ × List ℕ). Holds (x.0) asks.after) line asks.holds,
    )

-- The server's buffer with a line put into it.
abbrev arrived_in : List ℕ → Buffer → Buffer
arrived_in l buf = update (put_bytes buf 0 l) (length l) newline

taken-arrived_in : (l : List ℕ) (buf : Buffer) → taken (length l) 0 (arrived_in l buf) ≡ l
taken-arrived_in l buf =
    taken-same (length l) 0 (arrived_in l buf) (put_bytes buf 0 l)
      (λ j a b. update-ne (put_bytes buf 0 l) (length l) newline j (ground arith))
    ∙ taken-put_bytes l 0 buf

handle-line :
    (l : List ℕ) (buf : Buffer) (css : List (List ℕ)) (more : List Chunk)
    → one_line css ≡ true
    → joined css ≡ l
    → length l < max_size
    → handle upper (arriving css more) buf
      ≡ wrote (length l) (upper (arrived_in l buf) (length l)).0 more
unfolding upper
handle-line l buf css more one e h =
    rw e at (handle-arriving upper css more buf one (omega (arith, ap length e)))

-- A line of at most 97 bytes, with no NUL byte, typed into the client, with the upper-case server at
-- the other end, whatever its buffer holds, and the line's bytes reaching it in whatever chunks of
-- which only the last one ends in a newline: the client sends the line with two newlines, the server
-- answers at once, and where the reply comes to the client in one read it prints the line in ASCII
-- capitals with two newlines.
pub typed_line-raised :
    (w input : List ℕ) (buf server_buf : Buffer) (css : List (List ℕ)) (more : List Chunk)
    → plain w ≡ true
    → length w ≤ 97
    → one_line css ≡ true
    → joined css ≡ w ++ newline ∷ newline ∷ []
    → (b c : Buffer) × (ask (w ++ newline ∷ input) buf
        ≡ asked (w ++ newline ∷ newline ∷ []) b input)
      × (handle upper (arriving css more) server_buf ≡ wrote (length w + 2) c more)
      × (show_reply (bytes (taken (length w + 2) 0 c)) b
          ≡ some (raised w ++ newline ∷ newline ∷ []))
unfolding is_text
typed_line-raised w input buf server_buf css more p h one arrived =
    let l = w ++ newline ∷ newline ∷ [] in
    let reply = raised w ++ newline ∷ newline ∷ [] in
    let n : length l ≡ length w + 2 = length-append w (newline ∷ newline ∷ []) in
    let (b, sent, holds) = ask-line w input buf p h in
    let full = arrived_in l server_buf in
    let c = (upper full (length w + 2)).0 in
    let whole : taken (length w + 2) 0 full ≡ l =
      subst (λ k. taken k 0 full ≡ l) n (taken-arrived_in l server_buf) in
    let answer : taken (length w + 2) 0 c ≡ reply = upper-line w (newline ∷ []) full p whole in
    let handled : handle upper (arriving css more) server_buf ≡ wrote (length w + 2) c more =
      subst (λ k. handle upper (arriving css more) server_buf ≡ wrote k (upper full k).0 more) n
        (handle-line l server_buf css more one arrived (omega arith)) in
    let size : length reply ≡ length w + 2 =
      length-append (raised w) (newline ∷ newline ∷ []) ∙ ap (λ k. k + 2) (length-raised w) in
    let typed : length (w ++ newline ∷ []) ≡ length w + 1 = length-append w (newline ∷ []) in
    let shown = show_reply-Holds (w ++ newline ∷ []) reply b holds (omega arith) (omega arith) in
    let text = until_nul-text reply (raised-text w (newline ∷ newline ∷ []) p refl) in
    (b, c, sent, handled, rw answer (shown ∙ ap some text))
