-- ===== src/Server/Clients.antt =====
-- What becomes of the clients of a line server (tools/server/upper.c and reverse.c, `main`).
use libco_lite.Base.{
  ℕ, ◌+◌, ◌-◌, ◌<◌, ◌≡◌, ℤ, true, false, ◌&&◌, List, [], ◌∷◌, arith, ◌==◌, ltb, bit_and, length,
  update, inl, inr, Bool-cases,
}
use libco_lite.Server.{
  Buffer, max_size, newline, Chunk, failed, bytes, Line, line, closed, overrun, misread, blocked,
  put_bytes, get_line, Handled, wrote, dropped, out_of_bounds, waits, answer, handle,
}
use libco_lite.Thread.{epollin}
use libco_lite.Server.Lines.{joined, arriving, one_line, one_line-length, handle-arriving}
use libco_lite.Server.Serve.{
  Ready, Sockets, After, goes_on, reading, undefined, same_fd, follow, settle, serve_client,
  serve_accept, serve_event, serve_events, serve_round,
}

-- A line has a byte.
abbrev Lined : Line → Type 0
Lined (line n b more) = 0 < n
Lined (closed b more) = Unit
Lined overrun = Unit
Lined misread = Unit
Lined blocked = Unit

get_line-Lined : (chunks : List Chunk) (buf : Buffer) (curr : ℕ) → Lined (get_line chunks buf curr)
unfolding get_line
get_line-Lined [] buf curr = tt
get_line-Lined (failed ∷ more) buf curr = elim (Bool-cases (ltb curr 2)) [
  | inl e ↦ rw e tt
  | inr e ↦ elim (Bool-cases (buf (curr - 2) == newline)) [
    | inl z ↦ rw (e, z) (ground arith)
    | inr z ↦ rw (e, z) (get_line-Lined more buf (curr - 1))
  ]
]
get_line-Lined (bytes cs ∷ more) buf curr =
    let buf' = put_bytes buf curr cs in
    elim (Bool-cases (length cs == 0)) [
      | inl e ↦ rw e tt
      | inr e ↦ elim (Bool-cases (ltb max_size (curr + length cs))) [
        | inl o ↦ rw (e, o) tt
        | inr o ↦ elim (Bool-cases (buf' (curr + length cs - 1) == newline)) [
          | inl z ↦ rw (e, o, z) (ground arith)
          | inr z ↦ rw (e, o, z) (get_line-Lined more buf' (curr + length cs))
        ]
      ]
    ]

-- It answers with between 1 and 1023 bytes, or is not done with its buffer's bounds kept.
abbrev pub Answered : Handled → Type 0
Answered (wrote n b more) = (0 < n) × (n < max_size)
Answered (dropped more) = true ≡ false
Answered out_of_bounds = Unit
Answered waits = Unit

answer-Answered :
    (transform : Buffer → ℕ → Buffer × ℕ) (l : Line)
    → ((b : Buffer) (n : ℕ) → (transform b n).1 ≡ n)
    → Lined l
    → Answered (answer transform l)
unfolding answer
answer-Answered transform (line n b more) h k = elim (Bool-cases (ltb n max_size)) [
  | inl e ↦
      let some_bytes : (n == 0) ≡ false = ground arith in
      rw (e, some_bytes, h (update b n newline) n) (k, ground arith)
  | inr e ↦ rw e tt
]
answer-Answered transform (closed b more) h k = tt
answer-Answered transform overrun h k = tt
answer-Answered transform misread h k = tt
answer-Answered transform blocked h k = tt

-- With a transformation that returns its length, `handle` never gives the -1 that makes `main` hang
-- up: it answers with 1 to 1023 bytes, waits for `read`, or leaves the bounds of its buffer.
pub handle-Answered :
    (transform : Buffer → ℕ → Buffer × ℕ) (chunks : List Chunk) (buf : Buffer)
    → ((b : Buffer) (n : ℕ) → (transform b n).1 ≡ n)
    → Answered (handle transform chunks buf)
unfolding handle
handle-Answered transform chunks buf h =
    answer-Answered transform (get_line chunks buf 0) h (get_line-Lined chunks buf 0)

-- What is watched stays so.
abbrev pub Keeps : (s : Sockets) → ℤ → s.Kernel → After s → Type 0
Keeps s g k (goes_on k') = s.watched k g ≡ true → s.watched k' g ≡ true
Keeps s g k reading = Unit
Keeps s g k undefined = Unit

Keeps-before :
    (s : Sockets) (g : ℤ) (k k1 : s.Kernel) (a : After s)
    → (s.watched k g ≡ true → s.watched k1 g ≡ true)
    → Keeps s g k1 a
    → Keeps s g k a
Keeps-before s g k k1 (goes_on k') h rest = λ w. rest (h w)
Keeps-before s g k k1 reading h rest = tt
Keeps-before s g k k1 undefined h rest = tt

follow-Keeps :
    (s : Sockets) (g : ℤ) (k : s.Kernel) (a : After s) (f : s.Kernel → After s)
    → Keeps s g k a
    → ((k' : s.Kernel) → Keeps s g k' (f k'))
    → Keeps s g k (follow a f)
follow-Keeps s g k (goes_on k') f h rest = Keeps-before s g k k' (f k') h (rest k')
follow-Keeps s g k reading f h rest = tt
follow-Keeps s g k undefined f h rest = tt

module _ (s : Sockets) (transform : Buffer → ℕ → Buffer × ℕ) (buf : Buffer)
    (h : (b : Buffer) (n : ℕ) → (transform b n).1 ≡ n) where
  settle-Keeps :
      (g epollfd fd : ℤ) (k : s.Kernel) (r : Handled)
      → Answered r
      → Keeps s g k (settle s epollfd fd k r)
  unfolding settle
  settle-Keeps g epollfd fd k (wrote ret b more) a =
      let some_bytes : (ret == 0) ≡ false = ground arith in
      rw some_bytes
        (λ w. s.write_keeps (s.read_until k fd more) fd g b ret (s.read_keeps k fd g more w))
  settle-Keeps g epollfd fd k (dropped more) a = absurd (ground arith)
  settle-Keeps g epollfd fd k out_of_bounds a = tt
  settle-Keeps g epollfd fd k waits a = tt

  serve_accept-keeps :
      (g listenfd epollfd : ℤ) (k : s.Kernel)
      → s.watched k g ≡ true
      → s.watched (serve_accept s listenfd epollfd k) g ≡ true
  unfolding serve_accept
  serve_accept-keeps g listenfd epollfd k w =
      s.add_keeps (s.accept k listenfd).1 epollfd (s.accept k listenfd).0 g
        (s.accept_keeps k listenfd g w)

  serve_event-Keeps :
      (g listenfd epollfd : ℤ) (ev : Ready) (k : s.Kernel)
      → Keeps s g k (serve_event s transform buf listenfd epollfd ev k)
  unfolding serve_event serve_client
  serve_event-Keeps g listenfd epollfd ev k =
      elim (Bool-cases (same_fd listenfd ev.fd && (bit_and epollin ev.events == epollin))) [
        | inl e ↦ rw e (serve_accept-keeps g listenfd epollfd k)
        | inr e ↦ elim (Bool-cases (bit_and ev.events epollin == 0)) [
          | inl z ↦ rw (e, z) (λ w. w)
          | inr z ↦
              rw (e, z)
                (settle-Keeps g epollfd ev.fd k (handle transform (s.incoming k ev.fd) buf)
                  (handle-Answered transform (s.incoming k ev.fd) buf h))
        ]
      ]

  serve_events-Keeps :
      (g listenfd epollfd : ℤ) (evs : List Ready) (k : s.Kernel)
      → Keeps s g k (serve_events s transform buf listenfd epollfd evs k)
  unfolding serve_events
  serve_events-Keeps g listenfd epollfd [] k = λ w. w
  serve_events-Keeps g listenfd epollfd (ev ∷ evs) k =
      follow-Keeps s g k (serve_event s transform buf listenfd epollfd ev k)
        (λ k'. serve_events s transform buf listenfd epollfd evs k')
        (serve_event-Keeps g listenfd epollfd ev k)
        (λ k'. serve_events-Keeps g listenfd epollfd evs k')

-- A round of a server whose transformation returns its length, over whatever events, hangs up on
-- no descriptor: unless it waits in `read` or leaves the bounds of its buffer, all descriptors that
-- were watched still are.
pub serve_round-Keeps :
    (s : Sockets) (transform : Buffer → ℕ → Buffer × ℕ) (buf : Buffer) (g listenfd epollfd : ℤ)
    (k : s.Kernel)
    → ((b : Buffer) (n : ℕ) → (transform b n).1 ≡ n)
    → Keeps s g k (serve_round s transform buf listenfd epollfd k)
unfolding serve_round
serve_round-Keeps s transform buf g listenfd epollfd k h =
    let (ready, k1) = s.epoll_wait k epollfd in
    Keeps-before s g k k1 (serve_events s transform buf listenfd epollfd ready k1)
      (s.wait_keeps k epollfd g) (serve_events-Keeps s transform buf h g listenfd epollfd ready k1)

-- An EPOLLIN event on a client's descriptor, from which the reads bring one line of at most 1023
-- bytes in whatever chunks: the server reads just these, writes the transformed line back to the
-- descriptor, and goes on.
pub serve_event-arriving :
    (s : Sockets) (transform : Buffer → ℕ → Buffer × ℕ) (buf : Buffer) (listenfd epollfd : ℤ)
    (ev : Ready) (k : s.Kernel) (css : List (List ℕ)) (more : List Chunk)
    → ((b : Buffer) (n : ℕ) → (transform b n).1 ≡ n)
    → same_fd listenfd ev.fd ≡ false
    → (bit_and ev.events epollin == 0) ≡ false
    → s.incoming k ev.fd ≡ arriving css more
    → one_line css ≡ true
    → length (joined css) < max_size
    → serve_event s transform buf listenfd epollfd ev k ≡ (
        let n = length (joined css) in
        let b = (transform (update (put_bytes buf 0 (joined css)) n newline) n).0 in
        goes_on (s.write (s.read_until k ev.fd more) ev.fd b n))
unfolding serve_event serve_client settle
serve_event-arriving s transform buf listenfd epollfd ev k css more h other ready inc one len =
    let n = length (joined css) in
    let some_bytes : (n == 0) ≡ false = one_line-length css one in
    rw (
      other,
      ready,
      inc,
      handle-arriving transform css more buf one len,
      h (update (put_bytes buf 0 (joined css)) n newline) n,
      some_bytes,
    )
