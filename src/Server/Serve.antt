-- ===== src/Server/Serve.antt =====
-- The main programs of the line servers (tools/server/upper.c and reverse.c, `main`), over the
-- socket and epoll calls that they make.
use libco_lite.Base.{
  ℕ, ◌≡◌, ℤ, pos, negsuc, is_negative, Bool, true, false, ◌&&◌, not, List, [], ◌∷◌, ◌==◌, bit_and,
  if◌then◌else◌,
}
use libco_lite.Platform.{CtlOp, ctl_add, ctl_del}
use libco_lite.Thread.{epollin}
use libco_lite.Server.{Buffer, Chunk, Handled, wrote, dropped, out_of_bounds, waits, handle}

-- `wait_events[i]`.
pub record Ready : Type 0 where
  pub fd : ℤ
  pub events : ℕ

-- The calls, and which descriptors the epoll instance watches. `incoming` is what the calls of
-- `read` on a descriptor will bring, and `read_until` the state behind those that leave `more`.
pub record Sockets : Type 1 where
  pub Kernel : Type 0
  pub socket : Kernel → ℤ × Kernel
  pub bind : Kernel → ℤ → ℤ × Kernel
  pub listen : Kernel → ℤ → ℤ × Kernel
  pub epoll_create : Kernel → ℤ × Kernel
  pub epoll_ctl : Kernel → ℤ → CtlOp → ℤ → ℤ × Kernel
  -- No events where `epoll_wait` fails.
  pub epoll_wait : Kernel → ℤ → List Ready × Kernel
  pub accept : Kernel → ℤ → ℤ × Kernel
  pub incoming : Kernel → ℤ → List Chunk
  pub read_until : Kernel → ℤ → List Chunk → Kernel
  pub write : Kernel → ℤ → Buffer → ℕ → Kernel
  pub close : Kernel → ℤ → Kernel
  pub watched : Kernel → ℤ → Bool
  -- EPOLL_CTL_ADD that succeeds watches its descriptor; nothing but EPOLL_CTL_DEL and `close` ends
  -- a watch.
  pub add_watches :
      (k : Kernel) (epfd fd : ℤ)
      → (epoll_ctl k epfd ctl_add fd).0 ≡ pos 0
      → watched (epoll_ctl k epfd ctl_add fd).1 fd ≡ true
  pub add_keeps :
      (k : Kernel) (epfd fd g : ℤ)
      → watched k g ≡ true
      → watched (epoll_ctl k epfd ctl_add fd).1 g ≡ true
  pub accept_keeps : (k : Kernel) (fd g : ℤ) → watched k g ≡ true → watched (accept k fd).1 g ≡ true
  pub read_keeps :
      (k : Kernel) (fd g : ℤ) (more : List Chunk)
      → watched k g ≡ true
      → watched (read_until k fd more) g ≡ true
  pub write_keeps :
      (k : Kernel) (fd g : ℤ) (b : Buffer) (n : ℕ)
      → watched k g ≡ true
      → watched (write k fd b n) g ≡ true
  pub wait_keeps :
      (k : Kernel) (epfd g : ℤ) → watched k g ≡ true → watched (epoll_wait k epfd).1 g ≡ true

abbrev pub same_fd : ℤ → ℤ → Bool
same_fd (pos a) (pos b) = a == b
same_fd (negsuc a) (negsuc b) = a == b
same_fd (pos a) (negsuc b) = false
same_fd (negsuc a) (pos b) = false

abbrev pub is_zero : ℤ → Bool
is_zero x = same_fd x (pos 0)

-- How `main` gets to its loop: with the two descriptors, or by `exit(-1)`.
pub data Started (s : Sockets) : Type 0 where
  serving : (listenfd epollfd : ℤ) → s.Kernel → Started s
  exits : s.Kernel → Started s

-- An event dealt with; a `read` that is not answered yet; or memory touched that is not its own.
pub data After (s : Sockets) : Type 0 where
  goes_on : s.Kernel → After s
  reading : After s
  undefined : After s

abbrev pub follow : {s : Sockets} → After s → (s.Kernel → After s) → After s
follow (goes_on k) f = f k
follow reading f = reading
follow undefined f = undefined

module _ (s : Sockets) where
  -- `main` in front of the loop.
  unfoldable pub start : s.Kernel → Started s
  start k =
      let (listenfd, k1) = s.socket k in
      let (bound, k2) = s.bind k1 listenfd in
      let (listening, k3) = s.listen k2 listenfd in
      let (epollfd, k4) = s.epoll_create k3 in
      let (added, k5) = s.epoll_ctl k4 epollfd ctl_add listenfd in
      if not (is_zero bound)
      then exits k2
      else (if not (is_zero listening)
          then exits k3
          else (if is_negative epollfd
              then exits k4
              else (if is_zero added then serving listenfd epollfd k5 else exits k5)))

  -- `epoll_ctl(..., EPOLL_CTL_DEL, ...)` and `close`.
  abbrev pub hang_up : (epollfd fd : ℤ) → s.Kernel → s.Kernel
  hang_up epollfd fd k = s.close (s.epoll_ctl k epollfd ctl_del fd).1 fd

  -- What `main` does with the result of `handle`; the answer has been written within it.
  unfoldable pub settle : (epollfd fd : ℤ) → s.Kernel → Handled → After s
  settle epollfd fd k (wrote ret b more) =
      let answered = s.write (s.read_until k fd more) fd b ret in
      goes_on (if ret == 0 then hang_up epollfd fd answered else answered)
  settle epollfd fd k (dropped more) = goes_on (hang_up epollfd fd (s.read_until k fd more))
  settle epollfd fd k out_of_bounds = undefined
  settle epollfd fd k waits = reading

  -- The branch for a client.
  unfoldable pub serve_client :
      (Buffer → ℕ → Buffer × ℕ) → Buffer → (epollfd fd : ℤ) → s.Kernel → After s
  unfolding settle
  serve_client transform buf epollfd fd k =
      settle epollfd fd k (handle transform (s.incoming k fd) buf)

  -- The branch for the listening socket.
  unfoldable pub serve_accept : (listenfd epollfd : ℤ) → s.Kernel → s.Kernel
  serve_accept listenfd epollfd k =
      let (clientfd, k1) = s.accept k listenfd in (s.epoll_ctl k1 epollfd ctl_add clientfd).1

  -- The body of the `for` loop.
  unfoldable pub serve_event :
      (Buffer → ℕ → Buffer × ℕ) → Buffer → (listenfd epollfd : ℤ) → Ready → s.Kernel → After s
  serve_event transform buf listenfd epollfd ev k =
      if same_fd listenfd ev.fd && (bit_and epollin ev.events == epollin)
      then goes_on (serve_accept listenfd epollfd k)
      else (if bit_and ev.events epollin == 0
          then goes_on k
          else serve_client transform buf epollfd ev.fd k)

  unfoldable pub serve_events :
      (Buffer → ℕ → Buffer × ℕ) → Buffer → (listenfd epollfd : ℤ) → List Ready → s.Kernel → After s
  serve_events transform buf listenfd epollfd [] k = goes_on k
  serve_events transform buf listenfd epollfd (ev ∷ evs) k =
      follow (serve_event transform buf listenfd epollfd ev k)
        (λ k'. serve_events transform buf listenfd epollfd evs k')

  -- One round of `while (1)`.
  unfoldable pub serve_round :
      (Buffer → ℕ → Buffer × ℕ) → Buffer → (listenfd epollfd : ℤ) → s.Kernel → After s
  serve_round transform buf listenfd epollfd k =
      let (ready, k1) = s.epoll_wait k epollfd in
      serve_events transform buf listenfd epollfd ready k1
