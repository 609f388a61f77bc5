-- ===== src/Server/Examples.antt =====
-- A line server with one listening socket and one client, which sends "ab" and a newline in two
-- pieces.
use libco_lite.Base.{ℕ, ◌≡◌, refl, ℤ, pos, negsuc, Bool, true, not, ◌&&◌, ◌||◌, [], ◌∷◌, arith}
use libco_lite.Platform.{CtlOp, ctl_add, ctl_mod, ctl_del}
use libco_lite.Server.{Buffer, bytes, upper}
use libco_lite.Server.Lines.{one_line, ends, joined, arriving}
use libco_lite.Server.Serve.{Sockets, goes_on, same_fd, serve_event, serve_round}
use libco_lite.Server.Clients.{Keeps, serve_round-Keeps, serve_event-arriving}

same_fd_self : (x : ℤ) → same_fd x x ≡ true
same_fd_self (pos n) = ground arith
same_fd_self (negsuc n) = ground arith

abbrev watching : (ℤ → Bool) → CtlOp → ℤ → ℤ → Bool
watching w ctl_add fd g = same_fd g fd || w g
watching w ctl_mod fd g = w g
watching w ctl_del fd g = not (same_fd g fd) && w g

watching_added : (w : ℤ → Bool) (fd : ℤ) → watching w ctl_add fd fd ≡ true
watching_added w fd = ground (arith, same_fd_self fd)

watching_kept : (w : ℤ → Bool) (fd g : ℤ) → w g ≡ true → watching w ctl_add fd g ≡ true
watching_kept w fd g h = ground arith

-- A state is the set of watched descriptors.
abbrev sockets : Sockets
sockets = record {
  Kernel = ℤ → Bool;
  socket = λ w. (pos 3, w);
  bind = λ w fd. (pos 0, w);
  listen = λ w fd. (pos 0, w);
  epoll_create = λ w. (pos 4, w);
  epoll_ctl = λ w epfd op fd. (pos 0, watching w op fd);
  epoll_wait = λ w epfd. (record { fd = pos 5; events = 1 } ∷ [], w);
  accept = λ w fd. (pos 6, w);
  incoming = λ w fd. bytes (97 ∷ []) ∷ bytes (98 ∷ 10 ∷ []) ∷ [];
  read_until = λ w fd more. w;
  write = λ w fd b n. w;
  close = λ w fd. watching w ctl_del fd;
  watched = λ w g. w g;
  add_watches = λ w epfd fd h. watching_added w fd;
  add_keeps = λ w epfd fd g h. watching_kept w fd g h;
  accept_keeps = λ w fd g h. h;
  read_keeps = λ w fd g more h. h;
  write_keeps = λ w fd g b n h. h;
  wait_keeps = λ w epfd g h. h;
}

abbrev clients : ℤ → Bool
clients fd = same_fd fd (pos 3) || same_fd fd (pos 5)

abbrev blank : Buffer
blank j = 0

upper-n : (b : Buffer) (n : ℕ) → (upper b n).1 ≡ n
unfolding upper
upper-n b n = refl

serve_round-Keeps_example :
    Keeps sockets (pos 5) clients (serve_round sockets upper blank (pos 3) (pos 4) clients)
serve_round-Keeps_example =
    serve_round-Keeps sockets upper blank (pos 5) (pos 3) (pos 4) clients upper-n

serve_event-arriving_example :
    serve_event sockets upper blank (pos 3) (pos 4) (record { fd = pos 5; events = 1 }) clients
    ≡ goes_on clients
unfolding one_line ends joined arriving
serve_event-arriving_example =
    serve_event-arriving sockets upper blank (pos 3) (pos 4) (record { fd = pos 5; events = 1 })
      clients ((97 ∷ []) ∷ (98 ∷ 10 ∷ []) ∷ []) [] upper-n refl refl refl refl (omega arith)

-- The client sends "ab" without a newline, and closes.
abbrev leaving : Sockets
leaving = record sockets { incoming = λ w fd. bytes (97 ∷ []) ∷ bytes (98 ∷ []) ∷ bytes [] ∷ [] }
