-- ===== src/Demos/Demo02.antt =====
-- examples/demo02.c: a server without coroutines, which prints what its clients send.
pub mod Prints
use libco_lite.Base.{
  ℕ, ℤ, is_negative, Bool, Option, none, some, List, [], ◌∷◌, ◌++◌, ◌==◌, ltb, if◌then◌else◌,
  length,
}
use libco_lite.Platform.{ctl_add, ctl_del}
use libco_lite.Server.{Buffer, Chunk, failed, bytes, put_bytes}
use libco_lite.Server.Serve.{Ready, Sockets, Started, serving, exits, same_fd}
use libco_lite.Chars.{c_string}

-- The size of `buf`, and `{ 0 }`.
abbrev pub buf_size : ℕ
buf_size = 64

abbrev pub zeros : Buffer
zeros j = 0

-- What is printed for an event: the number of a new client, that one has closed, or what it has
-- sent, `none` where `printf` runs past the end of `buf`.
pub data Shown : Type 0 where
  came_in : ℤ → Shown
  closed : ℤ → Shown
  text : ℤ → Option (List ℕ) → Shown

-- An event dealt with, or a `read` that is not answered yet.
pub data Polled (s : Sockets) : Type 0 where
  goes_on : List Shown → s.Kernel → Polled s
  reading : List Shown → Polled s

abbrev pub showing : {s : Sockets} → List Shown → Polled s → Polled s
showing xs (goes_on ys k) = goes_on (xs ++ ys) k
showing xs (reading ys) = reading (xs ++ ys)

module _ (s : Sockets) where
  -- `main` up to its loop, with `argc` arguments. What `socket`, `listen` and `epoll_ctl` return is
  -- not looked at.
  unfoldable pub start : ℕ → s.Kernel → Started s
  start argc k =
      let (listenfd, k1) = s.socket k in
      let (bound, k2) = s.bind k1 listenfd in
      let (listening, k3) = s.listen k2 listenfd in
      let (epfd, k4) = s.epoll_create k3 in
      let (added, k5) = s.epoll_ctl k4 epfd ctl_add listenfd in
      if ltb argc 3
      then exits k
      else (if is_negative bound
          then exits k2
          else (if is_negative epfd then exits k4 else serving listenfd epfd k5))

  -- The branch for a client, over what its reads bring.
  unfoldable pub receive : (epfd fd : ℤ) → List Chunk → s.Kernel → Polled s
  receive epfd fd [] k = reading []
  receive epfd fd (failed ∷ more) k =
      goes_on (text fd (c_string buf_size 0 zeros) ∷ []) (s.read_until k fd more)
  receive epfd fd (bytes cs ∷ more) k =
      let k1 = s.read_until k fd more in
      if length cs == 0
      then goes_on (closed fd ∷ []) (s.epoll_ctl k1 epfd ctl_del fd).1
      else goes_on (text fd (c_string buf_size 0 (put_bytes zeros 0 cs)) ∷ []) k1

  -- The body of the `for` loop.
  unfoldable pub poll_event : (listenfd epfd : ℤ) → Ready → s.Kernel → Polled s
  unfolding receive
  poll_event listenfd epfd ev k =
      let (clifd, k1) = s.accept k listenfd in
      if same_fd ev.fd listenfd
      then goes_on (came_in clifd ∷ []) (s.epoll_ctl k1 epfd ctl_add clifd).1
      else receive epfd ev.fd (s.incoming k ev.fd) k

  -- A round of `while(1)` behind an `epoll_wait` that has not failed.
  unfoldable pub poll_events : (listenfd epfd : ℤ) → List Ready → s.Kernel → Polled s
  poll_events listenfd epfd [] k = goes_on [] k
  poll_events listenfd epfd (ev ∷ evs) k = elim (poll_event listenfd epfd ev k) [
    | goes_on xs k' ↦ showing xs (poll_events listenfd epfd evs k')
    | reading xs ↦ reading xs
  ]
