-- ===== src/Demos/Demo03.antt =====
-- examples/demo03.c: an echo server on coroutines. One coroutine accepts, and each client has one of
-- its own; `do_client` is a function of what `co_read` and `co_write` give it, `my_accept` and
-- `main` are commands on the thread.
pub mod Echo
pub mod Accept
use libco_lite.Base.{
  ℕ, ℤ, pos, negsuc, is_negative, Bool, Option, none, some, List, [], ◌∷◌, ◌==◌, ltb, if◌then◌else◌,
  update, length,
}
use libco_lite.Platform.{Platform}
use libco_lite.Thread.{accepts, World, Run, exited, Cmd, and_then, ◌>>=◌, ◌>>◌}
use libco_lite.Coroutine.{Control, co_create}
use libco_lite.Syscall.{blocking}
use libco_lite.EventLoop.{co_eventloop}
use libco_lite.Server.{Buffer, Chunk, failed, bytes, put_bytes}
use libco_lite.Server.Serve.{Sockets}
use libco_lite.Chars.{taken, c_string}

-- The size of `buf`.
abbrev pub buf_size : ℕ
buf_size = 64

-- What a round of `do_client` gets from `co_read`, and from `co_write` if it comes to that.
abbrev pub Round : Type 0
Round = Chunk × ℤ

-- Where `do_client` gets to: it returns, leaves the process by `exit(-1)`, writes past the end of
-- `buf`, or waits in `co_read`.
pub data Ended : Type 0 where
  returns exits overrun waiting : Ended

-- What was given to `co_write`, what was printed of `buf`, in their order, and the end.
pub record Session : Type 0 where
  pub offered : List (List ℕ)
  pub printed : List (Option (List ℕ))
  pub ended : Ended

abbrev pub stop : Ended → Session
stop e = record { offered = []; printed = []; ended = e }

-- A round that has called `co_write`, before the rounds that follow it.
abbrev pub echoed : List ℕ → Option (List ℕ) → ℤ → Session → Session
echoed text line wrote rest =
    if is_negative wrote
    then record { offered = text ∷ []; printed = line ∷ []; ended = exits }
    else record { offered = text ∷ rest.offered; printed = line ∷ rest.printed; ended = rest.ended }

-- The loop of `do_client`.
unfoldable pub do_client : List Round → Buffer → Session
do_client [] buf = stop waiting
do_client ((failed, wrote) ∷ rs) buf = stop exits
do_client ((bytes cs, wrote) ∷ rs) buf =
    let n = length cs in
    let buf' = update (put_bytes buf 0 cs) n 0 in
    let rest = do_client rs buf' in
    if n == 0
    then stop returns
    else (if ltb n buf_size
        then echoed (taken n 0 buf') (c_string buf_size 0 buf') wrote rest
        else stop overrun)

-- `main` up to `listen`, over what `setsockopt` does: the listening socket, or `exit(-1)`. Only the
-- result of `bind` is looked at.
unfoldable pub set_up :
    (s : Sockets) (setsockopt : s.Kernel → ℤ → ℤ × s.Kernel) → s.Kernel → Option (ℤ × s.Kernel)
set_up s setsockopt k =
    let (listenfd, k1) = s.socket k in
    let (reuse, k2) = setsockopt k1 listenfd in
    let (bound, k3) = s.bind k2 listenfd in
    let (listening, k4) = s.listen k3 listenfd in
    if is_negative bound then none else some (listenfd, k4)

module _ {p : Platform} where
  -- The loop of `my_accept` behind `co_accept`, which has returned `clifd`; `client_fn` is the
  -- address of `do_client`. The result of `co_create` is not looked at.
  unfoldable pub accepted : (rounds client_fn listenfd : ℕ) → ℤ → Cmd p Control
  accepted rounds client_fn listenfd (negsuc n) = λ w. exited 255
  accepted rounds client_fn listenfd (pos clifd) = do
    made ← co_create client_fn clifd
    blocking rounds accepts listenfd

  -- `main` behind `listen`: `accept_fn` is the address of `my_accept`, and `arg` that of `listenfd`.
  unfoldable pub serve : (rounds accept_fn arg : ℕ) → Cmd p Control
  serve rounds accept_fn arg = do made ← co_create accept_fn arg; co_eventloop rounds
