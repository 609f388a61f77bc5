-- ===== src/Demos/Examples.antt =====
-- The example programs at concrete clients, and on the thread of `Scene`.
use libco_lite.Base.{ℕ, zero, suc, true, ◌≡◌, refl, pos, none, List, [], ◌∷◌, arith}
use libco_lite.Server.{Buffer, bytes}
use libco_lite.Scene.{world, env-IsValid}
use libco_lite.Server.Serve.{Sockets}
use libco_lite.Chars.{is_text}
use libco_lite.Demos.Demo02.{text, goes_on, poll_event}
use libco_lite.Demos.Demo02.Prints.{poll_event-bytes}
use libco_lite.Demos.Demo03.{returns, do_client, accepted}
use libco_lite.Demos.Demo03.Echo.{talk, all_fit, texts, lines, do_client-talk}
use libco_lite.Demos.Demo03.Accept.{Accepted, accepted-Accepted}

abbrev blank : Buffer
blank j = 0

-- "ab", of which one byte is taken, and then a single NUL byte.
abbrev sent : List (List ℕ × ℕ)
sent = (97 ∷ 98 ∷ [], 1) ∷ (0 ∷ [], 1) ∷ []

do_client-talk_example :
    do_client (talk sent ((bytes [], pos 0) ∷ [])) blank
    ≡ record { offered = texts sent; printed = lines sent; ended = returns }
unfolding all_fit
do_client-talk_example = do_client-talk sent (pos 0) [] blank refl

accepted-Accepted_example : Accepted world 2 7 5 (accepted 2 7 5 (pos 9) world) (pos 9)
accepted-Accepted_example = accepted-Accepted 2 7 5 (pos 9) world env-IsValid

unfoldable repeated : ℕ → List ℕ
repeated zero = []
repeated (suc n) = 97 ∷ repeated n

-- A client on descriptor 5 that sends 64 bytes at once, and a kernel without a state.
abbrev sockets : Sockets
sockets = record {
  Kernel = Unit;
  socket = λ k. (pos 3, k);
  bind = λ k fd. (pos 0, k);
  listen = λ k fd. (pos 0, k);
  epoll_create = λ k. (pos 4, k);
  epoll_ctl = λ k epfd op fd. (pos 0, k);
  epoll_wait = λ k epfd. ([], k);
  accept = λ k fd. (pos 6, k);
  incoming = λ k fd. bytes (repeated 64) ∷ [];
  read_until = λ k fd more. k;
  write = λ k fd b n. k;
  close = λ k fd. k;
  watched = λ k g. true;
  add_watches = λ k epfd fd h. refl;
  add_keeps = λ k epfd fd g h. refl;
  accept_keeps = λ k fd g h. refl;
  read_keeps = λ k fd g more h. refl;
  write_keeps = λ k fd g b n h. refl;
  wait_keeps = λ k epfd g h. refl;
}

-- 64 bytes "a".
abbrev full : List ℕ
full = repeated 64

poll_event-bytes_example :
    poll_event sockets (pos 3) (pos 4) (record { fd = pos 5; events = 1 }) tt
    ≡ goes_on (text (pos 5) none ∷ []) tt
unfolding repeated is_text
poll_event-bytes_example =
    poll_event-bytes sockets (pos 3) (pos 4) (record { fd = pos 5; events = 1 }) tt full [] refl
      refl (omega arith)
