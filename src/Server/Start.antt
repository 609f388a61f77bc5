-- ===== src/Server/Start.antt =====
-- How `main` of the line servers (tools/server/upper.c and reverse.c) gets to its loop.
use libco_lite.Base.{
  ◌≡◌, ◌≢◌, ◌⊎◌, refl, ap, ℤ, pos, negsuc, is_negative, Bool, true, false, ◌&&◌, not, arith,
  if◌then◌else◌, inl, inr,
}
use libco_lite.Platform.{ctl_add}
use libco_lite.Server.Serve.{Sockets, Started, serving, exits, is_zero, start}

is_zero_lem : (x : ℤ) → is_zero x ≡ true → x ≡ pos 0
is_zero_lem (pos n) h = ap pos (ground arith)
is_zero_lem (negsuc n) h = absurd (ground arith)

-- The tests that `main` makes, in their order.
tests :
    (s : Sockets) (a b n d : Bool) (k2 k3 k4 k5 : s.Kernel) (l e : ℤ)
    → let r : Started s =
        (if not a
          then exits k2
          else (if not b
              then exits k3
              else (if n then exits k4 else (if d then serving l e k5 else exits k5)))) in
      ((a && b && not n && d ≡ true) × (d ≡ true) × (r ≡ serving l e k5))
      ⊎ ((a && b && not n && d ≡ false) × ((x y : ℤ) (c : s.Kernel) → r ≢ serving x y c))
tests s false b n d k2 k3 k4 k5 l e = inr (refl, λ x y c q. ground arith)
tests s true false n d k2 k3 k4 k5 l e = inr (refl, λ x y c q. ground arith)
tests s true true true d k2 k3 k4 k5 l e = inr (refl, λ x y c q. ground arith)
tests s true true false false k2 k3 k4 k5 l e = inr (refl, λ x y c q. ground arith)
tests s true true false true k2 k3 k4 k5 l e = inl (refl, refl, refl)

-- `main` reaches its loop exactly when `bind`, `listen` and the `epoll_ctl` of the listening socket
-- return 0 and `epoll_create` returns no negative number, each called in the state that the one
-- before it left. The listening socket is watched then.
pub start_lem :
    (s : Sockets) (k : s.Kernel)
    → let (listenfd, k1) = s.socket k in
      let (bound, k2) = s.bind k1 listenfd in
      let (listening, k3) = s.listen k2 listenfd in
      let (epollfd, k4) = s.epoll_create k3 in
      let (added, k5) = s.epoll_ctl k4 epollfd ctl_add listenfd in
      let fine = is_zero bound && is_zero listening && not (is_negative epollfd) && is_zero added in
      ((fine ≡ true) × (start s k ≡ serving listenfd epollfd k5) × (s.watched k5 listenfd ≡ true))
      ⊎ ((fine ≡ false) × ((a b : ℤ) (c : s.Kernel) → start s k ≢ serving a b c))
unfolding start
start_lem s k =
    let (listenfd, k1) = s.socket k in
    let (bound, k2) = s.bind k1 listenfd in
    let (listening, k3) = s.listen k2 listenfd in
    let (epollfd, k4) = s.epoll_create k3 in
    let (added, k5) = s.epoll_ctl k4 epollfd ctl_add listenfd in
    elim (tests s (is_zero bound) (is_zero listening) (is_negative epollfd) (is_zero added) k2 k3 k4
      k5 listenfd epollfd) [
        | inl (fine, z, e) ↦ inl (fine, e, s.add_watches k4 epollfd listenfd (is_zero_lem added z))
        | inr r ↦ inr r
      ]
