-- ===== src/Demos/Demo02/Prints.antt =====
-- What examples/demo02.c prints of what a client sends.
use libco_lite.Base.{
  ℕ, ◌+◌, ◌≤◌, ◌≡◌, ◌∙◌, ℤ, false, ◌||◌, not, none, some, List, [], ◌∷◌, arith, ◌==◌, ltb,
  if◌then◌else◌, length, inl, inr, Bool-cases,
}
use libco_lite.Platform.{ctl_del}
use libco_lite.Server.{Chunk, bytes, put_bytes}
use libco_lite.Server.Serve.{Ready, Sockets, same_fd}
use libco_lite.Chars.{
  c_string, until_nul, is_text, taken-put_bytes, put_bytes-after, c_string_lem, c_string-full,
}
use libco_lite.Demos.Demo02.{buf_size, zeros, text, closed, goes_on, poll_event}

printed :
    (cs : List ℕ)
    → length cs ≤ buf_size
    → c_string buf_size 0 (put_bytes zeros 0 cs)
      ≡ (if ltb (length cs) buf_size || not (is_text cs) then some (until_nul cs) else none)
printed cs h = elim (Bool-cases (ltb (length cs) buf_size)) [
  | inl e ↦ rw e (
      c_string_lem cs buf_size 0 (put_bytes zeros 0 cs) (ground arith) (taken-put_bytes cs 0 zeros)
        (put_bytes-after cs 0 (0 + length cs) zeros (omega arith)))
  | inr e ↦
      let full : length cs ≡ 64 = ground arith in
      rw e (
        rw full at (c_string-full cs 0 (put_bytes zeros 0 cs) (taken-put_bytes cs 0 zeros))
        ∙ elim (Bool-cases (is_text cs)) [ inl t ↦ rw t | inr t ↦ rw t ])
]

-- An event on a client, whose `read` of at most 64 bytes brings `cs`. Without a byte the client is
-- taken from the epoll instance, and stays open. Else the bytes are printed up to their first NUL
-- byte if there are less than 64 of them, or a NUL byte is among them; `printf` runs past the end of
-- `buf` if a client sends 64 bytes without one.
pub poll_event-bytes :
    (s : Sockets) (listenfd epfd : ℤ) (ev : Ready) (k : s.Kernel) (cs : List ℕ) (more : List Chunk)
    → same_fd ev.fd listenfd ≡ false
    → s.incoming k ev.fd ≡ bytes cs ∷ more
    → length cs ≤ buf_size
    → let k1 = s.read_until k ev.fd more in
      poll_event s listenfd epfd ev k ≡ (
        if length cs == 0
        then goes_on (closed ev.fd ∷ []) (s.epoll_ctl k1 epfd ctl_del ev.fd).1
        else goes_on
            (text ev.fd
                (if ltb (length cs) buf_size || not (is_text cs) then some (until_nul cs) else none)
              ∷ [])
            k1)
unfolding poll_event
poll_event-bytes s listenfd epfd ev k cs more other inc h = rw (other, inc, printed cs h)
