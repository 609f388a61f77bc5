-- ===== src/Board/Stray.antt =====
-- A coroutine that waits and stands on no block queue (src/cosyscall.c, src/coeventloop.c).
use libco_lite.Base.{
  ℕ, ◌≡◌, ◌≢◌, sym, ap, ◌∙◌, inl, inr, true, false, some, List, [], ◌∷◌, arith, ◌==◌, ==_iff,
  Option, if◌then◌else◌, bit_and, ==_refl, ◌<◌, Bool-cases,
}
use libco_lite.Platform.{Platform, EpollEvent, has}
use libco_lite.Thread.{max_fd, wait, Task, ThreadEnv, World, Run}
use libco_lite.Thread.Returns.{Returns, returns}
use libco_lite.EventLoop.{dispatch}
use libco_lite.EventLoop.Dispatch.{
  Dispatched, nobody, dangling, served, matches, dispatch-Dispatched,
}
use libco_lite.Coroutine.{Control, returns_int, returns_nothing, goes}
use libco_lite.System.{Reach, here, step, outside}
use libco_lite.System.Linked.{IsLive, IsSafe}
use libco_lite.System.Preserve.{has-append}
use libco_lite.System.Safety.{Reach-IsSafe}
use libco_lite.Board.{
  Entry, Board, Writes, entry, shown, view, Quiet, spawns, reaps, marks, parks, serves, rouses,
  Quiets, none_yet, and_then, runs, Picks, Refines,
}
use libco_lite.Board.Steps.{Step-Refines}

pub record IsStray (j : ℕ) (b : Board) : Type 0 where
  pub entry : Entry
  pub there : b.slots j ≡ some entry
  pub waits : entry.status ≡ wait
  pub aside : b.current ≢ j
  pub off : (fd : ℕ) → has j (b.queues fd) ≡ false

-- It stays so where its slot, the current coroutine and its absence from the queues stay.
moved :
    {b c : Board} {j : ℕ}
    → IsStray j b
    → c.current ≡ b.current
    → c.slots j ≡ b.slots j
    → ((fd : ℕ) → has j (c.queues fd) ≡ false)
    → IsStray j c
moved s same slot off = record {
  entry = s.entry;
  there = slot ∙ s.there;
  waits = s.waits;
  aside = λ x. s.aside (sym same ∙ x);
  off = off;
}

Writes-IsStray :
    {b c : Board} {j i : ℕ} {o : Option Entry}
    → Writes b c i o
    → (i == j) ≡ false
    → IsStray j b
    → IsStray j c
Writes-IsStray {j = j} w other s =
    moved s w.same_current (ground (arith, w.written j))
      (λ fd. ap (has j) (w.same_queues fd) ∙ s.off fd)

other : (b : Board) (i j : ℕ) → (b.slots i ≡ b.slots j → true ≡ false) → (i == j) ≡ false
other b i j h = elim (Bool-cases (i == j)) [
  | inl z ↦ absurd (let same = ap b.slots ((==_iff i j).0 z) in let no_way = h same in cc)
  | inr z ↦ z
]

Quiet-IsStray : {b c : Board} {j : ℕ} → Quiet b c → IsStray j b → IsStray j c
Quiet-IsStray {b} {j = j} (spawns i e f r w) s =
    Writes-IsStray w (other b i j (λ x. ground (arith, s.there))) s
Quiet-IsStray {b} {j = j} (reaps i e f x w) s =
    Writes-IsStray w (other b i j (λ y. ground (arith, s.there, s.waits))) s
Quiet-IsStray {b} {j = j} (marks a e f w) s = let ne = s.aside in Writes-IsStray w (ground arith) s
Quiet-IsStray {b} {j = j} (parks fd e f x o same_current same q) s =
    moved s same_current (same j) λ g.
      let ne = s.aside in ground (arith, q g, s.off g, has-append j (b.queues g) (b.current ∷ []))
Quiet-IsStray {b} {c} {j} (serves fd i rest e f o x same_current q slots) s =
    let apart : i ≢ j = λ y. absurd (ground (arith, s.off fd)) in
    moved s same_current (elim slots [ inl same ↦ same j | inr woken ↦ ground (arith, woken j) ])
      λ g. elim (Bool-cases (fd == g)) [
        | inl z ↦ ground (arith, q g, s.off fd)
        | inr z ↦ ground (arith, q g, s.off g)
      ]
Quiet-IsStray {j = j} (rouses same_current q slots) s =
    moved s same_current (ground (arith, slots j, s.there, s.waits))
      (λ fd. ap (has j) (q fd) ∙ s.off fd)

Quiets-IsStray : {b c : Board} {j : ℕ} → Quiets b c → IsStray j b → IsStray j c
Quiets-IsStray none_yet s = s
Quiets-IsStray (and_then q m) s = Quiet-IsStray m (Quiets-IsStray q s)

Picks-IsStray : {b c : Board} {j : ℕ} → Picks b c → IsStray j b → IsStray j c
Picks-IsStray {b} {c} {j} p s = record {
  entry = s.entry;
  there = p.same_slots j ∙ s.there;
  waits = s.waits;
  aside = λ x.
      absurd
        (ground (arith, p.chosen, ap (λ i. runs (c.slots i)) x, p.same_slots j, s.there, s.waits));
  off = λ fd. ap (has j) (p.same_queues fd) ∙ s.off fd;
}

Refines-IsStray : (k : Control) {b c : Board} {j : ℕ} → Refines k b c → IsStray j b → IsStray j c
Refines-IsStray (returns_int n) q s = Quiets-IsStray q s
Refines-IsStray returns_nothing q s = Quiets-IsStray q s
Refines-IsStray (goes f) (d, q, p) s = Picks-IsStray p (Quiets-IsStray q s)

-- A coroutine that waits on no block queue, and is not current, never gets the turn again: in every
-- run from a safe configuration it stays as it is.
pub Reach-IsStray :
    {p : Platform} {c : Control} {w : World p} {d : Control} {v : World p} {j : ℕ}
    → IsSafe c w
    → IsStray j (view w)
    → Reach c w d v
    → IsStray j (view v)
Reach-IsStray s stray here = stray
Reach-IsStray s stray (step {e} r st) =
    Refines-IsStray e (Step-Refines (Reach-IsSafe s r) st) (Reach-IsStray s stray r)
Reach-IsStray s stray (outside r k) = Reach-IsStray s stray r

-- An event on a descriptor within MAX_FD, in a live environment, that shares no bit with the mask
-- which the first coroutine on the descriptor's queue keeps for it: the coroutine is taken off the
-- queue and waits on none.
pub dispatch-IsStray :
    {p : Platform} (w : World p) (ev : EpollEvent) (j : ℕ) (rest : List ℕ) (t : Task)
    → IsLive w.env
    → ev.fd < max_fd
    → p.contents w.block_queue ev.fd ≡ j ∷ rest
    → w.task j ≡ some t
    → bit_and (t.events ev.fd).mask ev.events ≡ 0
    → Returns (λ _ v. IsStray j (view v)) (dispatch ev w)
dispatch-IsStray {p} w ev j rest t l h e o z = by_outcome (dispatch-Dispatched w ev h)
  where
    on : has j (p.contents w.block_queue ev.fd) ≡ true
    on = rw e (ground arith)

    waited : t.status ≡ wait
    waited = let (x, f, s) = l.linked.queued ev.fd j on in ground arith

    off :
        (v : World p)
        → ((g : ℕ)
            → p.contents v.block_queue g
              ≡ (if ev.fd == g then rest else p.contents w.block_queue g))
        → (g : ℕ) → has j (p.contents v.block_queue g) ≡ false
    off v q g = elim (Bool-cases (ev.fd == g)) [
      | inl c ↦ ground (arith, q g, e, l.linked.single ev.fd j, ==_refl j)
      | inr c ↦ elim (Bool-cases (has j (p.contents w.block_queue g))) [
        | inr a ↦ ground (arith, q g)
        | inl a ↦ absurd (ground (arith, l.linked.once ev.fd g j on a))
      ]
    ]

    tails : (r : List ℕ) (k : ℕ) → p.contents w.block_queue ev.fd ≡ k ∷ r → r ≡ rest
    tails r k n = ground arith

    by_outcome : {r : Run p (Unit {0})} → Dispatched w ev r → Returns (λ _ v. IsStray j (view v)) r
    by_outcome (nobody n f) = absurd (ground arith)
    by_outcome (dangling k r n d f) = absurd (ground arith)
    by_outcome (served k r x v n d f kernel env_eq q) =
        let same_task : x ≡ t = ground arith in
        let no_match : matches ev x ≡ false = rw (same_task, z) in
        let slot : v.task j ≡ w.task j = ap (λ (y : ThreadEnv p). y.task j) env_eq ∙ rw no_match in
        let here : v.current ≡ w.current = ap (λ (y : ThreadEnv p). y.current) env_eq in
        rw f (
          returns (record {
            entry = entry t;
            there = ap shown (slot ∙ o);
            waits = waited;
            aside = λ c. absurd (
                ground (
                  arith,
                  ap (λ i. has i (p.contents w.block_queue ev.fd)) (sym here ∙ c),
                  on,
                  l.off ev.fd,
                ));
            off = off v (λ g. q g ∙ rw (tails r k n));
          }))
