-- ===== src/System/Preserve.antt =====
-- The changes that the library's calls make to an environment in front of `schedule`, and the
-- invariant.
use libco_lite.Base.{
  ℕ, ◌+◌, ◌-◌, ◌≡◌, ◌≢◌, refl, sym, subst, ◌⊎◌, inl, inr, true, false, none, some, List, [], ◌∷◌,
  ◌++◌, arith, ◌==◌, ◌||◌, is_some, update, Bool-cases,
}
use libco_lite.Platform.{Platform, has, erase}
use libco_lite.Thread.{wait, exit, Task, ThreadEnv}
use libco_lite.Thread.Valid.{IsValid, put-IsValid, queue-IsValid}
use libco_lite.Coroutine.Create.{born}
use libco_lite.System.Linked.{IsLinked, IsLive}

pub has-append : (a : ℕ) (xs ys : List ℕ) → has a (xs ++ ys) ≡ (has a xs || has a ys)
has-append a [] ys = refl
has-append a (x ∷ xs) ys = ground (arith, has-append a xs ys)

-- A list without an entry stays without it, and an entry that is appended last goes alone.
erase-append_last :
    (a t : ℕ) (xs : List ℕ)
    → has t xs ≡ false
    → has a (erase a xs) ≡ false
    → has a (erase a (xs ++ t ∷ [])) ≡ false
erase-append_last a t [] h k = ground arith
erase-append_last a t (x ∷ xs) h k =
    ground (arith, has-append a xs (t ∷ []), erase-append_last a t xs)

module _ {p : Platform} where
  -- The current task writes its own block: all but its `id` and the place where it goes on.
  pub put-IsLinked :
      (e : ThreadEnv p) (a b : Task)
      → IsLive e
      → e.task e.current ≡ some a
      → b.id ≡ a.id
      → b.frame ≡ a.frame
      → IsLinked (record e { task = update e.task e.current (some b) })
  put-IsLinked e a b l h same_id same_frame = record {
    valid = put-IsValid e e.current a b e.block_queue l.linked.valid h same_id;
    ended = λ j t f x. elim (Bool-cases (e.current == j)) [
      | inl c ↦ absurd (l.alive a h (l.linked.ended e.current a h (ground arith)))
      | inr c ↦ l.linked.ended j t (ground arith) x
    ];
    queued = λ fd j x. elim (Bool-cases (e.current == j)) [
      | inl c ↦
          let jc : e.current ≡ j = ground arith in
          absurd
            (ground (arith, subst (λ k. has k (p.contents e.block_queue fd) ≡ false) jc (l.off fd)))
      | inr c ↦ let (t, f, s) = l.linked.queued fd j x in (t, ground arith, s)
    ];
    once = l.linked.once;
    single = l.linked.single;
  }

  pub put-IsLive :
      (e : ThreadEnv p) (a b : Task)
      → IsLive e
      → e.task e.current ≡ some a
      → b.id ≡ a.id
      → b.frame ≡ a.frame
      → b.status ≢ exit
      → IsLive (record e { task = update e.task e.current (some b) })
  put-IsLive e a b l h same_id same_frame s = record {
    linked = put-IsLinked e a b l h same_id same_frame;
    alive = λ t f x. s (ground arith);
    off = l.off;
  }

  -- A new coroutine in a free slot.
  pub born-IsLive :
      (e : ThreadEnv p) (id co_fn arg : ℕ)
      → IsLive e
      → is_some (e.task id) ≡ false
      → IsValid (record e {
        task_count = e.task_count + 1;
        task = update e.task id (some (born id co_fn arg));
      })
      → IsLive (record e {
        task_count = e.task_count + 1;
        task = update e.task id (some (born id co_fn arg));
      })
  born-IsLive e id co_fn arg l free v = record {
    linked = record {
      valid = v;
      ended = λ j t f x. elim (Bool-cases (id == j)) [
        | inl c ↦ absurd (ground arith)
        | inr c ↦ l.linked.ended j t (ground arith) x
      ];
      queued = λ fd j x. let (t, f, s) = l.linked.queued fd j x in (t, ground arith, s);
      once = l.linked.once;
      single = l.linked.single;
    };
    alive = λ t f x. ground (arith, l.alive t, l.linked.valid.current_live);
    off = l.off;
  }

  -- A coroutine that has ended is freed.
  pub freed-IsLive :
      (e : ThreadEnv p) (cid : ℕ) (t : Task)
      → IsLive e
      → e.task cid ≡ some t
      → t.status ≡ exit
      → IsValid (record e { task = update e.task cid none; task_count = e.task_count - 1 })
      → IsLive (record e { task = update e.task cid none; task_count = e.task_count - 1 })
  freed-IsLive e cid t l h s v = record {
    linked = record {
      valid = v;
      ended = λ j x f k. l.linked.ended j x (ground arith) k;
      queued = λ fd j x. let (y, f, k) = l.linked.queued fd j x in (y, ground arith, k);
      once = l.linked.once;
      single = l.linked.single;
    };
    alive = λ x f k. ground (arith, l.alive x);
    off = l.off;
  }

  -- The current task, waiting, goes to the end of a queue.
  pub insert-IsLinked :
      (e : ThreadEnv p) (fd : ℕ) (t : Task)
      → IsLive e
      → e.task e.current ≡ some t
      → t.status ≡ wait
      → IsLinked (record e { block_queue = p.tailq_insert_tail e.block_queue fd e.current })
  insert-IsLinked e fd t l h s = record {
    valid = queue-IsValid e _ l.linked.valid;
    ended = l.linked.ended;
    queued = λ g j x. elim (on g j x) [
      | inl y ↦ l.linked.queued g j y
      | inr (gf, jc) ↦ (t, subst (λ k. e.task k ≡ some t) (sym jc) h, s)
    ];
    once = λ g k j x y. once g k j (on g j x) (on k j y);
    single = single;
  }
    where
      new : p.Queues
      new = p.tailq_insert_tail e.block_queue fd e.current

      on :
          (g j : ℕ)
          → has j (p.contents new g) ≡ true
          → (has j (p.contents e.block_queue g) ≡ true) ⊎ ((g ≡ fd) × (j ≡ e.current))
      on g j x = ground (
        arith,
        p.insert_lem e.block_queue fd e.current l.off g,
        has-append j (p.contents e.block_queue g) (e.current ∷ []),
      )

      once :
          (g k j : ℕ)
          → (has j (p.contents e.block_queue g) ≡ true) ⊎ ((g ≡ fd) × (j ≡ e.current))
          → (has j (p.contents e.block_queue k) ≡ true) ⊎ ((k ≡ fd) × (j ≡ e.current))
          → g ≡ k
      once g k j (inl x) (inl y) = l.linked.once g k j x y
      once g k j (inl x) (inr (a, c)) = absurd (
          ground (arith, subst (λ i. has i (p.contents e.block_queue g) ≡ false) (sym c) (l.off g)))
      once g k j (inr (a, c)) (inl y) = absurd (
          ground (arith, subst (λ i. has i (p.contents e.block_queue k) ≡ false) (sym c) (l.off k)))
      once g k j (inr (a, b)) (inr (c, d)) = omega arith

      single : (g j : ℕ) → has j (erase j (p.contents new g)) ≡ false
      single g j = elim (Bool-cases (fd == g)) [
        | inl c ↦ ground (
          arith,
          p.insert_lem e.block_queue fd e.current l.off g,
          erase-append_last j e.current (p.contents e.block_queue g) (l.off g)
              (l.linked.single g j),
        )
        | inr c ↦
            ground (arith, p.insert_lem e.block_queue fd e.current l.off g, l.linked.single g j)
      ]
