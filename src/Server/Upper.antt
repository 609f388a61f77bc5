-- ===== src/Server/Upper.antt =====
-- What `upper` (tools/server/upper.c) makes of a buffer.
use libco_lite.Base.{
  ℕ, zero, suc, ◌+◌, ◌-◌, ◌≤◌, ◌<◌, ◌≡◌, refl, ◌∙◌, Bool, true, ◌&&◌, arith, ◌==◌, ltb, not,
  if◌then◌else◌, update, update_self, update-ne, inl, inr, Bool-cases,
}
use libco_lite.Server.{Buffer, newline, is_lowercase, raise, upper_from, upper}

-- The capital of a letter of ASCII, where `a` to `z` are 97 to 122 and `A` to `Z` 65 to 90; any
-- other byte is itself.
unfoldable pub capital : ℕ → ℕ
capital c = if ltb 96 c && ltb c 123 then 65 + (c - 97) else c

pub raise-capital : (c : ℕ) → raise c ≡ capital c
unfolding raise is_lowercase capital
raise-capital c = ground arith

-- No newline among the `m` bytes from `i` on.
pub unbroken : (m i : ℕ) → Buffer → Bool
unbroken zero i buf = true
unbroken (suc m) i buf = not (buf i == newline) && unbroken m (i + 1) buf

unbroken-update :
    (m i k v : ℕ) (buf : Buffer) → k < i → unbroken m i (update buf k v) ≡ unbroken m i buf
unfolding unbroken
unbroken-update zero i k v buf h = refl
unbroken-update (suc m) i k v buf h = ground (arith, unbroken-update m (i + 1) k v buf)

pub upper_from-before : (r i j : ℕ) (buf : Buffer) → j < i → upper_from r i buf j ≡ buf j
unfolding upper_from
upper_from-before zero i j buf h = refl
upper_from-before (suc r) i j buf h =
    ground (arith, upper_from-before r (i + 1) j (update buf i (raise (buf i))))

upper_from-after : (r i j : ℕ) (buf : Buffer) → i + r ≤ j → upper_from r i buf j ≡ buf j
unfolding upper_from
upper_from-after zero i j buf h = refl
upper_from-after (suc r) i j buf h =
    ground (arith, upper_from-after r (i + 1) j (update buf i (raise (buf i))))

-- The byte that is `d` places on from where the loop stands.
upper_from-at :
    (r d i : ℕ) (buf : Buffer)
    → d < r
    → upper_from r i buf (i + d)
      ≡ (if unbroken (suc d) i buf then raise (buf (i + d)) else buf (i + d))
unfolding upper_from unbroken
upper_from-at zero d i buf h = absurd (omega arith)
upper_from-at (suc r) zero i buf h =
    let e : i + 0 ≡ i = omega arith in
    rw e (elim (Bool-cases (buf i == newline)) [
      | inl z ↦ rw z
      | inr z ↦ rw z (
          upper_from-before r (i + 1) i (update buf i (raise (buf i))) (omega arith)
          ∙ update_self buf i (raise (buf i)))
    ])
upper_from-at (suc r) (suc d) i buf h =
    let e : i + suc d ≡ i + 1 + d = omega arith in
    rw e (elim (Bool-cases (buf i == newline)) [
      | inl z ↦ rw z
      | inr z ↦
          rw z (
            upper_from-at r d (i + 1) (update buf i (raise (buf i))) (omega arith)
            ∙ moved r d i buf)
    ])
  where
    moved :
        (r d i : ℕ) (buf : Buffer)
        → (if unbroken (suc d) (i + 1) (update buf i (raise (buf i)))
            then raise (update buf i (raise (buf i)) (i + 1 + d))
            else update buf i (raise (buf i)) (i + 1 + d))
          ≡ (if unbroken (suc d) (i + 1) buf then raise (buf (i + 1 + d)) else buf (i + 1 + d))
    moved r d i buf = rw (
      unbroken-update (suc d) (i + 1) i (raise (buf i)) buf (omega arith),
      update-ne buf i (raise (buf i)) (i + 1 + d) (omega arith),
    )

upper-raises :
    (buf : Buffer) (n j : ℕ)
    → (upper buf n).0 j ≡ (if ltb j n && unbroken (suc j) 0 buf then raise (buf j) else buf j)
unfolding upper
upper-raises buf n j = elim (Bool-cases (ltb j n)) [
  | inl h ↦
      let z : 0 + j ≡ j = omega arith in rw h (rw z at (upper_from-at n j 0 buf (ground arith)))
  | inr h ↦ rw h (upper_from-after n 0 j buf (ground arith))
]

-- `upper` puts the ASCII capital in place of each byte among the first `n` that no newline precedes or
-- is, leaves all others as they were, and returns `n`.
pub upper_lem :
    (buf : Buffer) (n j : ℕ)
    → ((upper buf n).0 j ≡ (if ltb j n && unbroken (suc j) 0 buf then capital (buf j) else buf j))
      × ((upper buf n).1 ≡ n)
unfolding upper
upper_lem buf n j = (rw (← raise-capital (buf j)) (upper-raises buf n j), refl)

raise-newline : (c : ℕ) → (raise c == newline) ≡ (c == newline)
unfolding raise
raise-newline c = ground arith

raise-raise : (c : ℕ) → raise (raise c) ≡ raise c
unfolding raise
raise-raise c = ground arith

unbroken-cong :
    (m i : ℕ) (a b : Buffer)
    → ((k : ℕ) → (a k == newline) ≡ (b k == newline))
    → unbroken m i a ≡ unbroken m i b
unfolding unbroken
unbroken-cong zero i a b h = refl
unbroken-cong (suc m) i a b h = ground (arith, h i, unbroken-cong m (i + 1) a b h)

upper-newline : (buf : Buffer) (n k : ℕ) → ((upper buf n).0 k == newline) ≡ (buf k == newline)
upper-newline buf n k = elim (Bool-cases (ltb k n && unbroken (suc k) 0 buf)) [
  | inl h ↦ rw (upper-raises buf n k, h) (raise-newline (buf k))
  | inr h ↦ rw (upper-raises buf n k, h)
]

-- A second `upper` changes nothing.
pub upper-upper : (buf : Buffer) (n j : ℕ) → (upper (upper buf n).0 n).0 j ≡ (upper buf n).0 j
upper-upper buf n j =
    upper-raises (upper buf n).0 n j ∙ elim (Bool-cases (ltb j n && unbroken (suc j) 0 buf)) [
      | inl h ↦
          rw
            (
              unbroken-cong (suc j) 0 (upper buf n).0 buf (upper-newline buf n),
              upper-raises buf n j,
              h,
            )
            (raise-raise (buf j))
      | inr h ↦ rw (unbroken-cong (suc j) 0 (upper buf n).0 buf (upper-newline buf n), h)
    ]
