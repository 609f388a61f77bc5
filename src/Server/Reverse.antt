-- ===== src/Server/Reverse.antt =====
-- What `reverse` (tools/server/reverse.c) makes of a buffer.
use libco_lite.Base.{
  ℕ, zero, suc, ◌+◌, ◌-◌, ◌≤◌, ◌<◌, ◌≡◌, ◌≢◌, ap, sym, ◌∙◌, ◌⊎◌, true, false, ◌&&◌, some, arith,
  ◌==◌, ltb, leb, if◌then◌else◌, inl, inr, Bool-cases,
}
use libco_lite.Server.{Buffer, swap, reverse_from, reverse}

-- The bytes from `left` to `right` the other way round.
pub mirrored : (left right : ℕ) → Buffer → Buffer
mirrored left right buf j = if leb left j && leb j right then buf (left + right - j) else buf j

mirrored_inside :
    (left right j : ℕ) (buf : Buffer)
    → left ≤ j
    → j ≤ right
    → mirrored left right buf j ≡ buf (left + right - j)
unfolding mirrored
mirrored_inside left right j buf h k = ground arith

mirrored_outside :
    (left right j : ℕ) (buf : Buffer) → (j < left) ⊎ (right < j) → mirrored left right buf j ≡ buf j
unfolding mirrored
mirrored_outside left right j buf h = ground arith

swap_left : (buf : Buffer) (left right : ℕ) → left < right → swap buf left right left ≡ buf right
swap_left buf left right h = ground arith

swap_right : (buf : Buffer) (left right : ℕ) → swap buf left right right ≡ buf left
swap_right buf left right = ground arith

swap_other :
    (buf : Buffer) (left right j : ℕ) → left ≢ j → right ≢ j → swap buf left right j ≡ buf j
swap_other buf left right j h k = ground arith

-- Swapping the ends, and turning round what lies between.
mirrored-swap :
    (left right j : ℕ) (buf : Buffer)
    → left < right
    → mirrored (left + 1) (right - 1) (swap buf left right) j ≡ mirrored left right buf j
mirrored-swap left right j buf h = elim (Bool-cases (ltb left j && ltb j right)) [
  | inl m ↦
      let e : left + 1 + (right - 1) - j ≡ left + right - j = omega arith in
      mirrored_inside (left + 1) (right - 1) j (swap buf left right) (ground arith) (ground arith)
      ∙ (rw e (swap_other buf left right (left + right - j) (ground arith) (ground arith)))
      ∙ sym (mirrored_inside left right j buf (ground arith) (ground arith))
  | inr m ↦
      mirrored_outside (left + 1) (right - 1) j (swap buf left right) (ground arith)
      ∙ elim (Bool-cases (left == j)) [
        | inl a ↦
            let ej : left ≡ j = ground arith in
            rw (← ej) (
              swap_left buf left right h
              ∙ sym (
                  mirrored_inside left right left buf (omega arith) (omega arith)
                  ∙ ap buf (omega arith)))
        | inr a ↦ elim (Bool-cases (right == j)) [
          | inl b ↦
              let ej : right ≡ j = ground arith in
              rw (← ej) (
                swap_right buf left right
                ∙ sym (
                    mirrored_inside left right right buf (omega arith) (omega arith)
                    ∙ ap buf (omega arith)))
          | inr b ↦
              swap_other buf left right j (ground arith) (ground arith)
              ∙ sym (mirrored_outside left right j buf (ground arith))
        ]
      ]
]

-- The loop ends in time, with the bytes between its two indices turned round.
reverse_from-mirrored :
    (fuel left right : ℕ) (buf : Buffer)
    → 0 < fuel
    → right < fuel + left
    → (b : Buffer) × (reverse_from fuel left right buf ≡ some b)
      × ((j : ℕ) → b j ≡ mirrored left right buf j)
unfolding reverse_from
reverse_from-mirrored zero left right buf p h = absurd (omega arith)
reverse_from-mirrored (suc fuel) left right buf p h = elim (Bool-cases (ltb left right)) [
  | inr e ↦ (
    buf,
    rw e,
    λ j. elim (Bool-cases (leb left j && leb j right)) [
      | inl m ↦
          sym
            (mirrored_inside left right j buf (ground arith) (ground arith) ∙ ap buf (ground arith))
      | inr m ↦ sym (mirrored_outside left right j buf (ground arith))
    ],
  )
  | inl e ↦
      let (b, r, same) =
        reverse_from-mirrored fuel (left + 1) (right - 1) (swap buf left right) (ground arith)
          (ground arith) in
      (b, rw e r, λ j. same j ∙ mirrored-swap left right j buf (ground arith))
]

-- The bytes of a buffer's first `n` places in the opposite order.
abbrev pub flipped : ℕ → Buffer → Buffer
flipped n buf j = if ltb j n then buf (n - 1 - j) else buf j

flipped-mirrored : (n j : ℕ) (buf : Buffer) → mirrored 0 (n - 1) buf j ≡ flipped n buf j
flipped-mirrored zero j buf =
    let none_below : ltb j 0 ≡ false = ground arith in
    let at_zero : 0 - 1 ≡ 0 = omega arith in
    rw (at_zero, none_below)
      (elim (Bool-cases (0 == j)) [
        | inl z ↦
            let e : 0 ≡ j = ground arith in
            rw (← e) (mirrored_inside 0 0 0 buf (omega arith) (omega arith))
        | inr z ↦ mirrored_outside 0 0 j buf (ground arith)
      ])
flipped-mirrored (suc n) j buf = elim (Bool-cases (ltb j (suc n))) [
  | inl h ↦
      rw h (mirrored_inside 0 (suc n - 1) j buf (omega arith) (ground arith) ∙ ap buf (omega arith))
  | inr h ↦ rw h (mirrored_outside 0 (suc n - 1) j buf (ground arith))
]

-- `n + 1` rounds suffice for `reverse` on `n` bytes: it returns `n`, the first `n` bytes are in the
-- opposite order, and all others are as they were.
pub reverse_lem :
    (buf : Buffer) (n : ℕ)
    → (b : Buffer) × (reverse (n + 1) buf n ≡ some (b, n)) × ((j : ℕ) → b j ≡ flipped n buf j)
unfolding reverse
reverse_lem buf n =
    let (b, r, same) = reverse_from-mirrored (n + 1) 0 (n - 1) buf (omega arith) (omega arith) in
    (b, rw (reverse, r), λ j. same j ∙ flipped-mirrored n j buf)

flipped-flipped :
    (buf b : Buffer) (n j : ℕ) → ((k : ℕ) → b k ≡ flipped n buf k) → flipped n b j ≡ buf j
flipped-flipped buf b n j h = elim (Bool-cases (ltb j n)) [
  | inl e ↦
      let back : n - 1 - (n - 1 - j) ≡ j = ground arith in
      let below : ltb (n - 1 - j) n ≡ true = ground arith in rw e (h (n - 1 - j) ∙ rw (below, back))
  | inr e ↦ rw e (h j ∙ rw e)
]

-- `reverse` twice over the same `n` bytes gives the buffer back.
pub reverse-reverse :
    (buf : Buffer) (n : ℕ)
    → (b c : Buffer) × (reverse (n + 1) buf n ≡ some (b, n))
      × (reverse (n + 1) b n ≡ some (c, n))
      × ((j : ℕ) → c j ≡ buf j)
reverse-reverse buf n =
    let (b, once, same) = reverse_lem buf n in
    let (c, twice, again) = reverse_lem b n in
    (b, c, once, twice, λ j. again j ∙ flipped-flipped buf b n j same)
