-- ===== src/Log/Numbers.antt =====
-- Numbers as they are printed, and read back.
use libco_lite.Base.{
  ℕ, zero, suc, ◌+◌, ◌-◌, ◌*◌, ◌/◌, ◌%◌, ◌^◌, ◌≤◌, ◌<◌, ◌≡◌, refl, ap, ◌∙◌, true, List, [], ◌∷◌,
  ◌++◌, arith, ltb, length, inl, inr, Bool-cases,
}
use libco_lite.Server.Lines.{length-append}
use libco_lite.Chars.{is_text}
use libco_lite.Log.{decimal, zeros, number, padded}

-- The number that digits stand for, behind one read already.
unfoldable pub value_from : ℕ → List ℕ → ℕ
value_from a [] = a
value_from a (c ∷ cs) = value_from (a * 10 + (c - 48)) cs

abbrev pub value : List ℕ → ℕ
value cs = value_from 0 cs

value_from-append :
    (a : ℕ) (xs ys : List ℕ) → value_from a (xs ++ ys) ≡ value_from (value_from a xs) ys
unfolding value_from
value_from-append a [] ys = refl
value_from-append a (x ∷ xs) ys = value_from-append (a * 10 + (x - 48)) xs ys

value_from-zeros : (n : ℕ) (cs : List ℕ) → value (zeros n ++ cs) ≡ value cs
unfolding value_from
value_from-zeros zero cs = refl
value_from-zeros (suc n) cs = value_from-zeros n cs

power_suc : (n w : ℕ) → n < 10 ^ suc w → n / 10 < 10 ^ w
power_suc n w h = omega arith

value-decimal : (d n : ℕ) → n < 10 ^ d → value (decimal d n) ≡ n
unfolding value_from decimal
value-decimal zero n h = omega arith
value-decimal (suc d) n h = elim (Bool-cases (ltb n 10)) [
  | inl l ↦ rw l (omega arith)
  | inr l ↦
      rw
        (
          l,
          value_from-append 0 (decimal d (n / 10)) ((48 + n % 10) ∷ []),
          value-decimal d (n / 10) (power_suc n d h),
        )
        (omega arith)
]

length-decimal : (d w n : ℕ) → n < 10 ^ suc w → length (decimal d n) ≤ suc w
unfolding decimal
length-decimal zero w n h = omega arith
length-decimal (suc d) zero n h = let l : ltb n 10 ≡ true = ground arith in rw l (omega arith)
length-decimal (suc d) (suc w) n h = elim (Bool-cases (ltb n 10)) [
  | inl l ↦ rw l (omega arith)
  | inr l ↦
      rw (l, length-append (decimal d (n / 10)) ((48 + n % 10) ∷ []))
        (omega (arith, length-decimal d w (n / 10) (power_suc n (suc w) h)))
]

pub is_text-append :
    (xs ys : List ℕ) → is_text xs ≡ true → is_text ys ≡ true → is_text (xs ++ ys) ≡ true
unfolding is_text
is_text-append [] ys a b = b
is_text-append (x ∷ xs) ys a b = ground (arith, is_text-append xs ys)

is_text-decimal : (d n : ℕ) → is_text (decimal d n) ≡ true
unfolding is_text decimal
is_text-decimal zero n = refl
is_text-decimal (suc d) n = elim (Bool-cases (ltb n 10)) [
  | inl l ↦ rw l (ground arith)
  | inr l ↦ rw l (is_text-append (decimal d (n / 10)) _ (is_text-decimal d (n / 10)) (ground arith))
]

length-zeros : (n : ℕ) → length (zeros n) ≡ n
length-zeros zero = refl
length-zeros (suc n) = ap suc (length-zeros n)

is_text-zeros : (n : ℕ) → is_text (zeros n) ≡ true
unfolding is_text
is_text-zeros zero = refl
is_text-zeros (suc n) = is_text-zeros n

-- A number with at most as many digits as the width, of at most ten.
pub length-padded : (w n : ℕ) → n < 10 ^ suc w → length (padded (suc w) n) ≡ suc w
unfolding padded
length-padded w n h = omega (
  arith,
  length-append (zeros (suc w - length (number n))) (number n),
  length-zeros (suc w - length (number n)),
  length-decimal 10 w n h,
)

pub value-padded : (w n : ℕ) → n < 10 ^ 10 → value (padded w n) ≡ n
unfolding padded
value-padded w n h = value_from-zeros (w - length (number n)) (number n) ∙ value-decimal 10 n h

pub is_text-padded : (w n : ℕ) → is_text (padded w n) ≡ true
unfolding padded
is_text-padded w n =
    is_text-append (zeros (w - length (number n))) (number n)
      (is_text-zeros (w - length (number n))) (is_text-decimal 10 n)
