-- ===== src/Prelude/Decimal.antt =====
-- Decimal numerals in ASCII: what `%u`, `%hu`, `%llu` and `%zu` of `snprintf` print, and their value.
use Prim.Native.Nat.{ℕ, zero, suc, ◌+◌, ◌-◌, ◌*◌, ◌/◌, ◌%◌, ◌^◌, ◌≤◌, ◌<◌}
use mathlib.Core.Path.{◌≡◌, refl, ◌∙◌, ap}
use mathlib.Core.List.{List, [], ◌∷◌}
use mathlib.Core.Bool.{true}
use mathlib.Core.Logic.{inl, inr}
use native.Mathlib.Omega.{arith}
use native.Mathlib.Nat.{pow-suc}
use btdht.Prelude.Tests.{ltb, if◌then◌else◌, Bool-cases}
use btdht.Prelude.Lists.{length, All}
use btdht.Prelude.Bytes.{Byte}

-- At most `f` digits, in front of `acc`.
decimal_acc : ℕ → ℕ → List Byte → List Byte
decimal_acc zero n acc = acc
decimal_acc (suc f) n acc =
    let more = decimal_acc f (n / 10) ((48 + n % 10) ∷ acc) in
    if ltb n 10 then (48 + n) ∷ acc else more

-- A 64-bit number has at most twenty digits.
unfoldable pub decimal : ℕ → List Byte
unfolding decimal_acc
decimal n = decimal_acc 20 n []

-- The number that a string of digits stands for, behind the digits of `acc`.
unfoldable pub numeral : ℕ → List Byte → ℕ
numeral acc [] = acc
numeral acc (d ∷ ds) = numeral (acc * 10 + (d - 48)) ds

abbrev pub IsDigit : Byte → Type 0
IsDigit c = (48 ≤ c) × (c ≤ 57)

decimal_acc-numeral :
    (f n : ℕ) (acc : List Byte)
    → n < 10 ^ suc f
    → numeral 0 (decimal_acc (suc f) n acc) ≡ numeral n acc
unfolding decimal_acc numeral
decimal_acc-numeral zero n acc h =
    let small : ltb n 10 ≡ true = ground arith in rw small (ap (λ k. numeral k acc) (omega arith))
decimal_acc-numeral (suc f) n acc h = elim (Bool-cases (ltb n 10)) [
  | inl e ↦ rw e (ap (λ k. numeral k acc) (omega arith))
  | inr e ↦ rw e (
      decimal_acc-numeral f (n / 10) ((48 + n % 10) ∷ acc) (omega (arith, pow-suc 10 (suc f)))
      ∙ ap (λ k. numeral k acc) (omega arith))
]

decimal_acc-length : (f n : ℕ) (acc : List Byte) → length (decimal_acc f n acc) ≤ f + length acc
unfolding decimal_acc
decimal_acc-length zero n acc = omega arith
decimal_acc-length (suc f) n acc =
    ground (arith, decimal_acc-length f (n / 10) ((48 + n % 10) ∷ acc))

decimal_acc-pos : (f n : ℕ) (acc : List Byte) → length acc ≤ length (decimal_acc f n acc)
unfolding decimal_acc
decimal_acc-pos zero n acc = omega arith
decimal_acc-pos (suc f) n acc = ground (arith, decimal_acc-pos f (n / 10) ((48 + n % 10) ∷ acc))

decimal_acc-digits :
    (f n : ℕ) (acc : List Byte) → All IsDigit acc → All IsDigit (decimal_acc f n acc)
unfolding decimal_acc
decimal_acc-digits zero n acc h = h
decimal_acc-digits (suc f) n acc h =
    ground (arith, decimal_acc-digits f (n / 10) ((48 + n % 10) ∷ acc))

pub numeral-decimal : (n : ℕ) → n < 2 ^ 64 → numeral 0 (decimal n) ≡ n
unfolding decimal numeral
numeral-decimal n h = decimal_acc-numeral 19 n [] (omega arith)

pub length-decimal : (n : ℕ) → length (decimal n) ≤ 20
unfolding decimal
length-decimal n = omega (arith, decimal_acc-length 20 n [])

pub decimal-pos : (n : ℕ) → 0 < length (decimal n)
unfolding decimal decimal_acc
decimal-pos n = ground (arith, decimal_acc-pos 19 (n / 10) ((48 + n % 10) ∷ []))

pub decimal-IsDigit : (n : ℕ) → All IsDigit (decimal n)
unfolding decimal
decimal-IsDigit n = decimal_acc-digits 20 n [] tt

decimal_test : decimal 1024 ≡ b'1' ∷ b'0' ∷ b'2' ∷ b'4' ∷ []
unfolding decimal
decimal_test = refl
