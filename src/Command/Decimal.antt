-- ===== src/Command/Decimal.antt =====
-- Decimal digits, most significant first: `std::to_string`, and an implementation of `Fmt`.
use raft_2pc_database.Prelude.{
  ℕ, zero, suc, ◌/◌, ◌%◌, ◌<◌, List, [], ◌∷◌, ◌≡◌, ◌≢◌, All, ltb, if◌then◌else◌, arith, Bool-cases,
  inl, inr, ℤ, ap, ◌∙◌,
}
use raft_2pc_database.Command.Format.{Fmt, value_of, format_int}

-- The digits of `n` in front of `acc`; the fuel bounds the number of digits.
unfoldable pub digits_before : ℕ → ℕ → List ℕ → List ℕ
digits_before zero n acc = acc
digits_before (suc f) n acc =
    let more = digits_before f (n / 10) ((n % 10) ∷ acc) in if ltb n 10 then n ∷ acc else more

unfoldable pub decimal_digits : ℕ → List ℕ
unfolding digits_before
decimal_digits n = digits_before (suc n) n []

digits_before-small :
    (f n : ℕ) (acc : List ℕ) → All (λ d. d < 10) acc → All (λ d. d < 10) (digits_before f n acc)
unfolding digits_before
digits_before-small zero n acc h = h
digits_before-small (suc f) n acc h = elim (Bool-cases (ltb n 10)) [
  | inl last ↦ rw last (ground arith, h)
  | inr more ↦ rw more (digits_before-small f (n / 10) ((n % 10) ∷ acc) (omega arith, h))
]

digits_before-nonempty : (f n d : ℕ) (acc : List ℕ) → digits_before f n (d ∷ acc) ≢ []
unfolding digits_before
digits_before-nonempty zero n d acc = ground arith
digits_before-nonempty (suc f) n d acc =
    ground (arith, digits_before-nonempty f (n / 10) (n % 10) (d ∷ acc))

pub decimal_digits-nonempty : (n : ℕ) → decimal_digits n ≢ []
unfolding decimal_digits
decimal_digits-nonempty n = ground (arith, digits_before-nonempty n (n / 10) (n % 10) [])

value-digits_before :
    (f n : ℕ) (acc : List ℕ) → n < f → value_of 0 (digits_before f n acc) ≡ value_of n acc
unfolding digits_before
value-digits_before zero n acc h = elim h [ ]
value-digits_before (suc f) n acc h = elim (Bool-cases (ltb n 10)) [
  | inl last ↦ rw last (ap (λ k. value_of k acc) (omega arith))
  | inr more ↦ rw more (
      value-digits_before f (n / 10) ((n % 10) ∷ acc) (ground arith)
      ∙ ap (λ k. value_of k acc) (omega arith))
]

pub decimal_digits-small : (n : ℕ) → All (λ d. d < 10) (decimal_digits n)
unfolding decimal_digits
decimal_digits-small n = digits_before-small (suc n) n [] tt

pub value-decimal_digits : (n : ℕ) → value_of 0 (decimal_digits n) ≡ n
unfolding decimal_digits
value-decimal_digits n = value-digits_before (suc n) n [] (omega arith)

-- The library {fmt}, as far as the executors use it, by the printer of this module.
abbrev pub decimal_fmt : Fmt
decimal_fmt = record {
  digits = decimal_digits;
  digits_small = decimal_digits-small;
  digits_nonempty = decimal_digits-nonempty;
  digits_value = value-decimal_digits;
}

-- `std::to_string`
unfoldable pub to_string : ℤ → List ℕ
unfolding decimal_digits format_int
to_string = format_int decimal_fmt
