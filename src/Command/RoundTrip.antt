-- ===== src/Command/RoundTrip.antt =====
-- Reading back what the executors print.
use raft_2pc_database.Prelude.{
  ℕ, suc, ◌+◌, ◌-◌, ◌*◌, ◌<◌, ℤ, pos, negsuc, InRange, int32_of_InRange, eq_ℤ_refl, List, [], ◌∷◌,
  ◌++◌, true, false, ◌≡◌, ◌≢◌, refl, ap, ◌∙◌, some, All, arith, codes, append-nil, sym, ◌==◌,
}
use raft_2pc_database.Command.Format.{Fmt, value_of, digit_codes, format_int, pays, prepare_pays}
use raft_2pc_database.Command.Scan.{
  is_digit, is_space, skip_space, scan_digits, scan_nat, scan_signed, scan_int, scan_pays,
  scan_prepare_pays, is_cross_shard,
}

-- A text that does not go on with a digit.
abbrev pub Stops : List ℕ → Type 0
Stops [] = Unit
Stops (c ∷ s) = is_digit c ≡ false

scan_digits-stop : (n : ℕ) (rest : List ℕ) → Stops rest → scan_digits n rest ≡ (n, rest)
scan_digits-stop n [] h = refl
scan_digits-stop n (c ∷ s) h = rw h

scan_digits-digit_codes :
    (n : ℕ) (ds rest : List ℕ)
    → All (λ d. d < 10) ds
    → Stops rest
    → scan_digits n (digit_codes ds ++ rest) ≡ (value_of n ds, rest)
scan_digits-digit_codes n [] rest small h = scan_digits-stop n rest h
scan_digits-digit_codes n (d ∷ ds) rest small h =
    let e : is_digit (b'0' + d) ≡ true = ground arith in
    let k : n * 10 + (b'0' + d - b'0') ≡ n * 10 + d = omega arith in
    rw (e, k) (scan_digits-digit_codes (n * 10 + d) ds rest small.1 h)

scan_nat-digit_codes :
    (ds rest : List ℕ)
    → ds ≢ []
    → All (λ d. d < 10) ds
    → Stops rest
    → scan_nat (digit_codes ds ++ rest) ≡ some (value_of 0 ds, rest)
scan_nat-digit_codes [] rest ne small h = absurd (ne refl)
scan_nat-digit_codes (d ∷ ds) rest ne small h =
    let e : is_digit (b'0' + d) ≡ true = ground arith in
    let k : 0 + (b'0' + d - b'0') ≡ 0 + d = omega arith in
    rw (e, k) (ap some (scan_digits-digit_codes (0 + d) ds rest small.1 h))

-- A number begins with a digit: it is neither skipped nor read as a sign.
scan_signed-digit_codes :
    (ds rest : List ℕ) {r : ℕ × List ℕ}
    → ds ≢ []
    → All (λ d. d < 10) ds
    → scan_nat (digit_codes ds ++ rest) ≡ some r
    → scan_signed (skip_space (digit_codes ds ++ rest)) ≡ some (pos r.0, r.1)
scan_signed-digit_codes [] rest ne small e = absurd (ne refl)
scan_signed-digit_codes (d ∷ ds) rest ne small e =
    let space : is_space (b'0' + d) ≡ false = ground arith in
    let minus : (b'0' + d == b'-') ≡ false = ground arith in
    let plus : (b'0' + d == b'+') ≡ false = ground arith in rw (space, minus, plus, e)

module _ (fmt : Fmt) where
  scan_nat-digits :
      (n : ℕ) (rest : List ℕ)
      → Stops rest
      → scan_nat (digit_codes (fmt.digits n) ++ rest) ≡ some (n, rest)
  scan_nat-digits n rest h =
      scan_nat-digit_codes (fmt.digits n) rest (fmt.digits_nonempty n) (fmt.digits_small n) h
      ∙ ap (λ k. some (k, rest)) (fmt.digits_value n)

  scan_signed-format_int :
      (z : ℤ) (rest : List ℕ)
      → Stops rest
      → scan_signed (skip_space (format_int fmt z ++ rest)) ≡ some (z, rest)
  unfolding format_int
  scan_signed-format_int (pos n) rest h =
      scan_signed-digit_codes (fmt.digits n) rest (fmt.digits_nonempty n) (fmt.digits_small n)
        (scan_nat-digits n rest h)
  scan_signed-format_int (negsuc n) rest h = rw (scan_nat-digits (suc n) rest h)

  -- `%d` reads back what `{}` printed, and stops behind it.
  scan_int-format_int :
      (z : ℤ) (rest : List ℕ)
      → InRange z
      → Stops rest
      → scan_int (format_int fmt z ++ rest) ≡ some (z, rest)
  unfolding scan_int
  scan_int-format_int z rest range h =
      rw (scan_signed-format_int z rest h) (rw (int32_of_InRange z range, eq_ℤ_refl z))

  -- Behind a blank too.
  scan_int-blank :
      (z : ℤ) (rest : List ℕ)
      → InRange z
      → Stops rest
      → scan_int (32 ∷ (format_int fmt z ++ rest)) ≡ some (z, rest)
  unfolding scan_int
  scan_int-blank z rest range h =
      rw (scan_signed-format_int z rest h) (rw (int32_of_InRange z range, eq_ℤ_refl z))

  scan_int-format_int_whole : (z : ℤ) → InRange z → scan_int (format_int fmt z) ≡ some (z, [])
  scan_int-format_int_whole z range =
      ap scan_int (sym (append-nil (format_int fmt z))) ∙ scan_int-format_int z [] range tt

  -- The text behind the sender.
  after_sender : ℤ → ℤ → List ℕ
  after_sender receiver amount =
      codes " pays " ++ (format_int fmt receiver ++ (codes " $" ++ format_int fmt amount))

  module _ (sender receiver amount : ℤ) where
    scan_pays_after :
        (c : List ℕ)
        → InRange receiver
        → InRange amount
        → scan_int c ≡ some (sender, after_sender receiver amount)
        → scan_pays c ≡ some (sender, receiver, amount)
    unfolding scan_pays after_sender
    scan_pays_after c hr ha first = rw first (
        rw (scan_int-blank receiver (codes " $" ++ format_int fmt amount) hr refl)
          (rw (scan_int-format_int_whole amount ha)))

    -- The command of an intra-shard entry, printed from three numbers in the range of int, reads
    -- back as these numbers, for every decimal printer.
    pub scan_pays-pays :
        InRange sender
        → InRange receiver
        → InRange amount
        → scan_pays (pays fmt sender receiver amount) ≡ some (sender, receiver, amount)
    unfolding pays after_sender
    scan_pays-pays hs hr ha =
        scan_pays_after _ hr ha (scan_int-format_int sender (after_sender receiver amount) hs refl)

    -- The command of a prepare entry, printed from three numbers in the range of int, reads back
    -- as these numbers, for every decimal printer.
    pub scan_prepare_pays-prepare_pays :
        InRange sender
        → InRange receiver
        → InRange amount
        → scan_prepare_pays (prepare_pays fmt sender receiver amount)
          ≡ some (sender, receiver, amount)
    unfolding pays prepare_pays scan_prepare_pays after_sender
    scan_prepare_pays-prepare_pays hs hr ha =
        scan_pays_after _ hr ha (scan_int-blank sender (after_sender receiver amount) hs refl)

  not_bracket :
      (ds rest : List ℕ)
      → All (λ d. d < 10) ds
      → ds ≢ []
      → is_cross_shard (digit_codes ds ++ rest) ≡ false
  unfolding is_cross_shard
  not_bracket [] rest small ne = absurd (ne refl)
  not_bracket (d ∷ ds) rest small ne = ground arith

  -- The command of an intra-shard entry is never taken for one of a cross-shard transaction.
  pub is_cross_shard-pays :
      (sender receiver amount : ℤ) → is_cross_shard (pays fmt sender receiver amount) ≡ false
  unfolding pays format_int
  is_cross_shard-pays (pos n) receiver amount =
      not_bracket (fmt.digits n) _ (fmt.digits_small n) (fmt.digits_nonempty n)
  is_cross_shard-pays (negsuc n) receiver amount = unfold is_cross_shard in refl
