-- ===== src/Command/Format.antt =====
-- The commands that the executors print with `fmt::format` (server/src/excutor/intraShardExecutor.cpp,
-- crossShardExecutor.cpp). The library {fmt} is a parameter: all that is used is that `{}` prints
-- an `int` in decimal.
use raft_2pc_database.Prelude.{
  ℕ, ◌+◌, ◌*◌, ◌<◌, suc, ℤ, pos, negsuc, List, [], ◌∷◌, ◌++◌, ◌≡◌, ◌≢◌, map, All, codes,
}

-- The number that a list of digits stands for, after the digits read so far.
abbrev pub value_of : ℕ → List ℕ → ℕ
value_of n [] = n
value_of n (d ∷ ds) = value_of (n * 10 + d) ds

-- {fmt}'s `{}` at an `int`: the digits of a number, most significant first.
pub record Fmt : Type 0 where
  pub digits : ℕ → List ℕ
  pub digits_small : (n : ℕ) → All (λ d. d < 10) (digits n)
  pub digits_nonempty : (n : ℕ) → digits n ≢ []
  pub digits_value : (n : ℕ) → value_of 0 (digits n) ≡ n

abbrev pub digit_codes : List ℕ → List ℕ
digit_codes = map (λ d. b'0' + d)

module _ (fmt : Fmt) where
  -- `fmt::format("{}", z)`
  unfoldable pub format_int : ℤ → List ℕ
  format_int (pos n) = digit_codes (fmt.digits n)
  format_int (negsuc n) = b'-' ∷ digit_codes (fmt.digits (suc n))

  -- `fmt::format("{} pays {} ${}", sender, receiver, amount)`
  unfoldable pub pays : ℤ → ℤ → ℤ → List ℕ
  unfolding format_int
  pays sender receiver amount =
      format_int sender
      ++ (codes " pays " ++ (format_int receiver ++ (codes " $" ++ format_int amount)))

  unfoldable pub prepare_pays : ℤ → ℤ → ℤ → List ℕ
  unfolding pays
  prepare_pays sender receiver amount = codes "[PREPARE] " ++ pays sender receiver amount

  unfoldable pub commit_pays : ℤ → ℤ → ℤ → List ℕ
  unfolding pays
  commit_pays sender receiver amount = codes "[COMMIT] " ++ pays sender receiver amount

  unfoldable pub abort_pays : ℤ → ℤ → ℤ → List ℕ
  unfolding pays
  abort_pays sender receiver amount = codes "[ABORT] " ++ pays sender receiver amount
