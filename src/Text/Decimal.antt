-- ===== src/Text/Decimal.antt =====
-- `{}` of an unsigned number of at most 128 bits.
use remote_executor.Base.{ℕ, zero, suc, ◌+◌, ◌-◌, ◌/◌, ◌%◌, [], ◌∷◌, ltb, if◌then◌else◌}
use remote_executor.Text.{Text}

-- digits below 16, in capitals
abbrev pub digit_char : ℕ → ℕ
digit_char d = if ltb d 10 then b'0' + d else b'A' + d - 10

-- at most `fuel` digits, in front of those that are done
unfoldable pub digits_of : ℕ → ℕ → ℕ → Text → Text
digits_of base zero n done = done
digits_of base (suc fuel) n done =
    let rest = digits_of base fuel (n / base) (digit_char (n % base) ∷ done) in
    if ltb n base then digit_char n ∷ done else rest

-- 2 ^ 128 has 39 digits
unfoldable pub decimal : ℕ → Text
decimal n = digits_of 10 39 n []
