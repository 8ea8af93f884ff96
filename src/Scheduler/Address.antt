-- ===== src/Scheduler/Address.antt =====
-- scheduler.cpp, main: the address of Redis.
use my_taskflow_system.Common.{◌≡◌, refl, ℕ, false, ◌∷◌, Text, ◌==◌}
use my_taskflow_system.Common.Exec.{throw, invalid_argument}
use my_taskflow_system.Common.Decimal.{stoi, read_signed, skip_spaces, in_range, is_digit, is_space}
use my_taskflow_system.Scheduler.Start.{redis_port}

-- An address that begins neither with a digit, nor with a sign, nor with a space has no port: main
-- ends with std::invalid_argument, whatever stands after the colon.
pub redis_port_throws :
    (c : ℕ) (rest : Text)
    → is_digit c ≡ false
    → is_space c ≡ false
    → (c == b'-') ≡ false
    → (c == b'+') ≡ false
    → redis_port (c ∷ rest) ≡ throw invalid_argument
unfolding redis_port stoi skip_spaces read_signed in_range
redis_port_throws c rest d s m p = rw (s, m, p, d) refl
