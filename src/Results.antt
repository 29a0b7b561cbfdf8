-- ===== src/Results.antt =====
-- The codes of `enum sec_gateway_error_code_t` (lib/secure_gateway.h), and the test of what `send` returned.
use secure_mavlink_gateway.Prelude.{
  ℕ, ◌≤◌, ◌≡◌, ◌↔◌, refl, Option, none, some, List, length, ltb, if◌then◌else◌, arith,
}

pub data Result : Type 0 where
  succ invalid_param invalid_state invalid_index io_fault no_client no_memory no_resource : Result
  thread_error : Result

-- `none` is -1.
unfoldable pub check_sent : Option ℕ → List ℕ → Result
check_sent none bytes = io_fault
check_sent (some n) bytes = if ltb n (length bytes) then io_fault else succ

pub check_sent-succ :
    (sent : Option ℕ) (bytes : List ℕ)
    → (check_sent sent bytes ≡ succ) ↔ ((n : ℕ) × (sent ≡ some n) × (length bytes ≤ n))
unfolding check_sent
check_sent-succ none bytes = (λ h. absurd cc, λ (n, h, all). absurd cc)
check_sent-succ (some n) bytes = (λ h. (n, refl, ground arith), λ (m, same, all). grind arith)
