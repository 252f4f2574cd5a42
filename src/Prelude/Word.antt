-- ===== src/Prelude/Word.antt =====
-- The unsigned 32-bit integer `u32` of jiutai/jf_basic.h: its counters wrap at 2^32.
use jiufeng.Prelude.{ℕ, ◌+◌, ◌-◌, ◌%◌, ◌<◌, ◌^◌, ◌≡◌, arith}

-- `x ++`
abbrev pub inc_u32 : ℕ → ℕ
inc_u32 x = (x + 1) % 2 ^ 32

-- `x --`
abbrev pub dec_u32 : ℕ → ℕ
dec_u32 x = (x + 2 ^ 32 - 1) % 2 ^ 32

pub dec_u32_pos : (x : ℕ) → 0 < x → x < 2 ^ 32 → dec_u32 x ≡ x - 1
dec_u32_pos x h k = omega arith
