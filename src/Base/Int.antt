-- ===== src/Base/Int.antt =====
-- Signed integers over the native numbers: the values of `int64_t`.
use maelys_json.Base.{ℕ, ◌-◌, ◌==◌, if◌then◌else◌}

-- `negsuc n` is -(n + 1).
pub data ℤ : Type 0 where
  pos : ℕ → ℤ
  negsuc : ℕ → ℤ

-- The magnitude with a sign.
abbrev pub signed : ℕ → ℤ
signed m = if m == 0 then pos 0 else negsuc (m - 1)
