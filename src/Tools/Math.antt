-- ===== src/Tools/Math.antt =====
-- tools/math.go
use expert_octo_doodle.Common.{ℕ, ltb, if◌then◌else◌}

unfoldable pub min_int : ℕ → ℕ → ℕ
min_int a b = if ltb a b then a else b

unfoldable pub max_int : ℕ → ℕ → ℕ
max_int a b = if ltb b a then a else b
