-- ===== src/Prelude/Clock.antt =====
-- Clock readings are whole milliseconds: the program's seconds are floats, and it only compares
-- them, subtracts them and adds constants to them.
use Prim.Native.Nat.{ℕ}

abbrev pub second : ℕ
second = 1000

abbrev pub hour : ℕ
hour = 3600000
