-- ===== src/Prelude/Ids.antt =====
-- A UUID is its 128-bit number, a datetime the number of microseconds since a fixed epoch, and an
-- amount of money or a duration the number of its smallest units.
use Prim.Native.Nat.{ℕ}

abbrev pub Uuid : Type 0
Uuid = ℕ

abbrev pub Time : Type 0
Time = ℕ

abbrev pub Decimal : Type 0
Decimal = ℕ

abbrev pub Seconds : Type 0
Seconds = ℕ
