-- ===== src/Tests/Numbers.antt =====
-- Numbers in hundredths, to run the engine on.
use Prim.Native.Nat.{◌%◌}
use swar.Prelude.{ℕ, ◌+◌, ◌-◌, ◌*◌, ◌/◌, true, arith, ltb, leb, ◌==◌}
use swar.Risk.Types.{Floats}
use swar.Risk.Accepted.{ReadsIntegers}
use swar.Risk.Sticky.{IsTransitive}

-- Differences below 0 do not arise in the tests and stop at 0.
instance abbrev pub hundredths : Floats
hundredths = record {
  Number = ℕ;
  of_nat = λ n. n * 100;
  to_nat = λ n. n / 100;
  add = λ a b. a + b;
  sub = λ a b. a - b;
  mul = λ a b. a * b / 100;
  abs = λ a. a;
  epsilon = 0;
  lt = ltb;
  le = leb;
  is_finite = λ n. true;
  is_integer = λ n. n % 100 == 0;
  show = λ n. "0";
}

pub hundredths_read : ReadsIntegers
hundredths_read n a b small_a small_b whole low high = ground arith

pub hundredths_ordered : IsTransitive
hundredths_ordered a b c h k = ground arith
