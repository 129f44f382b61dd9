-- ===== src/Time/Order.antt =====
-- The six comparisons of TimeValue against one another and against to_nsec (lib/ros_value.h).
use embag.Prelude.{◌+◌, ◌*◌, ◌^◌, ◌<◌, ◌≡◌, true, false, ◌&&◌, ◌||◌, not, arith, ltb, ◌==◌}
use embag.Time.{
  Time, equals, differs, before, before_or_at, after, after_or_at, to_nsec, IsTime, IsNormal,
}

-- The six comparisons come from one order: `>` is `<` with its sides exchanged, `<=` and `>=` deny
-- `>` and `<`, `!=` denies `==`, `<=` is `<` or `==`, and of `<`, `==` and `>` one holds for any two
-- times and no two of them hold together.
pub comparisons_agree :
    (a b : Time)
    → (after a b ≡ before b a)
      × (before_or_at a b ≡ not (after a b))
      × (after_or_at a b ≡ not (before a b))
      × (differs a b ≡ not (equals a b))
      × (before_or_at a b ≡ (before a b || equals a b))
      × ((before a b && after a b) ≡ false)
      × ((before a b && equals a b) ≡ false)
      × ((after a b && equals a b) ≡ false)
      × ((before a b || (equals a b || after a b)) ≡ true)
unfolding equals differs before before_or_at after after_or_at
comparisons_agree a b = (
  ground arith,
  ground arith,
  ground arith,
  ground arith,
  ground arith,
  ground arith,
  ground arith,
  ground arith,
  ground arith,
)

pub before_trans : (a b c : Time) → before a b ≡ true → before b c ≡ true → before a c ≡ true
unfolding before
before_trans a b c h k = ground arith

-- to_nsec of a time of two uint32_t does not pass the largest long, so that nothing wraps.
pub to_nsec_fits : (t : Time) → IsTime t → to_nsec t ≡ t.secs * 1_000_000_000 + t.nsecs
unfolding to_nsec
to_nsec_fits t h = omega arith

pub to_nsec-lt : (t : Time) → IsTime t → to_nsec t < 2 ^ 63
unfolding to_nsec
to_nsec-lt t h = omega arith

-- For times whose nanoseconds stay below a second, `<` and `==` compare the values of to_nsec,
-- which are below 2^63.
pub before-to_nsec :
    (a b : Time)
    → IsNormal a
    → IsNormal b
    → (before a b ≡ ltb (to_nsec a) (to_nsec b))
      × (equals a b ≡ (to_nsec a == to_nsec b))
      × (to_nsec a < 2 ^ 63)
before-to_nsec a b (ha, na) (hb, nb) = (lt_part, eq_part, to_nsec-lt a ha)
  where
    lt_part : before a b ≡ ltb (to_nsec a) (to_nsec b)
    lt_part = unfold before in ground (arith, to_nsec_fits a ha, to_nsec_fits b hb)

    eq_part : equals a b ≡ (to_nsec a == to_nsec b)
    eq_part = unfold equals in ground (arith, to_nsec_fits a ha, to_nsec_fits b hb)
