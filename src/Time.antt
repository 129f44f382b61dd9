-- ===== src/Time.antt =====
-- RosValue::TimeValue (lib/ros_value.h): seconds and nanoseconds, two uint32_t.
mod Order
mod Runs
use embag.Prelude.{ℕ, ◌+◌, ◌*◌, ◌^◌, ◌%◌, ◌<◌, Bool, ◌&&◌, ◌||◌, not, ltb, leb, ◌==◌}
use embag.Bytes.{IsU32}

pub record Time : Type 0 where
  pub secs : ℕ
  pub nsecs : ℕ

unfoldable pub equals : Time → Time → Bool
equals a b = (a.secs == b.secs) && (a.nsecs == b.nsecs)

unfoldable pub differs : Time → Time → Bool
differs a b = not (a.secs == b.secs) || not (a.nsecs == b.nsecs)

unfoldable pub before : Time → Time → Bool
before a b = ltb a.secs b.secs || ((a.secs == b.secs) && ltb a.nsecs b.nsecs)

unfoldable pub before_or_at : Time → Time → Bool
before_or_at a b = ltb a.secs b.secs || ((a.secs == b.secs) && leb a.nsecs b.nsecs)

unfoldable pub after : Time → Time → Bool
after a b = ltb b.secs a.secs || ((a.secs == b.secs) && ltb b.nsecs a.nsecs)

unfoldable pub after_or_at : Time → Time → Bool
after_or_at a b = ltb b.secs a.secs || ((a.secs == b.secs) && leb b.nsecs a.nsecs)

-- The product and the sum of two longs, which hold 64 bits; the operands are not negative.
unfoldable pub to_nsec : Time → ℕ
to_nsec t = (t.secs * 1_000_000_000 + t.nsecs) % 2 ^ 64

-- What two uint32_t can hold.
abbrev pub IsTime : Time → Type 0
IsTime t = IsU32 t.secs × IsU32 t.nsecs

-- The nanoseconds do not reach a second.
abbrev pub IsNormal : Time → Type 0
IsNormal t = IsTime t × (t.nsecs < 1_000_000_000)
