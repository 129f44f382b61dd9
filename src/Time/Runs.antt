-- ===== src/Time/Runs.antt =====
-- Times at concrete values.
use embag.Prelude.{◌^◌, ◌<◌, ◌≡◌, refl, true, false, not, ◌&&◌, ◌||◌, arith, ltb, ◌==◌}
use embag.Time.{Time, equals, differs, before, before_or_at, after, after_or_at, to_nsec}
use embag.Time.Order.{comparisons_agree, before-to_nsec}

abbrev earlier : Time
earlier = record { secs = 1604515190; nsecs = 231374463 }

abbrev later : Time
later = record { secs = 1604515197; nsecs = 820012098 }

comparisons_agree_example :
    (after earlier later ≡ before later earlier)
    × (before_or_at earlier later ≡ not (after earlier later))
    × (after_or_at earlier later ≡ not (before earlier later))
    × (differs earlier later ≡ not (equals earlier later))
    × (before_or_at earlier later ≡ (before earlier later || equals earlier later))
    × ((before earlier later && after earlier later) ≡ false)
    × ((before earlier later && equals earlier later) ≡ false)
    × ((after earlier later && equals earlier later) ≡ false)
    × ((before earlier later || (equals earlier later || after earlier later)) ≡ true)
comparisons_agree_example = comparisons_agree earlier later

before-to_nsec_example :
    (before earlier later ≡ ltb (to_nsec earlier) (to_nsec later))
    × (equals earlier later ≡ (to_nsec earlier == to_nsec later))
    × (to_nsec earlier < 2 ^ 63)
before-to_nsec_example = before-to_nsec earlier later (omega arith) (omega arith)

to_nsec_runs : to_nsec earlier ≡ 1604515190231374463
unfolding to_nsec
to_nsec_runs = refl
