-- ===== src/Time/Spans.antt =====
-- The parts of a span of time in src/stdlib/time.rs.
use raytask.Prelude.{◌+◌, ◌*◌, ◌<◌, ◌≡◌, arith}
use raytask.Prelude.Ints.{ℤ, magnitude}
use raytask.Time.{make_timespan}

-- The parts that a span is shown with are in their ranges and add up to its milliseconds, without the sign.
pub make_timespan-parts :
    (ms : ℤ)
    → ((make_timespan ms).milliseconds < 1000)
      × ((make_timespan ms).seconds < 60)
      × ((make_timespan ms).minutes < 60)
      × ((make_timespan ms).hours < 24)
      × (((((make_timespan ms).days * 24 + (make_timespan ms).hours) * 60
                    + (make_timespan ms).minutes)
                  * 60
                + (make_timespan ms).seconds)
              * 1000
            + (make_timespan ms).milliseconds
          ≡ magnitude ms)
unfolding make_timespan
make_timespan-parts ms = (omega arith, omega arith, omega arith, omega arith, omega arith)
