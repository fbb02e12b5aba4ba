-- ===== src/Time/Tests.antt =====
-- The split of a time at one day, an hour, a minute and a second.
use tinker.Base.{◌≡◌, ◌↔◌}
use tinker.Time.{FmtTime, timespec2fmttime_np, to_timespec, IsClock, timespec2fmttime_np_lem}

abbrev one_of_each : FmtTime
one_of_each = record { days = 1; hrs = 1; mins = 1; secs = 1; nanos = 5 }

timespec2fmttime_np_lem_example :
    (IsClock one_of_each × (to_timespec one_of_each ≡ record { tv_sec = 90061; tv_nsec = 5 }))
    ↔ (one_of_each ≡ timespec2fmttime_np (record { tv_sec = 90061; tv_nsec = 5 }))
timespec2fmttime_np_lem_example =
    timespec2fmttime_np_lem (record { tv_sec = 90061; tv_nsec = 5 }) one_of_each
