-- ===== src/Time.antt =====
-- The split of a time into days, hours, minutes and seconds, of src/time.c. A time counts from the start
-- of the system, so that it is never negative.
use tinker.Base.{ℕ, ◌+◌, ◌*◌, ◌/◌, ◌%◌, ◌<◌, ◌≡◌, ◌↔◌, sym, ap, subst, ◌∙◌, arith}
mod Tests

-- `struct timespec`
pub record Timespec : Type 0 where
  pub tv_sec : ℕ
  pub tv_nsec : ℕ

-- `struct fmttime`
pub record FmtTime : Type 0 where
  pub days : ℕ
  pub hrs : ℕ
  pub mins : ℕ
  pub secs : ℕ
  pub nanos : ℕ

-- `timespec2fmttime_np`
abbrev pub timespec2fmttime_np : Timespec → FmtTime
timespec2fmttime_np t = record {
  days = t.tv_sec / 86400;
  hrs = t.tv_sec % 86400 / 3600;
  mins = t.tv_sec % 86400 % 3600 / 60;
  secs = t.tv_sec % 86400 % 3600 % 60;
  nanos = t.tv_nsec;
}

-- The time that a clock with these digits shows.
abbrev pub to_timespec : FmtTime → Timespec
to_timespec f = record {
  tv_sec = f.days * 86400 + f.hrs * 3600 + f.mins * 60 + f.secs;
  tv_nsec = f.nanos;
}

-- The digits of a clock.
pub record IsClock (f : FmtTime) : Type 0 where
  pub hours : f.hrs < 24
  pub minutes : f.mins < 60
  pub seconds : f.secs < 60

-- The split shows the digits of a clock, and these give the time back.
timespec2fmttime_np-IsClock :
    (t : Timespec) → IsClock (timespec2fmttime_np t) × (to_timespec (timespec2fmttime_np t) ≡ t)
timespec2fmttime_np-IsClock t = (
  record { hours = omega arith; minutes = omega arith; seconds = omega arith },
  ap (λ n. record { tv_sec = n; tv_nsec = t.tv_nsec }) (omega arith),
)

-- No other digits do: the split of the time that a clock shows is what it shows.
to_timespec-split : (f : FmtTime) → IsClock f → timespec2fmttime_np (to_timespec f) ≡ f
to_timespec-split f c =
    let total = f.days * 86400 + f.hrs * 3600 + f.mins * 60 + f.secs in
    let d : total / 86400 ≡ f.days = omega (arith, c) in
    let h : total % 86400 / 3600 ≡ f.hrs = omega (arith, c) in
    let m : total % 86400 % 3600 / 60 ≡ f.mins = omega (arith, c) in
    let s : total % 86400 % 3600 % 60 ≡ f.secs = omega (arith, c) in
    λ i. record { days = d i; hrs = h i; mins = m i; secs = s i; nanos = f.nanos }

-- `timespec2fmttime_np` gives the one record that has the digits of a clock, less than 24 hours, 60
-- minutes and 60 seconds, and shows the time that it is given.
pub timespec2fmttime_np_lem :
    (t : Timespec) (f : FmtTime) → (IsClock f × (to_timespec f ≡ t)) ↔ (f ≡ timespec2fmttime_np t)
timespec2fmttime_np_lem t f = (
  λ h. sym (to_timespec-split f h.0) ∙ ap timespec2fmttime_np h.1,
  λ e.
      let shows = timespec2fmttime_np-IsClock t in
      (subst IsClock (sym e) shows.0, ap to_timespec e ∙ shows.1),
)
