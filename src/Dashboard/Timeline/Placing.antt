-- ===== src/Dashboard/Timeline/Placing.antt =====
-- Where the bars of the timeline lie.
use triggerlink.Prelude.{
  ℕ, suc, ◌+◌, ◌*◌, ◌≤◌, ◌≡◌, refl, Option, none, some, List, [], ◌∷◌, ◌++◌, Bool, true, false,
  arith, length, All, All-append, length-append, if◌then◌else◌,
}
use triggerlink.Dashboard.Timeline.{
  StepRecord, RunTimes, Bar, max, left_of, width_of, bar_of, last_end, step_bars, is_running,
  range_of, timeline, in_flight_bar, bars_of,
}

-- A bar begins within the first 99 percent, is at least one percent wide, and does not reach out.
pub record IsInside (range : ℕ) (b : Bar) : Type 0 where
  pub begins : b.left ≤ 99 * range
  pub visible : range ≤ b.width
  pub inside : b.left + b.width ≤ 100 * range

bar_of-IsInside :
    (index : ℕ) (step : Option StepRecord) (start end t0 range : ℕ)
    → IsInside range (bar_of index step start end t0 range)
unfolding bar_of left_of width_of
bar_of-IsInside index step start end t0 range = record {
  begins = ground arith;
  visible = ground arith;
  inside = ground arith;
}

range_of-positive :
    (steps : List StepRecord) (run : RunTimes) (now : ℕ) → 1 ≤ range_of steps run now
unfolding range_of
range_of-positive steps run now = ground arith

step_bars-IsInside :
    (steps : List StepRecord) (index start t0 range : ℕ)
    → All (IsInside range) (step_bars steps index start t0 range)
unfolding step_bars
step_bars-IsInside [] index start t0 range = tt
step_bars-IsInside (s ∷ steps) index start t0 range =
    (bar_of-IsInside _ _ _ _ _ _, step_bars-IsInside steps (suc index) s.updated_at t0 range)

length-step_bars :
    (steps : List StepRecord) (index start t0 range : ℕ)
    → length (step_bars steps index start t0 range) ≡ length steps
unfolding step_bars
length-step_bars [] index start t0 range = refl
length-step_bars (s ∷ steps) index start t0 range =
    rw (length-step_bars steps (suc index) s.updated_at t0 range)

in_flight-IsInside :
    (flying : Bool) (index start now t0 range : ℕ)
    → All (IsInside range) (in_flight_bar flying index start now t0 range)
in_flight-IsInside true index start now t0 range = (bar_of-IsInside _ _ _ _ _ _, tt)
in_flight-IsInside false index start now t0 range = tt

-- The steps end in order, none before `start`.
abbrev pub IsChronological : ℕ → List StepRecord → Type 0
IsChronological start [] = Unit
IsChronological start (s ∷ steps) = (start ≤ s.updated_at) × IsChronological s.updated_at steps

-- what the bars' durations add up to
abbrev pub total : List Bar → ℕ
total [] = 0
total (b ∷ bars) = b.duration + total bars

-- The width is the step's share of the whole, or one percent where that is more.
abbrev pub IsProportional : ℕ → Bar → Type 0
IsProportional range b = b.width ≡ max range (b.duration * 100)

bar_of-IsProportional :
    (index : ℕ) (step : Option StepRecord) (start end t0 range : ℕ)
    → t0 ≤ start
    → start ≤ end
    → end ≤ t0 + range
    → IsProportional range (bar_of index step start end t0 range)
unfolding bar_of left_of width_of
bar_of-IsProportional index step start end t0 range a b c = ground arith

last_end-IsChronological :
    (steps : List StepRecord) (start : ℕ)
    → IsChronological start steps
    → start ≤ last_end steps start
unfolding last_end
last_end-IsChronological [] start chron = omega arith
last_end-IsChronological (s ∷ steps) start (here, chron) =
    omega (arith, here, last_end-IsChronological steps s.updated_at chron)

step_bars-IsProportional :
    (steps : List StepRecord) (index start t0 range : ℕ)
    → IsChronological start steps
    → t0 ≤ start
    → last_end steps start ≤ t0 + range
    → All (IsProportional range) (step_bars steps index start t0 range)
      × (start + total (step_bars steps index start t0 range) ≡ last_end steps start)
unfolding step_bars last_end bar_of
step_bars-IsProportional [] index start t0 range chron first within = (tt, omega arith)
step_bars-IsProportional (s ∷ steps) index start t0 range (here, chron) first within =
    let later = last_end-IsChronological steps s.updated_at chron in
    let (rest, sum) =
      step_bars-IsProportional steps (suc index) s.updated_at t0 range chron
        (omega (arith, here, first)) within in
    (
      (
        bar_of-IsProportional index (some s) start s.updated_at t0 range first here
            (omega (arith, later, within)),
        rest,
      ),
      omega (arith, sum, here),
    )

timeline-some :
    (steps : List StepRecord) (run : RunTimes) (now : ℕ) (bars : List Bar)
    → timeline steps run now ≡ some bars
    → bars ≡ bars_of steps run now
unfolding timeline
timeline-some [] run now bars e = ground arith
timeline-some (s ∷ steps) run now bars e = cc

length-in_flight_bar :
    (flying : Bool) (index start now t0 range : ℕ)
    → length (in_flight_bar flying index start now t0 range) ≡ (if flying then 1 else 0)
length-in_flight_bar true index start now t0 range = refl
length-in_flight_bar false index start now t0 range = refl

-- Where there are bars, and whatever the times of the run and of its steps are, ones out of order included:
-- there is a bar for each step and one more while the run is running, no position divides by zero, and
-- each bar begins within the first 99 percent, is at least one percent wide, and ends within the
-- timeline. Every step has a time.
pub timeline-IsInside :
    (steps : List StepRecord) (run : RunTimes) (now : ℕ) (bars : List Bar)
    → timeline steps run now ≡ some bars
    → (length bars ≡ length steps + (if is_running run then 1 else 0))
      × (1 ≤ range_of steps run now)
      × All (IsInside (range_of steps run now)) bars
timeline-IsInside steps run now bars e =
    let range = range_of steps run now in
    let t0 = run.created_at in
    let whole = timeline-some steps run now bars e in
    (
      rw (whole, length-append, length-step_bars steps 1 t0 t0 range, length-in_flight_bar),
      range_of-positive steps run now,
      rw whole (
          All-append (IsInside range) _ _ (step_bars-IsInside steps 1 t0 t0 range) (
            in_flight-IsInside (is_running run) (length steps + 1) (last_end steps t0) now t0
              range)),
    )

range_of_covers :
    (steps : List StepRecord) (run : RunTimes) (now : ℕ)
    → (last_end steps run.created_at ≤ run.created_at + range_of steps run now)
      × (is_running run ≡ true → now ≤ run.created_at + range_of steps run now)
unfolding range_of
range_of_covers steps run now = ground arith

total-append : (one other : List Bar) → total (one ++ other) ≡ total one + total other
total-append [] other = omega arith
total-append (b ∷ one) other = omega (arith, total-append one other)

-- when the last bar ends
abbrev pub end_of : List StepRecord → RunTimes → ℕ → ℕ
end_of steps run now = if is_running run then now else last_end steps run.created_at

in_flight-IsProportional :
    (flying : Bool) (index start now t0 range : ℕ)
    → t0 ≤ start
    → start ≤ (if flying then now else start)
    → (flying ≡ true → now ≤ t0 + range)
    → All (IsProportional range) (in_flight_bar flying index start now t0 range)
      × (start + total (in_flight_bar flying index start now t0 range)
          ≡ (if flying then now else start))
unfolding bar_of
in_flight-IsProportional true index start now t0 range a b within =
    ((bar_of-IsProportional index none start now t0 range a b (within refl), tt), omega (arith, b))
in_flight-IsProportional false index start now t0 range a b within = (tt, omega arith)

-- Where the steps of a run ended in order after its creation, and not after now while it is running:
-- each bar is as wide as its share of the whole time, or one percent where that is more, and the
-- durations on the bars add up to the time from the creation to the end of the last bar.
pub timeline-IsProportional :
    (steps : List StepRecord) (run : RunTimes) (now : ℕ) (bars : List Bar)
    → timeline steps run now ≡ some bars
    → IsChronological run.created_at steps
    → last_end steps run.created_at ≤ end_of steps run now
    → All (IsProportional (range_of steps run now)) bars
      × (run.created_at + total bars ≡ end_of steps run now)
timeline-IsProportional steps run now bars e chron past =
    let range = range_of steps run now in
    let t0 = run.created_at in
    let (ended, running) = range_of_covers steps run now in
    let (done, sum) = step_bars-IsProportional steps 1 t0 t0 range chron (omega arith) ended in
    let (flying, rest) =
      in_flight-IsProportional (is_running run) (length steps + 1) (last_end steps t0) now t0 range
        (last_end-IsChronological steps t0 chron) past running in
    let whole = timeline-some steps run now bars e in
    (
      rw whole (All-append (IsProportional range) _ _ done flying),
      rw (whole, total-append) (omega (arith, sum, rest)),
    )
