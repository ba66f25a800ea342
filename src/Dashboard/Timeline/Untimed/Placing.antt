-- ===== src/Dashboard/Timeline/Untimed/Placing.antt =====
-- Where the bars stand in a timeline with and without times (web/src/pages/RunDetailPage.jsx).
use triggerlink.Prelude.{
  ℕ, suc, ◌+◌, ◌≡◌, refl, sym, ◌∙◌, ap, none, some, Option, List, [], ◌∷◌, ◌++◌, map, Bool, true,
  false, if◌then◌else◌, All, All-append, length,
}
use mathlib.Core.List.{map-append}
use mathlib.Core.Option
use triggerlink.Dashboard.Timeline.{
  StepRecord, RunTimes, Bar, bar_of, last_end, step_bars, is_running, range_of, in_flight_bar,
  bars_of, timeline,
}
use triggerlink.Dashboard.Timeline.Untimed.{
  StepRow, RowBar, left_at, width_at, row_bar, last_time, row_bars, executing_bar, row_bars_of,
  row_timeline, timed, timed_bar,
}

last_time-timed :
    (steps : List StepRecord) (t0 : ℕ)
    → last_time (map timed steps) (some t0) ≡ some (last_end steps t0)
unfolding last_time last_end
last_time-timed [] t0 = refl
last_time-timed (s ∷ steps) t0 = last_time-timed steps s.updated_at

row_bars-timed :
    (steps : List StepRecord) (index start t0 range : ℕ)
    → row_bars (map timed steps) index (some start) t0 (some range)
      ≡ map timed_bar (step_bars steps index start t0 range)
unfolding row_bars step_bars bar_of
row_bars-timed [] index start t0 range = refl
row_bars-timed (s ∷ steps) index start t0 range =
    ap
      (λ bars.
        row_bar index (some (timed s)) (some start) (some s.updated_at) t0 (some range) ∷ bars)
      (row_bars-timed steps (suc index) s.updated_at t0 range)

executing_bar-timed :
    (b : Bool) (index start now t0 range : ℕ)
    → executing_bar b index (some start) now t0 (some range)
      ≡ map timed_bar (in_flight_bar b index start now t0 range)
unfolding bar_of
executing_bar-timed true index start now t0 range = refl
executing_bar-timed false index start now t0 range = refl

length-timed : (steps : List StepRecord) → length (map timed steps) ≡ length steps
length-timed [] = refl
length-timed (s ∷ steps) = ap suc (length-timed steps)

row_bars_of-timed :
    (steps : List StepRecord) (run : RunTimes) (now : ℕ)
    → row_bars_of (map timed steps) run now ≡ map timed_bar (bars_of steps run now)
unfolding range_of
row_bars_of-timed steps run now =
    rw
      (
        last_time-timed steps run.created_at,
        length-timed steps,
        row_bars-timed steps 1 run.created_at run.created_at _,
        executing_bar-timed (is_running run) (length steps + 1) _ now run.created_at _,
      )
      (sym (map-append timed_bar _ _))

if_map :
    (b : Bool) (rows : List RowBar) (bars : List Bar)
    → rows ≡ map timed_bar bars
    → (if b then some rows else none) ≡ Option.map (map timed_bar) (if b then some bars else none)
if_map true rows bars e = ap some e
if_map false rows bars e = refl

-- Where every row has its time, the timeline is the one of `timeline`.
pub row_timeline-eq-timeline :
    (steps : List StepRecord) (run : RunTimes) (now : ℕ)
    → row_timeline (map timed steps) run now ≡ Option.map (map timed_bar) (timeline steps run now)
unfolding row_timeline timeline
row_timeline-eq-timeline [] run now = if_map (is_running run) _ _ (row_bars_of-timed [] run now)
row_timeline-eq-timeline (s ∷ steps) run now = ap some (row_bars_of-timed (s ∷ steps) run now)

-- a bar that is not placed
abbrev pub IsUnplaced : RowBar → Type 0
IsUnplaced b = (b.left ≡ none) × (b.width ≡ none)

left_at-none : (start : Option ℕ) (t0 : ℕ) → left_at start t0 none ≡ none
left_at-none none t0 = refl
left_at-none (some start) t0 = refl

width_at-none : (start end : Option ℕ) (t0 : ℕ) → width_at start end t0 none ≡ none
width_at-none none end t0 = refl
width_at-none (some start) none t0 = refl
width_at-none (some start) (some end) t0 = refl

row_bar-IsUnplaced :
    (index : ℕ) (row : Option StepRow) (start end : Option ℕ) (t0 : ℕ)
    → IsUnplaced (row_bar index row start end t0 none)
row_bar-IsUnplaced index row start end t0 = (left_at-none start t0, width_at-none start end t0)

row_bars-IsUnplaced :
    (rows : List StepRow) (index : ℕ) (start : Option ℕ) (t0 : ℕ)
    → All IsUnplaced (row_bars rows index start t0 none)
unfolding row_bars
row_bars-IsUnplaced [] index start t0 = tt
row_bars-IsUnplaced (row ∷ rows) index start t0 = (
  row_bar-IsUnplaced index (some row) start row.updated_at t0,
  row_bars-IsUnplaced rows (suc index) row.updated_at t0,
)

executing_bar-IsUnplaced :
    (flying : Bool) (index : ℕ) (start : Option ℕ) (now t0 : ℕ)
    → All IsUnplaced (executing_bar flying index start now t0 none)
executing_bar-IsUnplaced true index start now t0 =
    (row_bar-IsUnplaced index none start (some now) t0, tt)
executing_bar-IsUnplaced false index start now t0 = tt

row_bars_of-IsUnplaced :
    (rows : List StepRow) (run : RunTimes) (now : ℕ)
    → last_time rows (some run.created_at) ≡ none
    → All IsUnplaced (row_bars_of rows run now)
row_bars_of-IsUnplaced rows run now e = rw e (
    All-append IsUnplaced _ _ (row_bars-IsUnplaced rows 1 (some run.created_at) run.created_at)
      (executing_bar-IsUnplaced (is_running run) _ none now run.created_at))

last_time-append :
    (rows : List StepRow) (row : StepRow) (before : Option ℕ)
    → last_time (rows ++ (row ∷ [])) before ≡ row.updated_at
unfolding last_time
last_time-append [] row before = refl
last_time-append (r ∷ rows) row before = last_time-append rows row r.updated_at

row_timeline-append :
    (rows : List StepRow) (row : StepRow) (run : RunTimes) (now : ℕ)
    → row_timeline (rows ++ (row ∷ [])) run now ≡ some (row_bars_of (rows ++ (row ∷ [])) run now)
unfolding row_timeline
row_timeline-append [] row run now = refl
row_timeline-append (r ∷ rows) row run now = refl

-- A last row without a time leaves every bar of the timeline without a place and without a width, those of the rows before it included.
pub row_timeline-IsUnplaced :
    (rows : List StepRow) (row : StepRow) (run : RunTimes) (now : ℕ)
    → row.updated_at ≡ none
    → (bars : List RowBar) × (row_timeline (rows ++ (row ∷ [])) run now ≡ some bars)
      × All IsUnplaced bars
row_timeline-IsUnplaced rows row run now e = (
  row_bars_of (rows ++ (row ∷ [])) run now,
  row_timeline-append rows row run now,
  row_bars_of-IsUnplaced _ run now (last_time-append rows row (some run.created_at) ∙ e),
)
