-- ===== src/Example/Tasks.antt =====
-- The task table of the example application (examples/nextjs/app/lib/tasks.ts).
use triggerlink.Prelude.{ℕ, Option, none, some, List, Text, lookup, insert}
use triggerlink.Value.{Value}

pub data Status : Type 0 where
  running completed failed : Status

pub record TaskState : Type 0 where
  pub status : Option Status
  pub stage : Option Text
  pub result : Option Value
  pub error : Option Text
  pub updated_at : ℕ

-- What a call of `updateTask` sets: what is absent stays.
pub record Patch : Type 0 where
  pub status : Option Status
  pub stage : Option Text
  pub result : Option Value
  pub error : Option Text

-- What the example's process keeps and shows: the table, the console, and the clock.
pub record Demo : Type 0 where
  pub tasks : List (Text × TaskState)
  pub console : List Text
  pub clock : ℕ

abbrev keep : {A : Type 0} → Option A → Option A → Option A
keep (some a) old = some a
keep none old = old

-- `{ ...store.get(taskId), ...patch, updatedAt: Date.now() }`
abbrev pub merge : Option TaskState → Patch → ℕ → TaskState
merge none patch now = record {
  status = patch.status;
  stage = patch.stage;
  result = patch.result;
  error = patch.error;
  updated_at = now;
}
merge (some old) patch now = record {
  status = keep patch.status old.status;
  stage = keep patch.stage old.stage;
  result = keep patch.result old.result;
  error = keep patch.error old.error;
  updated_at = now;
}

unfoldable pub update_task : Text → Patch → Demo → Demo
update_task id patch w = record w {
  tasks = insert id (merge (lookup id w.tasks) patch w.clock) w.tasks;
}

abbrev pub get_task : Text → Demo → Option TaskState
get_task id w = lookup id w.tasks
