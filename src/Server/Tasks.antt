-- ===== src/Server/Tasks.antt =====
-- internal/dashboard/service.go: `beginSyncTask`, `finishSyncTask` and `WaitForSync`, each under its lock.
pub mod Waits
use copilot_api_dashboard.Base.{
  ℕ, zero, suc, ◌-◌, ◌+◌, Bool, true, false, List, [], ◌∷◌, ◌&&◌, if◌then◌else◌, ltb, ◌≡◌, refl,
  sym, ap, arith, ◌∙◌, Bool-cases, inl, inr,
}

-- `syncDone`: nil, open or closed. Go panics when a channel is closed that is nil or closed.
pub data Channel : Type 0 where
  no_channel : Channel
  opened : Channel
  closed : Channel
  panicked : Channel

abbrev pub close : Channel → Channel
close no_channel = panicked
close opened = closed
close closed = panicked
close panicked = panicked

pub record SyncTasks : Type 0 where
  pub tasks : ℕ
  pub stopped : Bool
  pub done : Channel

abbrev pub is_zero : ℕ → Bool
is_zero zero = true
is_zero (suc n) = false

unfoldable pub begin_sync_task : SyncTasks → Bool × SyncTasks
begin_sync_task s = if s.stopped then (false, s) else (true, record s { tasks = suc s.tasks })

unfoldable pub finish_sync_task : SyncTasks → SyncTasks
finish_sync_task s =
    let tasks = s.tasks - 1 in
    record s { tasks = tasks; done = if s.stopped && is_zero tasks then close s.done else s.done }

-- What `WaitForSync` does before it waits for `syncDone` to be closed.
unfoldable pub stop_sync_tasks : SyncTasks → SyncTasks
stop_sync_tasks s =
    if s.stopped
    then s
    else record s { stopped = true; done = if is_zero s.tasks then close opened else opened }

-- The service with the number of the tasks that have begun and not finished; such a task finishes once.
pub record Running : Type 0 where
  pub service : SyncTasks
  pub running : ℕ

pub data TaskEvent : Type 0 where
  begins : TaskEvent
  finishes : TaskEvent
  waits : TaskEvent

abbrev pub started : Running → Bool × SyncTasks → Running
started r (true, s) = record { service = s; running = suc r.running }
started r (false, s) = record r { service = s }

unfoldable pub task_event : TaskEvent → Running → Running
unfolding begin_sync_task finish_sync_task stop_sync_tasks
task_event begins r = started r (begin_sync_task r.service)
task_event finishes r =
    if is_zero r.running
    then r
    else record { service = finish_sync_task r.service; running = r.running - 1 }
task_event waits r = record r { service = stop_sync_tasks r.service }

unfoldable pub task_events : List TaskEvent → Running → Running
unfolding task_event
task_events [] r = r
task_events (e ∷ es) r = task_events es (task_event e r)

abbrev pub no_tasks : Running
no_tasks = record {
  service = record { tasks = 0; stopped = false; done = no_channel };
  running = 0;
}
