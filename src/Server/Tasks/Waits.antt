-- ===== src/Server/Tasks/Waits.antt =====
-- The channel that `WaitForSync` waits for.
use copilot_api_dashboard.Base.{
  ◌∙◌, ℕ, zero, suc, ◌-◌, ◌+◌, ◌≤◌, Bool, true, false, List, [], ◌∷◌, ◌++◌, ◌&&◌, if◌then◌else◌,
  ◌≡◌, refl, sym, ap, subst, arith, Bool-cases, inl, inr,
}
use copilot_api_dashboard.Server.Tasks.{
  Channel, no_channel, opened, closed, close, is_zero, Running, TaskEvent, begins, finishes, waits,
  task_event, task_events, no_tasks,
}

-- The channel that the service must have.
abbrev pub due : Running → Channel
due r = if r.service.stopped then (if is_zero r.running then closed else opened) else no_channel

abbrev pub IsCounted : Running → Type 0
IsCounted r = (r.service.tasks ≡ r.running) × (r.service.done ≡ due r)

abbrev exactly : ℕ → Bool → Running
exactly n b = record {
  service = record {
    tasks = n;
    stopped = b;
    done = if b then (if is_zero n then closed else opened) else no_channel;
  };
  running = n;
}

exact : (r : Running) → IsCounted r → exactly r.running r.service.stopped ≡ r
exact r h i = record {
  service = record { tasks = sym h.0 i; stopped = r.service.stopped; done = sym h.1 i };
  running = r.running;
}

last_closes :
    (b z : Bool)
    → (if b && z
        then close (if b then opened else no_channel)
        else (if b then opened else no_channel))
      ≡ (if b then (if z then closed else opened) else no_channel)
last_closes true true = refl
last_closes true false = refl
last_closes false z = refl

exactly-IsCounted : (e : TaskEvent) (n : ℕ) (b : Bool) → IsCounted (task_event e (exactly n b))
unfolding task_event
exactly-IsCounted begins n true = (refl, refl)
exactly-IsCounted begins n false = (refl, refl)
exactly-IsCounted finishes zero b = (refl, refl)
exactly-IsCounted finishes (suc n) b = (refl, last_closes b (is_zero (suc n - 1)))
exactly-IsCounted waits n true = (refl, refl)
exactly-IsCounted waits zero false = (refl, refl)
exactly-IsCounted waits (suc n) false = (refl, refl)

task_event-IsCounted : (e : TaskEvent) (r : Running) → IsCounted r → IsCounted (task_event e r)
task_event-IsCounted e r h =
    subst (λ x. IsCounted (task_event e x)) (exact r h)
      (exactly-IsCounted e r.running r.service.stopped)

task_events-IsCounted :
    (es : List TaskEvent) (r : Running) → IsCounted r → IsCounted (task_events es r)
unfolding task_events
task_events-IsCounted [] r h = h
task_events-IsCounted (e ∷ es) r h =
    task_events-IsCounted es (task_event e r) (task_event-IsCounted e r h)

-- Stopped, with at most so many tasks.
abbrev pub IsStopped : ℕ → Running → Type 0
IsStopped n r = (r.service.stopped ≡ true) × (r.running ≤ n)

-- How many of the events are the end of a task.
abbrev pub finish_count : TaskEvent → ℕ
finish_count begins = 0
finish_count finishes = 1
finish_count waits = 0

abbrev pub finish_counts : List TaskEvent → ℕ
finish_counts [] = 0
finish_counts (e ∷ es) = finish_count e + finish_counts es

none_left : (m n : ℕ) → is_zero m ≡ true → m ≤ n - 1
none_left zero n h = omega arith
none_left (suc m) n h = absurd cc

task_event-IsStopped :
    (e : TaskEvent) (n : ℕ) (r : Running)
    → IsStopped n r
    → IsStopped (n - finish_count e) (task_event e r)
unfolding task_event
task_event-IsStopped begins n r h = (rw h.0 refl, rw h.0 (omega arith))
task_event-IsStopped finishes n r h = elim (Bool-cases (is_zero r.running)) [
  | inl e ↦ rw e (h.0, none_left r.running n e)
  | inr e ↦ rw e (h.0, omega arith)
]
task_event-IsStopped waits n r h = (rw h.0 refl, omega arith)

task_events-IsStopped :
    (es : List TaskEvent) (n : ℕ) (r : Running)
    → IsStopped n r
    → IsStopped (n - finish_counts es) (task_events es r)
unfolding task_events
task_events-IsStopped [] n r h = (h.0, omega arith)
task_events-IsStopped (e ∷ es) n r h =
    let (stopped, few) =
      task_events-IsStopped es (n - finish_count e) (task_event e r)
        (task_event-IsStopped e n r h) in
    (stopped, omega arith)

stops : (r : Running) → IsStopped r.running (task_event waits r)
unfolding task_event
stops r = (by_case r.service.stopped refl, omega arith)
  where
    by_case : (b : Bool) → r.service.stopped ≡ b → (task_event waits r).service.stopped ≡ true
    by_case true e = rw e refl
    by_case false e = rw e refl

-- Whatever tasks begin and finish and however often `WaitForSync` is called, `syncTasks` counts the tasks that
-- are running, and `syncDone` is nil until the first call, then open while a task is running, and closed when
-- none is: it is never closed twice, nor while it is nil.
pub task_events_lem :
    (es : List TaskEvent)
    → let r = task_events es no_tasks in (r.service.tasks ≡ r.running) × (r.service.done ≡ due r)
task_events_lem es = task_events-IsCounted es no_tasks (refl, refl)

events-append :
    (es fs : List TaskEvent) (r : Running)
    → task_events (es ++ fs) r ≡ task_events fs (task_events es r)
unfolding task_events
events-append [] fs r = refl
events-append (e ∷ es) fs r = events-append es fs (task_event e r)

-- Once `WaitForSync` has been called, and as many tasks have finished as were running, `syncDone` is closed,
-- whatever tasks were asked for in the meantime.
pub wait_for_sync_lem :
    (es fs : List TaskEvent)
    → (task_events es no_tasks).running ≤ finish_counts fs
    → (task_events (es ++ waits ∷ fs) no_tasks).service.done ≡ closed
unfolding task_events
wait_for_sync_lem es fs h =
    let before = task_events es no_tasks in
    let (stopped, few) =
      task_events-IsStopped fs before.running (task_event waits before) (stops before) in
    let none_running : (task_events fs (task_event waits before)).running ≡ 0 = omega arith in
    let counted =
      (task_events-IsCounted fs _
        (task_event-IsCounted waits before (task_events-IsCounted es no_tasks (refl, refl)))).1 in
    ap (λ r. r.service.done) (events-append es (waits ∷ fs) no_tasks)
    ∙ counted
    ∙ rw (stopped, none_running) refl
