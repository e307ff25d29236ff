-- ===== src/Threads/Scheduler.antt =====
-- The scheduled tasks: src/core/schemas/scheduled_task.py and `_scheduler_loop`. An action is known
-- by a number, its identity.
use link_chat.Prelude.{ℕ, ◌+◌, Bool, List, [], ◌∷◌, ◌++◌, leb, ◌==◌, if◌then◌else◌}

pub record ScheduledTask : Type 0 where
  pub action : ℕ
  pub interval : ℕ
  pub last_run : ℕ

unfoldable pub add_scheduled_task : ScheduledTask → List ScheduledTask → List ScheduledTask
add_scheduled_task task tasks = tasks ++ task ∷ []

unfoldable pub remove_scheduled_task : ℕ → List ScheduledTask → List ScheduledTask
remove_scheduled_task action [] = []
remove_scheduled_task action (t ∷ ts) =
    let rest = remove_scheduled_task action ts in if t.action == action then rest else t ∷ rest

-- `perform` says whether an action returned, and the state that it left.
module _ {S : Type 0} (perform : ℕ → S → Bool × S) where
  -- A task that is due runs; its time moves on only if the action did not raise.
  unfoldable pub run_task : ℕ → ScheduledTask → S → ScheduledTask × S
  run_task now task s =
      if leb (task.last_run + task.interval) now
      then (let done = perform task.action s in
          (if done.0 then record task { last_run = now } else task, done.1))
      else (task, s)

  -- A round of `_scheduler_loop`.
  unfoldable pub scheduler_round : ℕ → List ScheduledTask → S → List ScheduledTask × S
  unfolding run_task
  scheduler_round now [] s = ([], s)
  scheduler_round now (t ∷ ts) s =
      let first = run_task now t s in
      let rest = scheduler_round now ts first.1 in (first.0 ∷ rest.0, rest.1)
