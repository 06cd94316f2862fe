-- ===== src/Task.antt =====
-- task.c: the queue of tasks, sleeping and waking, and the choice of the next task.
pub mod Switch
pub mod Wake
mod Tests
use c_osiris.Base.{
  ℕ, ◌+◌, ◌-◌, ◌/◌, ◌%◌, ◌^◌, Bool, true, false, ◌&&◌, ◌||◌, Option, none, some, List, [], ◌∷◌,
  ◌++◌, map, ltb, ◌==◌, if◌then◌else◌, replicate,
}
use c_osiris.Base.Words.{add32}

-- `task_states_t`.
pub data State : Type 0 where
  creating running awaken sleeping exiting : State

-- What a task can sleep on: the address of a task's wait queue, or any other.
pub data Chan : Type 0 where
  null : Chan
  address : ℕ → Chan
  wait_queue_of : ℕ → Chan

abbrev pub same_chan : Chan → Chan → Bool
same_chan null null = true
same_chan (address a) (address b) = a == b
same_chan (wait_queue_of p) (wait_queue_of q) = p == q
same_chan _ _ = false

-- An exited task in its parent's wait queue.
pub record Exited : Type 0 where
  pub pid : ℕ
  pub status : ℕ
  pub is_thread : Bool

-- `struct task`, less registers, memory and files.
pub record Task : Type 0 where
  pub pid : ℕ
  pub ppid : ℕ
  pub state : State
  pub sleep_addr : Chan
  pub sleep_end : ℕ
  pub exit_status : ℕ
  pub is_thread : Bool
  pub wait_queue : List Exited
  pub handlers : List ℕ

-- `task_queue` with a mark at `current_task`: the tasks before it, itself and those its `next` leads
-- to. An exited current task is no longer `linked` in the queue, but its `next` still leads on. `signals` is `sigs_queue`, pairs of a pid and a signal number.
pub record Sched : Type 0 where
  pub before : List Task
  pub current : Task
  pub after : List Task
  pub linked : Bool
  pub locked : Bool
  pub next_pid : ℕ
  pub signals : List (ℕ × ℕ)
  pub ticks : ℕ

abbrev pub queue : Sched → List Task
queue s = s.before ++ (if s.linked then s.current ∷ s.after else s.after)

-- `task_new`: a fresh pid and default signal handlers.
unfoldable pub new_task : Sched → Task × Sched
new_task s = (
  record {
    pid = s.next_pid;
    ppid = 0;
    state = creating;
    sleep_addr = null;
    sleep_end = 0;
    exit_status = 0;
    is_thread = false;
    wait_queue = [];
    handlers = replicate 32 0;
  },
  record s { next_pid = s.next_pid + 1 },
)

unfoldable pub find_pid : ℕ → List Task → Option Task
find_pid p [] = none
find_pid p (t ∷ ts) = if t.pid == p then some t else find_pid p ts

-- `get_task_by_pid`.
unfoldable pub by_pid : Sched → ℕ → Option Task
unfolding find_pid
by_pid s p = find_pid p (queue s)

abbrev pub is_sleeping : State → Bool
is_sleeping sleeping = true
is_sleeping creating = false
is_sleeping running = false
is_sleeping awaken = false
is_sleeping exiting = false

abbrev pub is_ready : State → Bool
is_ready running = true
is_ready awaken = true
is_ready creating = false
is_ready sleeping = false
is_ready exiting = false

-- `wake_check`: a sleep with a limit ends once the clock has passed it.
unfoldable pub wake_check : ℕ → Task → Task
wake_check now t =
    if is_sleeping t.state && (ltb 0 t.sleep_end && ltb t.sleep_end now)
    then record t { state = running; sleep_end = 0 }
    else t

-- One of the loops of `task_switch_inner`: the first task that can run, with the tasks on both
-- sides, or all tasks as the loop leaves them.
pub data Pick : Type 0 where
  found : List Task → Task → List Task → Pick
  nothing : List Task → Pick

unfoldable pub pick_behind : Task → Pick → Pick
pick_behind t (found b u a) = found (t ∷ b) u a
pick_behind t (nothing ts) = nothing (t ∷ ts)

unfoldable pub pick : ℕ → List Task → Pick
unfolding wake_check pick_behind
pick now [] = nothing []
pick now (t ∷ ts) =
    let t' = wake_check now t in
    if is_ready t'.state then found [] t' ts else pick_behind t' (pick now ts)

-- The second loop of `task_switch_inner` has run, from the head of the queue; `none` is the panic.
unfoldable pub from_head : Sched → Pick → Option Sched
from_head s (found b t a) = some (record s { before = b; current = t; after = a; linked = true })
from_head s (nothing ts) = none

-- The first has, from the task behind the current one.
unfoldable pub from_next : Sched → Pick → Option Sched
unfolding from_head pick
from_next s (found b t a) = some (record s {
  before = (s.before ++ (if s.linked then s.current ∷ [] else [])) ++ b;
  current = t;
  after = a;
  linked = true;
})
from_next s (nothing a) = from_head s (pick s.ticks (queue (record s { after = a })))

unfoldable pub switch_inner : Sched → Option Sched
unfolding pick from_next
switch_inner s = if s.locked then some s else from_next s (pick s.ticks s.after)

-- What `sleep_on` does to the current task before it gives the CPU away by `task_switch`.
unfoldable pub doze : Chan → Sched → Sched
doze addr s = record s {
  current = record s.current { state = sleeping; sleep_addr = addr };
  locked = false;
}

unfoldable pub sleep_on : Chan → Sched → Option Sched
unfolding doze switch_inner
sleep_on addr s = switch_inner (doze addr s)

abbrev pub ms_per_tick : ℕ
ms_per_tick = 10

unfoldable pub sleep_onms : Chan → ℕ → Sched → Option Sched
unfolding sleep_on
sleep_onms addr ms s =
    let ticks = ms / ms_per_tick + (if ms % ms_per_tick == 0 then 0 else 1) in
    sleep_on addr (record s { current = record s.current { sleep_end = add32 s.ticks ticks } })

-- The body of the loop of `wakeup`.
unfoldable pub wakes : Chan → Task → Bool
wakes addr t = is_sleeping t.state && same_chan t.sleep_addr addr

unfoldable pub wake_task : Chan → Task → Task
unfolding wakes
wake_task addr t =
    if wakes addr t then record t { state = running; sleep_addr = null; sleep_end = 0 } else t

unfoldable pub count_woken : Chan → List Task → ℕ
unfolding wakes
count_woken addr [] = 0
count_woken addr (t ∷ ts) = (if wakes addr t then 1 else 0) + count_woken addr ts

-- `wakeup`: the count that it returns, and the queue after it.
unfoldable pub wakeup : Chan → Sched → ℕ × Sched
unfolding wake_task count_woken
wakeup addr s = (
  count_woken addr (queue s),
  record s {
    before = map (wake_task addr) s.before;
    current = if s.linked then wake_task addr s.current else s.current;
    after = map (wake_task addr) s.after;
    locked = false;
  },
)
