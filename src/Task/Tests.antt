-- ===== src/Task/Tests.antt =====
-- A queue of three tasks, and the theorems at it.
use c_osiris.Base.{ℕ, ◌≡◌, refl, true, false, some, [], ◌∷◌}
use c_osiris.Task.{
  State, Task, Sched, Chan, null, address, running, sleeping, wake_check, switch_inner, wakeup,
}
use c_osiris.Task.Switch.{Switched, switch_inner-Switched}

abbrev task : ℕ → State → Chan → ℕ → Task
task p st c end = record {
  pid = p;
  ppid = 1;
  state = st;
  sleep_addr = c;
  sleep_end = end;
  exit_status = 0;
  is_thread = false;
  wait_queue = [];
  handlers = [];
}

abbrev three : Sched
three = record {
  before = task 1 running null 0 ∷ [];
  current = task 2 running null 0;
  after = task 3 sleeping (address 9) 50 ∷ [];
  linked = true;
  locked = false;
  next_pid = 4;
  signals = [];
  ticks = 50;
}

switch-three :
    switch_inner three
    ≡ some (record three {
      before = [];
      current = task 1 running null 0;
      after = task 2 running null 0 ∷ task 3 sleeping (address 9) 50 ∷ [];
    })
unfolding switch_inner wake_check
switch-three = refl

wakeup-three : (wakeup (address 9) three).0 ≡ 1
unfolding wakeup
wakeup-three = refl

switch_inner-Switched_example : Switched three (switch_inner three)
switch_inner-Switched_example = switch_inner-Switched three refl
