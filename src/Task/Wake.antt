-- ===== src/Task/Wake.antt =====
-- Waking.
use c_osiris.Base.{
  ℕ, ◌≤◌, ◌<◌, ◌≡◌, refl, sym, true, false, List, [], ◌∷◌, map, arith, Bool-cases, inl, inr,
}
use mathlib.Core.List.{map-append}
use c_osiris.Task.{
  Task, Sched, Chan, sleeping, running, is_ready, queue, wake_check, wakes, wake_task, count_woken,
  wakeup,
}

pub queue-wakeup : (c : Chan) (s : Sched) → queue (wakeup c s).1 ≡ map (wake_task c) (queue s)
unfolding wakeup
queue-wakeup c s = elim (Bool-cases s.linked) [
  | inl here ↦ rw here (sym (map-append (wake_task c) s.before (s.current ∷ s.after)))
  | inr gone ↦ rw gone (sym (map-append (wake_task c) s.before s.after))
]

pub wakes-wake_task : (c : Chan) (t : Task) → wakes c (wake_task c t) ≡ false
unfolding wakes wake_task
wakes-wake_task c t = ground arith

count_woken-map : (c : Chan) (ts : List Task) → count_woken c (map (wake_task c) ts) ≡ 0
unfolding count_woken
count_woken-map c [] = refl
count_woken-map c (t ∷ ts) = ground (arith, wakes-wake_task c t, count_woken-map c ts)

count-wakeup : (c : Chan) (s : Sched) → (wakeup c s).0 ≡ count_woken c (queue s)
unfolding wakeup
count-wakeup c s = refl

-- `wakeup` returns the number of tasks in the queue that slept on the address, wakes just those, in
-- their places, and leaves none that sleeps on it. A task that it wakes can run and has no limit to
-- its sleep any more; another is as it was.
pub wakeup_lem :
    (c : Chan) (s : Sched)
    → let (n, s') = wakeup c s in
      (n ≡ count_woken c (queue s))
      × (queue s' ≡ map (wake_task c) (queue s))
      × (count_woken c (queue s') ≡ 0)
      × ((t : Task)
          → (wakes c t ≡ true
              → (is_ready (wake_task c t).state ≡ true) × ((wake_task c t).sleep_end ≡ 0))
            × (wakes c t ≡ false → wake_task c t ≡ t))
unfolding wake_task
wakeup_lem c s = (
  count-wakeup c s,
  queue-wakeup c s,
  rw (queue-wakeup c s) (count_woken-map c (queue s)),
  λ t. (λ h. ground arith, λ h. rw h),
)

-- A sleep with a limit ends at the first look at the clock after the limit, not at the limit: until
-- then the task is as it was.
pub wake_check_lem :
    (now : ℕ) (t : Task)
    → t.state ≡ sleeping
    → 0 < t.sleep_end
    → (now ≤ t.sleep_end → wake_check now t ≡ t)
      × (t.sleep_end < now
          → ((wake_check now t).state ≡ running) × ((wake_check now t).sleep_end ≡ 0))
unfolding wake_check
wake_check_lem now t e h = (λ k. ground arith, λ k. ground arith)
