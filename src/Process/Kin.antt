-- ===== src/Process/Kin.antt =====
-- The queue of processes as pairs of a pid and a parent's pid.
use c_osiris.Base.{
  ℕ, ◌≡◌, ◌≢◌, ◌⊎◌, inl, inr, refl, ap, Bool, true, false, ◌||◌, some, List, [], ◌∷◌, ◌++◌, map,
  arith, Bool-cases, ◌==◌, if◌then◌else◌,
}
use c_osiris.Task.{Task, Sched, Exited, Chan, queue, find_pid, wake_task}
use c_osiris.Task.Switch.{kin, kin_of}
use c_osiris.Process.{reparent, add_exited}

-- Whether a pid is among pairs of a pid and a parent's.
abbrev pub has_pid : ℕ → List (ℕ × ℕ) → Bool
has_pid p [] = false
has_pid p ((q, r) ∷ ks) = q == p || has_pid p ks

-- Every pair but that of pid 1 names a parent from `all`.
abbrev pub Parented : List (ℕ × ℕ) → List (ℕ × ℕ) → Type 0
Parented all [] = Unit {0}
Parented all ((q, r) ∷ ks) = ((q ≡ 1) ⊎ (has_pid r all ≡ true)) × Parented all ks

-- The first process is in the queue, and every other one's parent.
abbrev pub HasParents : Sched → Type 0
HasParents s = (has_pid 1 (kin (queue s)) ≡ true) × Parented (kin (queue s)) (kin (queue s))

pub kin-append : (xs ys : List Task) → kin (xs ++ ys) ≡ kin xs ++ kin ys
kin-append [] ys = refl
kin-append (x ∷ xs) ys = ap (λ (l : List (ℕ × ℕ)). kin_of x ∷ l) (kin-append xs ys)

pub has_pid-append :
    (p : ℕ) (ks ls : List (ℕ × ℕ)) → has_pid p (ks ++ ls) ≡ (has_pid p ks || has_pid p ls)
has_pid-append p [] ls = refl
has_pid-append p ((q, r) ∷ ks) ls = ground (arith, has_pid-append p ks ls)

pub Parented-append :
    (all ks ls : List (ℕ × ℕ)) → Parented all ks → Parented all ls → Parented all (ks ++ ls)
Parented-append all [] ls a b = b
Parented-append all ((q, r) ∷ ks) ls a b = (a.0, Parented-append all ks ls a.1 b)

pub Parented-more : (all more ks : List (ℕ × ℕ)) → Parented all ks → Parented (all ++ more) ks
Parented-more all more [] a = tt
Parented-more all more ((q, r) ∷ ks) a =
    (ground (arith, has_pid-append r all more, a.0), Parented-more all more ks a.1)

pub Parented-mid :
    (all ks ls : List (ℕ × ℕ)) (q r : ℕ)
    → Parented all (ks ++ ((q, r) ∷ ls))
    → ((q ≡ 1) ⊎ (has_pid r all ≡ true)) × Parented all (ks ++ ls)
Parented-mid all [] ls q r a = a
Parented-mid all ((q', r') ∷ ks) ls q r a =
    let rest = Parented-mid all ks ls q r a.1 in (rest.0, (a.0, rest.1))

-- The pairs after the children of `c` went to pid 1.
abbrev pub adopt : ℕ → List (ℕ × ℕ) → List (ℕ × ℕ)
adopt c [] = []
adopt c ((q, r) ∷ ks) = (q, if r == c then 1 else r) ∷ adopt c ks

pub adopt-append : (c : ℕ) (ks ls : List (ℕ × ℕ)) → adopt c (ks ++ ls) ≡ adopt c ks ++ adopt c ls
adopt-append c [] ls = refl
adopt-append c ((q, r) ∷ ks) ls =
    ap (λ (l : List (ℕ × ℕ)). (q, if r == c then 1 else r) ∷ l) (adopt-append c ks ls)

pub has_pid-adopt : (c p : ℕ) (ks : List (ℕ × ℕ)) → has_pid p (adopt c ks) ≡ has_pid p ks
has_pid-adopt c p [] = refl
has_pid-adopt c p ((q, r) ∷ ks) = ap (λ b. q == p || b) (has_pid-adopt c p ks)

-- What is named as a parent after an exit is still there.
pub Parented-adopt :
    (c pp : ℕ) (kb ka ks : List (ℕ × ℕ))
    → c ≢ 1
    → has_pid 1 (kb ++ ((c, pp) ∷ ka)) ≡ true
    → Parented (kb ++ ((c, pp) ∷ ka)) ks
    → Parented (adopt c (kb ++ ka)) (adopt c ks)
Parented-adopt c pp kb ka [] ne one a = tt
Parented-adopt c pp kb ka ((q, r) ∷ ks) ne one a = (
  ground (
    arith,
    a.0,
    has_pid-adopt c 1 (kb ++ ka),
    has_pid-adopt c r (kb ++ ka),
    has_pid-append 1 kb ka,
    has_pid-append r kb ka,
    has_pid-append 1 kb ((c, pp) ∷ ka),
    has_pid-append r kb ((c, pp) ∷ ka),
  ),
  Parented-adopt c pp kb ka ks ne one a.1,
)

pub kin-map_wake : (c : Chan) (ts : List Task) → kin (map (wake_task c) ts) ≡ kin ts
unfolding wake_task
kin-map_wake c [] = refl
kin-map_wake c (t ∷ ts) = ground (arith, kin-map_wake c ts)

pub kin-change :
    (p c : ℕ) (e : Exited) (ts : List Task)
    → kin (map (λ u. add_exited p e (reparent c u)) ts) ≡ adopt c (kin ts)
unfolding add_exited reparent
kin-change p c e [] = refl
kin-change p c e (t ∷ ts) = ground (arith, kin-change p c e ts)

pub find_of_has :
    (p : ℕ) (ts : List Task) → has_pid p (kin ts) ≡ true → (t : Task) × (find_pid p ts ≡ some t)
unfolding find_pid
find_of_has p [] h = absurd (cc)
find_of_has p (t ∷ ts) h = elim (Bool-cases (t.pid == p)) [
  | inl same ↦ (t, rw same)
  | inr other ↦ let rest = find_of_has p ts (ground arith) in (rest.0, rw other rest.1)
]
