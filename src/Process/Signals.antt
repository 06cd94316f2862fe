-- ===== src/Process/Signals.antt =====
-- The table of signal handlers.
use c_osiris.Base.{
  ℕ, ◌≤◌, ◌<◌, ◌≡◌, ◌≢◌, ◌⊎◌, arith, List, length, get_or, set, length-set, get_or-set_self,
  get_or-set_ne,
}
use c_osiris.Base.Ints.{pos}
use c_osiris.Process.{num_sigs, sigkill, sigstop, sig_err, old, signal}

-- `signal` in a whole table: for any signal but SIGKILL and SIGSTOP it returns the handler that was
-- installed and installs the new one for that signal alone; for those two, and for numbers from 32 on,
-- it returns SIG_ERR.
pub signal_lem :
    (n handler : ℕ) (table : List ℕ)
    → length table ≡ num_sigs
    → (n < num_sigs
        → n ≢ sigkill
        → n ≢ sigstop
        → (table' : List ℕ) × (signal (pos n) handler table ≡ old (get_or table n 0) table')
          × (get_or table' n 0 ≡ handler)
          × ((k : ℕ) → n ≢ k → get_or table' k 0 ≡ get_or table k 0)
          × (length table' ≡ num_sigs))
      × ((num_sigs ≤ n) ⊎ ((n ≡ sigkill) ⊎ (n ≡ sigstop)) → signal (pos n) handler table ≡ sig_err)
unfolding signal
signal_lem n handler table whole = (
  λ h a b. (
    set table n handler,
    ground arith,
    get_or-set_self table n handler 0 (omega arith),
    λ k ne. get_or-set_ne table n k handler 0 ne,
    omega (arith, length-set table n handler),
  ),
  λ h. ground arith,
)
