-- ===== src/Ke/Timer/Expiry.antt =====
-- What a sweep of the timer queue leaves.
use windows_10_js.Prelude.{ℕ, ◌<◌, List, [], ◌∷◌, arith}
use windows_10_js.Ke.Machine.{Machine, TimerEntry}
use windows_10_js.Ke.Timer.{check_list, rearm}

abbrev pub NotDue : ℕ → List TimerEntry → Type 0
NotDue now [] = Unit {0}
NotDue now (e ∷ es) = (now < e.due) × NotDue now es

rearm-NotDue :
    (now : ℕ) (e : TimerEntry) (rest : List TimerEntry)
    → NotDue now rest
    → NotDue now (rearm now e rest)
unfolding rearm
rearm-NotDue now e rest h = ground arith

-- After a sweep no timer of the queue is due at the time of the sweep, however late it is.
pub check_list-NotDue :
    (now : ℕ) (es : List TimerEntry) (m : Machine) → NotDue now (check_list now es m).0
unfolding check_list
check_list-NotDue now [] m = tt
check_list-NotDue now (e ∷ es) m =
    ground (arith, check_list-NotDue now es m, rearm-NotDue now e (check_list now es m).0)
