-- ===== src/Po.antt =====
-- system32/ntos/po/power-manager.js: the power state of each device, and the power IRPs that wait
-- for it. Devices and IRPs are their addresses.
pub mod Requests
use windows_10_js.Prelude.{
  ℕ, ◌+◌, ◌%◌, Bool, true, false, not, Option, none, some, List, [], ◌∷◌, ◌++◌, ◌==◌, if◌then◌else◌,
}
use windows_10_js.Prelude.Assoc.{lookup, insert, erase}
use windows_10_js.Hal.Memory.{Memory, read32}

abbrev pub d0 : ℕ
d0 = 1

-- POWER_STATE_TYPE.DEVICE_POWER_STATE
abbrev pub device_power_state : ℕ
device_power_state = 1

-- `currentDevicePowerState`, `pendingPowerRequests`, and the set `powerRequestInFlight`.
pub record Power : Type 0 where
  pub states : List (ℕ × ℕ)
  pub pending : List (ℕ × List ℕ)
  pub in_flight : List (ℕ × Unit {0})

unfoldable pub get_device_power_state : ℕ → Power → ℕ
get_device_power_state device p = elim (lookup device p.states) [ none ↦ d0 | some state ↦ state ]

unfoldable pub set_power_state : (device type new_state : ℕ) → Power → ℕ × Power
unfolding get_device_power_state
set_power_state device type new_state p =
    if type == device_power_state
    then (
      get_device_power_state device p,
      record p { states = insert device (new_state % 0x1_0000_0000) p.states },
    )
    else (new_state, p)

unfoldable pub forget_device : ℕ → Power → Power
forget_device device p = record {
  states = erase device p.states;
  pending = erase device p.pending;
  in_flight = erase device p.in_flight;
}

-- The requests that wait for the device; none is waiting for a device without a queue.
unfoldable pub waiting : ℕ → Power → List ℕ
waiting device p = elim (lookup device p.pending) [ none ↦ [] | some irps ↦ irps ]

unfoldable pub queue_power_request : (device irp : ℕ) → Power → Bool × Power
unfolding waiting
queue_power_request device irp p = (
  elim (lookup device p.in_flight) [ none ↦ false | some _ ↦ true ],
  record p { pending = insert device (waiting device p ++ irp ∷ []) p.pending },
)

unfoldable pub mark_power_request_started : ℕ → Power → Power
mark_power_request_started device p = record p { in_flight = insert device tt p.in_flight }

unfoldable pub mark_power_request_done : ℕ → Power → Power
mark_power_request_done device p = record p { in_flight = erase device p.in_flight }

-- `queue.shift()`
unfoldable pub shift_request : ℕ → Power → Option ℕ × Power
unfolding waiting
shift_request device p = elim (waiting device p) [
  | [] ↦ (none, p)
  | irp ∷ irps ↦ (some irp, record p { pending = insert device irps p.pending })
]

-- The dispatcher is the function that the I/O manager registers.
unfoldable pub start_next_power_request : (ℕ → ℕ → Power → ℕ × Power) → ℕ → Power → Power
unfolding shift_request
start_next_power_request dispatch device p =
    let (next, p') = shift_request device p in
    elim next [ none ↦ p' | some irp ↦ (dispatch device irp p').1 ]

-- `attached` is the offset DEVICE_OBJECT.ATTACHED_DEVICE.
unfoldable pub call_driver_down_the_stack :
    (ℕ → ℕ → Power → ℕ × Power) → (attached device irp : ℕ) → Memory → Power → ℕ × Power
call_driver_down_the_stack dispatch attached device irp m p =
    let below = read32 m (device + attached) in if below == 0 then (0, p) else dispatch below irp p
