-- ===== src/Po/Requests.antt =====
-- The order of the power requests of a device.
use windows_10_js.Prelude.{
  ℕ, zero, suc, ◌≡◌, ◌∙◌, refl, sym, ap, true, Option, some, List, [], ◌∷◌, ◌++◌, length, arith,
  ◌==◌,
}
use windows_10_js.Prelude.Assoc.{insert, lookup-insert}
use windows_10_js.Po.{Power, waiting, queue_power_request, shift_request}

pub queue_all : ℕ → List ℕ → Power → Power
queue_all device [] p = p
queue_all device (irp ∷ irps) p = queue_all device irps (queue_power_request device irp p).1

pub shift_all : ℕ → ℕ → Power → List (Option ℕ)
shift_all device zero p = []
shift_all device (suc n) p =
    let first = shift_request device p in first.0 ∷ shift_all device n first.1

pub somes : List ℕ → List (Option ℕ)
somes [] = []
somes (x ∷ xs) = some x ∷ somes xs

waiting-insert :
    (device : ℕ) (irps : List ℕ) (p : Power)
    → waiting device (record p { pending = insert device irps p.pending }) ≡ irps
unfolding waiting
waiting-insert device irps p =
    let same : (device == device) ≡ true = ground arith in
    rw (lookup-insert device irps p.pending device, waiting, same) refl

append_assoc : (xs ys zs : List ℕ) → (xs ++ ys) ++ zs ≡ xs ++ (ys ++ zs)
append_assoc [] ys zs = refl
append_assoc (x ∷ xs) ys zs = ap (λ l. x ∷ l) (append_assoc xs ys zs)

append_nil : (xs : List ℕ) → xs ++ [] ≡ xs
append_nil [] = refl
append_nil (x ∷ xs) = ap (λ l. x ∷ l) (append_nil xs)

waiting-queue_all :
    (device : ℕ) (irps : List ℕ) (p : Power)
    → waiting device (queue_all device irps p) ≡ waiting device p ++ irps
unfolding queue_all queue_power_request
waiting-queue_all device [] p = sym (append_nil (waiting device p))
waiting-queue_all device (irp ∷ irps) p =
    let p' = (queue_power_request device irp p).1 in
    waiting-queue_all device irps p'
    ∙ ap (λ l. l ++ irps) (waiting-insert device (waiting device p ++ irp ∷ []) p)
    ∙ append_assoc (waiting device p) (irp ∷ []) irps

shift_all-waiting :
    (device : ℕ) (irps : List ℕ) (p : Power)
    → waiting device p ≡ irps
    → shift_all device (length irps) p ≡ somes irps
unfolding shift_all somes shift_request
shift_all-waiting device [] p h = refl
shift_all-waiting device (irp ∷ irps) p h =
    let rest =
      shift_all-waiting device irps (record p { pending = insert device irps p.pending })
        (waiting-insert device irps p) in
    let shifted : shift_request device p
        ≡ (some irp, record p { pending = insert device irps p.pending }) =
      rw (h, shift_request) refl in
    rw (shifted, shift_all) (ap (λ l. some irp ∷ l) rest)

-- Power IRPs that are queued on a device that has none waiting are taken off it in the order in
-- which they were queued, each once.
pub queue_all-shift_all :
    (device : ℕ) (irps : List ℕ) (p : Power)
    → waiting device p ≡ []
    → shift_all device (length irps) (queue_all device irps p) ≡ somes irps
queue_all-shift_all device irps p h =
    shift_all-waiting device irps (queue_all device irps p)
      (waiting-queue_all device irps p ∙ ap (λ l. l ++ irps) h)
