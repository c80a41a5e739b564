-- ===== src/Ke/Dpc/Queue.antt =====
-- The queue of deferred procedure calls and the mark that each KDPC carries in DpcData.
use windows_10_js.Prelude.{
  ℕ, ◌+◌, ◌%◌, ◌≤◌, ◌≡◌, ◌≢◌, refl, ◌⊎◌, inl, inr, none, some, List, [], ◌∷◌, ◌++◌, arith,
}
use native.Mathlib.Decide.{ℕ_discrete}
use windows_10_js.Hal.Memory.{Memory, write32}
use windows_10_js.Hal.Memory.Cells.{Apart, read32-write32_outside}
use windows_10_js.Hal.Memory.Fields.{field_laws}
use windows_10_js.NtAbi.Kdpc
use windows_10_js.Ke.Machine.{Machine}
use windows_10_js.Ke.Dpc.{read_field, insert_queue_dpc, remove_queue_dpc, splice_first}

-- Taking off the entry that was just put at the end gives the queue back.
splice_first-append :
    (dpc : ℕ) (qs : List ℕ)
    → splice_first dpc qs ≡ none
    → splice_first dpc (qs ++ dpc ∷ []) ≡ some qs
unfolding splice_first
splice_first-append dpc [] h = ground arith
splice_first-append dpc (q ∷ qs) h = ground (arith, splice_first-append dpc qs)

-- The machine after a DPC was queued.
abbrev enqueued : ℕ → ℕ → ℕ → Machine → Machine
enqueued dpc arg1 arg2 m = record m {
  memory =
      write32 (write32 (write32 m.memory (dpc + Kdpc.sysarg1) arg1) (dpc + Kdpc.sysarg2) arg2)
        (dpc + Kdpc.dpc_data) 1;
  dpc_queue = m.dpc_queue ++ dpc ∷ [];
}

module _ (dpc arg1 arg2 : ℕ) (m : Machine) where
  insert-enqueued :
      read_field m.memory dpc Kdpc.dpc_data ≡ 0
      → insert_queue_dpc dpc arg1 arg2 m ≡ (1, enqueued dpc arg1 arg2 m)
  unfolding insert_queue_dpc
  insert-enqueued h = rw h

  insert-refused :
      read_field m.memory dpc Kdpc.dpc_data ≢ 0 → insert_queue_dpc dpc arg1 arg2 m ≡ (0, m)
  unfolding insert_queue_dpc
  insert-refused h = ground arith

remove-enqueued :
    (dpc arg1 arg2 : ℕ) (m : Machine)
    → splice_first dpc m.dpc_queue ≡ none
    → remove_queue_dpc dpc (enqueued dpc arg1 arg2 m) ≡ (
      1,
      record m {
        memory = write32 (enqueued dpc arg1 arg2 m).memory (dpc + Kdpc.dpc_data) 0;
        dpc_queue = m.dpc_queue;
      },
    )
unfolding remove_queue_dpc
remove-enqueued dpc arg1 arg2 m out = rw (splice_first-append dpc m.dpc_queue out, remove_queue_dpc)

one-ne-zero : {n : ℕ} → n ≡ 1 → n ≢ 0
one-ne-zero e = omega arith

-- A DPC that is neither marked nor queued goes to the end of the queue with its two arguments
-- stored and its mark set; queueing it again with whatever arguments is refused and changes
-- nothing; taking it off succeeds, and gives back the old queue and a cleared mark.
pub insert-remove :
    (dpc arg1 arg2 : ℕ) (m : Machine)
    → read_field m.memory dpc Kdpc.dpc_data ≡ 0
    → splice_first dpc m.dpc_queue ≡ none
    → let (answer, queued) = insert_queue_dpc dpc arg1 arg2 m in
      let (removed, after) = remove_queue_dpc dpc queued in
      (answer ≡ 1)
      × (queued.dpc_queue ≡ m.dpc_queue ++ dpc ∷ [])
      × (read_field queued.memory dpc Kdpc.sysarg1 ≡ arg1 % 0x1_0000_0000)
      × (read_field queued.memory dpc Kdpc.sysarg2 ≡ arg2 % 0x1_0000_0000)
      × ((a b : ℕ) → insert_queue_dpc dpc a b queued ≡ (0, queued))
      × (removed ≡ 1)
      × (after.dpc_queue ≡ m.dpc_queue)
      × (read_field after.memory dpc Kdpc.dpc_data ≡ 0)
insert-remove dpc arg1 arg2 m h out =
    rw (insert-enqueued dpc arg1 arg2 m h, remove-enqueued dpc arg1 arg2 m out)
      (
        refl,
        refl,
        simp field_laws,
        simp field_laws,
        λ a b. insert-refused dpc a b (enqueued dpc arg1 arg2 m) (one-ne-zero (simp field_laws)),
        refl,
        refl,
        simp field_laws,
      )

-- The DPC structures (0x40 bytes) of a list lie apart from `dpc`, and from one another.
abbrev pub ApartFrom : ℕ → List ℕ → Type 0
ApartFrom dpc [] = Unit {0}
ApartFrom dpc (q ∷ qs) = Apart dpc 0x40 q 0x40 × ApartFrom dpc qs

abbrev pub Spaced : List ℕ → Type 0
Spaced [] = Unit {0}
Spaced (q ∷ qs) = ApartFrom q qs × Spaced qs

abbrev pub AllMarked : Memory → List ℕ → Type 0
AllMarked mem [] = Unit {0}
AllMarked mem (q ∷ qs) = (read_field mem q Kdpc.dpc_data ≢ 0) × AllMarked mem qs

-- Every queued DPC is marked, and no two entries of the queue overlap: none is queued twice.
pub record IsQueue (m : Machine) : Type 0 where
  pub all_marked : AllMarked m.memory m.dpc_queue
  pub spaced : Spaced m.dpc_queue

AllMarked-write32 :
    (mem : Memory) (dpc i v : ℕ) (qs : List ℕ)
    → i + 4 ≤ 0x40
    → ApartFrom dpc qs
    → AllMarked mem qs
    → AllMarked (write32 mem (dpc + i) v) qs
AllMarked-write32 mem dpc i v [] h a k = tt
AllMarked-write32 mem dpc i v (q ∷ qs) h a k = (
  rw (read32-write32_outside mem (dpc + i) v (q + Kdpc.dpc_data) (omega arith)) k.0,
  AllMarked-write32 mem dpc i v qs h a.1 k.1,
)

AllMarked-append :
    (mem : Memory) (qs : List ℕ) (dpc : ℕ)
    → AllMarked mem qs
    → read_field mem dpc Kdpc.dpc_data ≢ 0
    → AllMarked mem (qs ++ dpc ∷ [])
AllMarked-append mem [] dpc k h = (h, tt)
AllMarked-append mem (q ∷ qs) dpc k h = (k.0, AllMarked-append mem qs dpc k.1 h)

ApartFrom-append :
    (q dpc : ℕ) (qs : List ℕ)
    → ApartFrom q qs
    → Apart q 0x40 dpc 0x40
    → ApartFrom q (qs ++ dpc ∷ [])
ApartFrom-append q dpc [] a h = (h, tt)
ApartFrom-append q dpc (x ∷ qs) a h = (a.0, ApartFrom-append q dpc qs a.1 h)

Spaced-append : (qs : List ℕ) (dpc : ℕ) → Spaced qs → ApartFrom dpc qs → Spaced (qs ++ dpc ∷ [])
Spaced-append [] dpc s a = (tt, tt)
Spaced-append (q ∷ qs) dpc s a =
    (ApartFrom-append q dpc qs s.0 (omega arith), Spaced-append qs dpc s.1 a.1)

enqueued-IsQueue :
    (dpc arg1 arg2 : ℕ) (m : Machine)
    → ApartFrom dpc m.dpc_queue
    → IsQueue m
    → IsQueue (enqueued dpc arg1 arg2 m)
enqueued-IsQueue dpc arg1 arg2 m a v = record {
  all_marked =
      AllMarked-append _ m.dpc_queue dpc
        (AllMarked-write32 _ dpc Kdpc.dpc_data 1 m.dpc_queue (omega arith) a (
          AllMarked-write32 _ dpc Kdpc.sysarg2 arg2 m.dpc_queue (omega arith) a
            (AllMarked-write32 _ dpc Kdpc.sysarg1 arg1 m.dpc_queue (omega arith) a v.all_marked)))
        (one-ne-zero (simp field_laws));
  spaced = Spaced-append m.dpc_queue dpc v.spaced a;
}

-- The queue stays without duplicates when a DPC is queued whose structure overlaps no queued one,
-- and when any DPC is queued whose mark is set.
pub insert-IsQueue :
    (dpc arg1 arg2 : ℕ) (m : Machine)
    → (read_field m.memory dpc Kdpc.dpc_data ≢ 0) ⊎ ApartFrom dpc m.dpc_queue
    → IsQueue m
    → IsQueue (insert_queue_dpc dpc arg1 arg2 m).1
insert-IsQueue dpc arg1 arg2 m (inl h) v = rw (insert-refused dpc arg1 arg2 m h) v
insert-IsQueue dpc arg1 arg2 m (inr a) v =
    elim (ℕ_discrete (read_field m.memory dpc Kdpc.dpc_data) 0) [
      | yes h ↦ rw (insert-enqueued dpc arg1 arg2 m h) (enqueued-IsQueue dpc arg1 arg2 m a v)
      | no h ↦ rw (insert-refused dpc arg1 arg2 m h) v
    ]
