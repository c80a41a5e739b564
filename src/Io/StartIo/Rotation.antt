-- ===== src/Io/StartIo/Rotation.antt =====
-- A ring, seen from one of its entries.
use windows_10_js.Prelude.{ℕ, ◌≡◌, refl, ap, List, [], ◌∷◌, ◌++◌, arith}
use windows_10_js.Hal.Memory.{Memory}
use windows_10_js.Win32.Rtl.Interlocked.Ring.{Linked, IsRing, AllApart, AreApart}

pub append_nil : (xs : List ℕ) → xs ++ [] ≡ xs
append_nil [] = refl
append_nil (x ∷ xs) = ap (λ rest. x ∷ rest) (append_nil xs)

pub append_assoc : (xs ys zs : List ℕ) → (xs ++ ys) ++ zs ≡ xs ++ (ys ++ zs)
append_assoc [] ys zs = refl
append_assoc (x ∷ xs) ys zs = ap (λ rest. x ∷ rest) (append_assoc xs ys zs)

Linked-append :
    (m : Memory) (p : ℕ) (xs : List ℕ) (x : ℕ) (ys : List ℕ) (q : ℕ)
    → Linked m p xs x
    → Linked m x ys q
    → Linked m p (xs ++ x ∷ ys) q
unfolding Linked
Linked-append m p [] x ys q (next, prev) rest = (next, prev, rest)
Linked-append m p (y ∷ xs) x ys q (next, prev, before) rest =
    (next, prev, Linked-append m y xs x ys q before rest)

Linked-before :
    (m : Memory) (p : ℕ) (xs : List ℕ) (x : ℕ) (ys : List ℕ) (q : ℕ)
    → Linked m p (xs ++ x ∷ ys) q
    → Linked m p xs x
unfolding Linked
Linked-before m p [] x ys q (next, prev, rest) = (next, prev)
Linked-before m p (y ∷ xs) x ys q (next, prev, rest) =
    (next, prev, Linked-before m y xs x ys q rest)

Linked-behind :
    (m : Memory) (p : ℕ) (xs : List ℕ) (x : ℕ) (ys : List ℕ) (q : ℕ)
    → Linked m p (xs ++ x ∷ ys) q
    → Linked m x ys q
unfolding Linked
Linked-behind m p [] x ys q (next, prev, rest) = rest
Linked-behind m p (y ∷ xs) x ys q (next, prev, rest) = Linked-behind m y xs x ys q rest

-- The ring of `h` with the entries `xs`, `z` and `ys` is the ring of `z` with `ys`, `h` and `xs`.
pub IsRing-rotate :
    (m : Memory) (h z : ℕ) (xs ys : List ℕ) → IsRing m h (xs ++ z ∷ ys) → IsRing m z (ys ++ h ∷ xs)
IsRing-rotate m h z xs ys ring =
    Linked-append m z ys h xs z (Linked-behind m h xs z ys h ring)
      (Linked-before m h xs z ys h ring)

pub AllApart-append :
    (e : ℕ) (xs ys : List ℕ) → AllApart e xs → AllApart e ys → AllApart e (xs ++ ys)
AllApart-append e [] ys h k = k
AllApart-append e (x ∷ xs) ys (h, hs) k = (h, AllApart-append e xs ys hs k)

pub AllApart-left : (e : ℕ) (xs ys : List ℕ) → AllApart e (xs ++ ys) → AllApart e xs
AllApart-left e [] ys h = tt
AllApart-left e (x ∷ xs) ys (h, hs) = (h, AllApart-left e xs ys hs)

pub AllApart-right : (e : ℕ) (xs ys : List ℕ) → AllApart e (xs ++ ys) → AllApart e ys
AllApart-right e [] ys h = h
AllApart-right e (x ∷ xs) ys (h, hs) = AllApart-right e xs ys hs

-- Each of the ones is apart from each of the others.
unfoldable Across : List ℕ → List ℕ → Type 0
Across [] ys = Unit {0}
Across (x ∷ xs) ys = AllApart x ys × Across xs ys

AreApart-append : (xs ys : List ℕ) → AreApart xs → AreApart ys → Across xs ys → AreApart (xs ++ ys)
unfolding Across
AreApart-append [] ys h k c = k
AreApart-append (x ∷ xs) ys (h, hs) k (c, cs) =
    (AllApart-append x xs ys h c, AreApart-append xs ys hs k cs)

AreApart-left : (xs ys : List ℕ) → AreApart (xs ++ ys) → AreApart xs
AreApart-left [] ys h = tt
AreApart-left (x ∷ xs) ys (h, hs) = (AllApart-left x xs ys h, AreApart-left xs ys hs)

AreApart-right : (xs ys : List ℕ) → AreApart (xs ++ ys) → AreApart ys
AreApart-right [] ys h = h
AreApart-right (x ∷ xs) ys (h, hs) = AreApart-right xs ys hs

AreApart-Across : (xs ys : List ℕ) → AreApart (xs ++ ys) → Across xs ys
unfolding Across
AreApart-Across [] ys h = tt
AreApart-Across (x ∷ xs) ys (h, hs) = (AllApart-right x xs ys h, AreApart-Across xs ys hs)

Across-nothing : (ys : List ℕ) → Across ys []
unfolding Across
Across-nothing [] = tt
Across-nothing (y ∷ ys) = (tt, Across-nothing ys)

Across-cons :
    (ys : List ℕ) (x : ℕ) (xs : List ℕ) → AllApart x ys → Across ys xs → Across ys (x ∷ xs)
unfolding Across
Across-cons [] x xs h c = tt
Across-cons (y ∷ ys) x xs (h, hs) (c, cs) = ((omega arith, c), Across-cons ys x xs hs cs)

Across-comm : (xs ys : List ℕ) → Across xs ys → Across ys xs
unfolding Across
Across-comm [] ys c = Across-nothing ys
Across-comm (x ∷ xs) ys (c, cs) = Across-cons ys x xs c (Across-comm xs ys cs)

pub AreApart-swap : (xs ys : List ℕ) → AreApart (xs ++ ys) → AreApart (ys ++ xs)
AreApart-swap xs ys h =
    AreApart-append ys xs (AreApart-right xs ys h) (AreApart-left xs ys h)
      (Across-comm xs ys (AreApart-Across xs ys h))
