-- ===== src/Ob/Paths.antt =====
-- system32/ntos/ob/object-manager.js: paths that are put together.
use windows_10_js.Prelude.{
  ℕ, ◌≡◌, refl, sym, ap, ◌∙◌, inl, inr, List, [], ◌∷◌, ◌++◌, ◌==◌, Bool-cases,
}
use windows_10_js.Prelude.TextMap.{Text}
use windows_10_js.Cm.Keys.{pieces, nonempty, backslash}
use windows_10_js.Ob.Namespace.{split, join, behind}

-- No part is empty.
unfoldable pub IsFull : List Text → Type 0
IsFull [] = Unit
IsFull ([] ∷ parts) = ⊥
IsFull ((c ∷ part) ∷ parts) = IsFull parts

pub IsFull-tail : (part : Text) (parts : List Text) → IsFull (part ∷ parts) → IsFull parts
unfolding IsFull
IsFull-tail [] parts full = absurd full
IsFull-tail (c ∷ part) parts full = full

nonempty-IsFull : (parts : List Text) → IsFull (nonempty parts)
unfolding IsFull nonempty
nonempty-IsFull [] = _
nonempty-IsFull ([] ∷ parts) = nonempty-IsFull parts
nonempty-IsFull ((c ∷ part) ∷ parts) = nonempty-IsFull parts

pub split-IsFull : (path : Text) → IsFull (split path)
unfolding split
split-IsFull path = nonempty-IsFull ((pieces path).0 ∷ (pieces path).1)

nonempty-append :
    (parts others : List Text) → nonempty (parts ++ others) ≡ nonempty parts ++ nonempty others
unfolding nonempty
nonempty-append [] others = refl
nonempty-append ([] ∷ parts) others = nonempty-append parts others
nonempty-append ((c ∷ part) ∷ parts) others =
    ap (λ rest. (c ∷ part) ∷ rest) (nonempty-append parts others)

pieces-append :
    (a b : Text)
    → pieces (a ++ backslash ∷ b) ≡ ((pieces a).0, (pieces a).1 ++ (pieces b).0 ∷ (pieces b).1)
unfolding pieces
pieces-append [] b = refl
pieces-append (c ∷ a) b = elim (Bool-cases (c == backslash)) [
  | inl hit ↦ rw (hit, pieces-append a b) refl
  | inr miss ↦ rw (miss, pieces-append a b) refl
]

pub split-append : (a b : Text) → split (a ++ backslash ∷ b) ≡ split a ++ split b
unfolding split
split-append a b =
    ap (λ p. nonempty (p.0 ∷ p.1)) (pieces-append a b)
    ∙ nonempty-append ((pieces a).0 ∷ (pieces a).1) ((pieces b).0 ∷ (pieces b).1)

append_nil : (a : Text) → a ++ [] ≡ a
append_nil [] = refl
append_nil (c ∷ a) = ap (λ rest. c ∷ rest) (append_nil a)

append_assoc : (a b d : Text) → (a ++ b) ++ d ≡ a ++ (b ++ d)
append_assoc [] b d = refl
append_assoc (c ∷ a) b d = ap (λ rest. c ∷ rest) (append_assoc a b d)

join-append :
    (part : Text) (parts : List Text) (name : Text)
    → join backslash ((part ∷ parts) ++ name ∷ [])
      ≡ join backslash (part ∷ parts) ++ backslash ∷ name
unfolding join
join-append part [] name = refl
join-append part (other ∷ parts) name =
    ap (λ rest. part ++ backslash ∷ rest) (join-append other parts name)
    ∙ sym (append_assoc part (backslash ∷ join backslash (other ∷ parts)) (backslash ∷ name))

-- The rest of a path behind a link, with one more part.
pub behind-join :
    (target : Text) (parts : List Text) (c : ℕ) (name : Text)
    → IsFull parts
    → target ++ behind (join backslash (parts ++ (c ∷ name) ∷ []))
      ≡ (target ++ behind (join backslash parts)) ++ backslash ∷ c ∷ name
unfolding IsFull behind join
behind-join target [] c name full = ap (λ t. t ++ backslash ∷ c ∷ name) (sym (append_nil target))
behind-join target ([] ∷ parts) c name full = absurd full
behind-join target ((d ∷ part) ∷ []) c name full =
    sym (append_assoc target (backslash ∷ d ∷ part) (backslash ∷ c ∷ name))
behind-join target ((d ∷ part) ∷ other ∷ parts) c name full =
    ap (λ rest. target ++ behind rest) (join-append (d ∷ part) (other ∷ parts) (c ∷ name))
    ∙ sym (
        append_assoc target (behind (join backslash ((d ∷ part) ∷ other ∷ parts)))
          (backslash ∷ c ∷ name))
