-- ===== src/Cm/Keys/Presence.antt =====
-- Which paths lead to a key.
use windows_10_js.Prelude.{
  ◌≡◌, refl, sym, ap, ◌∙◌, Bool, true, false, ◌||◌, Option, none, some, List, [], ◌∷◌, inl, inr,
  if◌then◌else◌, Bool-cases, Option-cases,
}
use windows_10_js.Prelude.TextMap.{Text, same, same-eq, same_comm, get, put, get-put}
use windows_10_js.Cm.Keys.{
  Key, listed, children_of, with_children, new_key_node, is_some, or_else, walk, create,
}
use windows_10_js.Cm.Keys.Walks.{children_of-with_children, after}

or_false : (b : Bool) → b ≡ (b || false)
or_false true = refl
or_false false = refl

module _ (lower : Text → Text) where
  -- Whether a path leads to a key.
  unfoldable pub has_key : List Text → Key → Bool
  has_key qs key = is_some (walk lower qs key)

  has_key-child :
      (q : Text) (qs : List Text) (key : Key) (below : Option Key)
      → get (lower q) (children_of key) ≡ below
      → has_key (q ∷ qs) key ≡ elim below [ none ↦ false | some found ↦ has_key qs found ]
  unfolding has_key walk
  has_key-child q qs key none h = rw h refl
  has_key-child q qs key (some found) h = rw h refl

  has_key-put :
      (p : Text) (below key : Key) (q : Text) (qs : List Text)
      → has_key (q ∷ qs) (with_children (put (lower p) below (children_of key)) key)
        ≡ (if same (lower p) (lower q) then has_key qs below else has_key (q ∷ qs) key)
  has_key-put p below key q qs =
      let entries = put (lower p) below (children_of key) in
      let found =
        ap (get (lower q)) (children_of-with_children entries key)
        ∙ get-put (lower p) below (children_of key) (lower q) in
      let old = has_key-child q qs key (get (lower q) (children_of key)) refl in
      elim (Bool-cases (same (lower p) (lower q))) [
        | inl hit ↦
            rw hit
              (has_key-child q qs (with_children entries key) (some below) (found ∙ rw hit refl))
        | inr miss ↦ rw miss (
            has_key-child q qs (with_children entries key) (get (lower q) (children_of key))
              (found ∙ rw miss refl)
            ∙ sym old)
      ]

  begun :
      (qs ps : List Text) (part : Text)
      → (has_key qs (new_key_node part) || is_some (after lower qs ps))
        ≡ is_some (after lower qs ps)
  unfolding has_key walk new_key_node children_of listed get after
  begun [] ps part = refl
  begun (q ∷ qs) ps part = refl

  -- The keys are the old ones and those on the path that was made.
  pub has_key-create :
      (ps : List Text) (key : Key) (qs : List Text)
      → has_key qs (create lower ps key) ≡ (has_key qs key || is_some (after lower qs ps))
  unfolding create after
  has_key-create [] key [] = unfold has_key in unfold walk in refl
  has_key-create [] key (q ∷ qs) = or_false (has_key (q ∷ qs) key)
  has_key-create (p ∷ ps) key [] = unfold has_key in unfold walk in refl
  has_key-create (p ∷ ps) key (q ∷ qs) =
      let below = or_else (new_key_node p) (get (lower p) (children_of key)) in
      has_key-put p (create lower ps below) key q qs
      ∙ elim (Bool-cases (same (lower p) (lower q))) [
        | inl hit ↦
            rw (hit, same_comm (lower q) (lower p))
              (rw hit (has_key-create ps below qs ∙ passed hit))
        | inr miss ↦
            rw (miss, same_comm (lower q) (lower p)) (rw miss (or_false (has_key (q ∷ qs) key)))
      ]
    where
      passed :
          same (lower p) (lower q) ≡ true
          → (has_key qs (or_else (new_key_node p) (get (lower p) (children_of key)))
              || is_some (after lower qs ps))
            ≡ (has_key (q ∷ qs) key || is_some (after lower qs ps))
      passed hit =
          let part = same-eq (lower p) (lower q) hit in
          elim (Option-cases (get (lower p) (children_of key))) [
            | inl nothing ↦
                let gone =
                  has_key-child q qs key none
                    (ap (λ l. get l (children_of key)) (sym part) ∙ nothing) in
                rw (nothing, gone) (begun qs ps p)
            | inr (found, there) ↦
                let same_key =
                  has_key-child q qs key (some found)
                    (ap (λ l. get l (children_of key)) (sym part) ∙ there) in
                rw (there, same_key) refl
          ]
