-- ===== src/Ob/Walks.antt =====
-- system32/ntos/ob/object-manager.js: a walk to an object leads one part further to its new child.
use mathlib.Core.Option.{some-injective}
use windows_10_js.Prelude.{
  ℕ, ◌<◌, ◌≡◌, refl, sym, ap, ◌∙◌, inl, inr, true, false, none, some, List, [], ◌∷◌, ◌++◌,
  Bool-cases, Option-cases, arith,
}
use windows_10_js.Prelude.TextMap.{Text, get, same}
use windows_10_js.Cm.Keys.{backslash}
use windows_10_js.Ob.Namespace.{
  Node, ObjectManager, Found, walk, behind, join, target_of, symbolic_link_type,
}
use windows_10_js.Ob.Paths.{IsFull, IsFull-tail, behind-join}
use windows_10_js.Ob.Requests.Counts.{IsBelow, IsCounted}

-- Nothing but the children is changed in the objects that there were, and the children that there
-- were are still found.
pub record IsGrown (size : ℕ) (nodes nodes' : ℕ → Node) : Type 0 where
  pub mounts : (at : ℕ) → at < size → (nodes' at).mount ≡ (nodes at).mount
  pub types : (at : ℕ) → at < size → (nodes' at).type ≡ (nodes at).type
  pub payloads : (at : ℕ) → at < size → (nodes' at).data_of ≡ (nodes at).data_of
  pub grown :
      (at : ℕ) (children : List (Text × ℕ)) (key : Text) (next : ℕ)
      → at < size
      → (nodes at).children ≡ some children
      → get key children ≡ some next
      → (more : List (Text × ℕ)) × ((nodes' at).children ≡ some more) × (get key more ≡ some next)

module _ (lower : Text → Text) (shown : ℕ → Text) (follow : Text → Found) (nodes : ℕ → Node)
    (at : ℕ) where
  walk_end : (walk lower shown follow nodes at []).node ≡ some at
  unfolding walk
  walk_end = elim (Option-cases (nodes at).mount) [
    | inl free ↦ rw (free, walk) refl
    | inr (system, held) ↦ rw (held, walk) refl
  ]

  walk_mounted :
      (system : ℕ) (part : Text) (parts : List Text)
      → (nodes at).mount ≡ some system
      → (walk lower shown follow nodes at (part ∷ parts)).node ≡ some at
  unfolding walk
  walk_mounted system part parts held = rw (held, walk) refl

  walk_childless :
      (part : Text) (parts : List Text)
      → (nodes at).mount ≡ none
      → (nodes at).children ≡ none
      → (walk lower shown follow nodes at (part ∷ parts)).node ≡ none
  unfolding walk
  walk_childless part parts free childless = rw (free, childless, walk) refl

  walk_unknown :
      (part : Text) (parts : List Text) (children : List (Text × ℕ))
      → (nodes at).mount ≡ none
      → (nodes at).children ≡ some children
      → get (lower part) children ≡ none
      → (walk lower shown follow nodes at (part ∷ parts)).node ≡ none
  unfolding walk
  walk_unknown part parts children free those unknown = rw (free, those, unknown, walk) refl

  module _ (part : Text) (parts : List Text) (children : List (Text × ℕ)) (next : ℕ) where
    walk_link :
        (nodes at).mount ≡ none
        → (nodes at).children ≡ some children
        → get (lower part) children ≡ some next
        → same (nodes next).type symbolic_link_type ≡ true
        → walk lower shown follow nodes at (part ∷ parts)
          ≡ follow (target_of shown (nodes next).data_of ++ behind (join backslash parts))
    unfolding walk
    walk_link free those there link = rw (free, those, there, link, walk) refl

    walk_on :
        (nodes at).mount ≡ none
        → (nodes at).children ≡ some children
        → get (lower part) children ≡ some next
        → same (nodes next).type symbolic_link_type ≡ false
        → walk lower shown follow nodes at (part ∷ parts) ≡ walk lower shown follow nodes next parts
    unfolding walk
    walk_on free those there plain = rw (free, those, there, plain, walk) refl

module _ (lower : Text → Text) (shown : ℕ → Text) (s : ObjectManager) (parent id : ℕ)
    (nodes' : ℕ → Node) (c : ℕ) (name : Text) where
  -- The last step of the walk.
  unfoldable pub IsUnder : Type 0
  IsUnder =
      (more : List (Text × ℕ)) × ((nodes' parent).children ≡ some more)
      × (get (lower (c ∷ name)) more ≡ some id)
      × (same (nodes' id).type symbolic_link_type ≡ false)
      × ((nodes' id).mount ≡ none)

  step-longer :
      (follow follow' : Text → Found) (at : ℕ) (part : Text) (parts : List Text)
      (children : List (Text × ℕ)) (next : ℕ)
      → ((path : Text)
          → (follow path).node ≡ some parent
          → (follow' (path ++ backslash ∷ c ∷ name)).node ≡ some id)
      → (next < s.next_node
          → (walk lower shown follow s.nodes next parts).node ≡ some parent
          → (walk lower shown follow' nodes' next (parts ++ (c ∷ name) ∷ [])).node ≡ some id)
      → IsCounted s
      → IsGrown s.next_node s.nodes nodes'
      → at < s.next_node
      → IsFull parts
      → (s.nodes at).mount ≡ none
      → (s.nodes at).children ≡ some children
      → get (lower part) children ≡ some next
      → (walk lower shown follow s.nodes at (part ∷ parts)).node ≡ some parent
      → (walk lower shown follow' nodes' at (part ∷ (parts ++ (c ∷ name) ∷ []))).node ≡ some id
  unfolding IsBelow
  step-longer follow follow' at part parts children next longer rest counted g inside full unheld
        those there reached =
      let inside' = counted.closed at children (lower part) next those there in
      let (more, those', there') = g.grown at children (lower part) next inside those there in
      let unheld' = g.mounts at inside ∙ unheld in
      let type' = ap (λ t. same t symbolic_link_type) (g.types next inside') in
      elim (Bool-cases (same (s.nodes next).type symbolic_link_type)) [
        | inl link ↦
            let step =
              walk_link lower shown follow s.nodes at part parts children next unheld those there
                link in
            let step' =
              walk_link lower shown follow' nodes' at part (parts ++ (c ∷ name) ∷ []) more next
                unheld' those' there' (type' ∙ link) in
            let below =
              longer (target_of shown (s.nodes next).data_of ++ behind (join backslash parts))
                (sym (ap (λ f. f.node) step) ∙ reached) in
            ap (λ f. f.node) step'
            ∙ ap
                (λ d.
                  (follow'
                    (target_of shown d ++ behind (join backslash (parts ++ (c ∷ name) ∷ [])))).node)
                (g.payloads next inside')
            ∙ ap (λ p. (follow' p).node)
                (behind-join (target_of shown (s.nodes next).data_of) parts c name full)
            ∙ below
        | inr plain ↦
            let step =
              walk_on lower shown follow s.nodes at part parts children next unheld those there
                plain in
            let step' =
              walk_on lower shown follow' nodes' at part (parts ++ (c ∷ name) ∷ []) more next
                unheld' those' there' (type' ∙ plain) in
            ap (λ f. f.node) step' ∙ rest inside' (sym (ap (λ f. f.node) step) ∙ reached)
      ]

  pub walk-longer :
      (follow follow' : Text → Found) (at : ℕ) (parts : List Text)
      → ((path : Text)
          → (follow path).node ≡ some parent
          → (follow' (path ++ backslash ∷ c ∷ name)).node ≡ some id)
      → IsCounted s
      → IsGrown s.next_node s.nodes nodes'
      → IsUnder
      → (s.nodes parent).mount ≡ none
      → at < s.next_node
      → IsFull parts
      → (walk lower shown follow s.nodes at parts).node ≡ some parent
      → (walk lower shown follow' nodes' at (parts ++ (c ∷ name) ∷ [])).node ≡ some id
  unfolding IsUnder
  walk-longer follow follow' at [] longer counted g under free inside full reached =
      let here : at ≡ parent =
        some-injective at parent (sym (walk_end lower shown follow s.nodes at) ∙ reached) in
      let (more, those, there, plain, unmounted) = under in
      let free' = g.mounts at inside ∙ ap (λ a. (s.nodes a).mount) here ∙ free in
      let those' = ap (λ a. (nodes' a).children) here ∙ those in
      ap (λ f. f.node)
        (walk_on lower shown follow' nodes' at (c ∷ name) [] more id free' those' there plain)
      ∙ walk_end lower shown follow' nodes' id
  walk-longer follow follow' at (part ∷ parts) longer counted g under free inside full reached =
      elim (Option-cases (s.nodes at).mount) [
        | inr (system, held) ↦
            let here : at ≡ parent =
              some-injective at parent (
                sym (walk_mounted lower shown follow s.nodes at system part parts held)
                ∙ reached) in
            let held' = sym (ap (λ a. (s.nodes a).mount) here) ∙ held in
            absurd (grind (arith, held', free))
        | inl unheld ↦ elim (Option-cases (s.nodes at).children) [
          | inl childless ↦
              let lost = walk_childless lower shown follow s.nodes at part parts unheld childless in
              absurd (grind (arith, lost, reached))
          | inr (children, those) ↦ elim (Option-cases (get (lower part) children)) [
            | inl unknown ↦
                let lost =
                  walk_unknown lower shown follow s.nodes at part parts children unheld those
                    unknown in
                absurd (grind (arith, lost, reached))
            | inr (next, there) ↦
                step-longer follow follow' at part parts children next longer
                  (λ inside'.
                    walk-longer follow follow' next parts longer counted g under free inside'
                      (IsFull-tail part parts full))
                  counted g inside (IsFull-tail part parts full) unheld those there reached
          ]
        ]
      ]
