-- ===== src/Ob/Requests/Walks.antt =====
-- system32/ntos/ob/object-manager.js: `resolve` finds objects of the store.
use mathlib.Core.Option.{some-injective}
use windows_10_js.Prelude.{
  ℕ, zero, suc, ◌<◌, ◌≡◌, subst, inl, inr, Option, none, some, List, [], ◌∷◌, ◌++◌, Bool-cases,
  Option-cases, arith,
}
use windows_10_js.Prelude.TextMap.{Text, get, same}
use windows_10_js.Cm.Keys.{backslash}
use windows_10_js.Ob.Namespace.{
  ObjectManager, Found, root, walk, resolve_within, split, behind, join, target_of,
  symbolic_link_type,
}
use windows_10_js.Ob.Requests.Counts.{IsBelow, IsCounted}

-- An object that is found is an object of the store.
unfoldable pub IsInside : ℕ → Option ℕ → Type 0
IsInside next_node at = (id : ℕ) → at ≡ some id → id < next_node

none-IsInside : (next_node : ℕ) → IsInside next_node none
unfolding IsInside
none-IsInside next_node id at = grind (arith, at)

pub some-IsInside : (next_node id : ℕ) → id < next_node → IsInside next_node (some id)
unfolding IsInside
some-IsInside next_node id inside other at =
    subst (λ i. i < next_node) (some-injective id other at) inside

module _ (lower : Text → Text) (shown : ℕ → Text) where
  walk-IsInside :
      (follow : Text → Found) (s : ObjectManager) (id : ℕ) (parts : List Text)
      → ((path : Text) → IsInside s.next_node (follow path).node)
      → id < s.next_node
      → IsCounted s
      → IsInside s.next_node (walk lower shown follow s.nodes id parts).node
  unfolding walk IsBelow
  walk-IsInside follow s id [] below inside c = elim (Option-cases (s.nodes id).mount) [
    | inl free ↦ rw (free, walk) (some-IsInside s.next_node id inside)
    | inr (system, held) ↦ rw (held, walk) (some-IsInside s.next_node id inside)
  ]
  walk-IsInside follow s id (part ∷ parts) below inside c = elim (Option-cases (s.nodes id).mount) [
    | inr (system, held) ↦ rw (held, walk) (some-IsInside s.next_node id inside)
    | inl free ↦ elim (Option-cases (s.nodes id).children) [
      | inl childless ↦ rw (free, childless, walk) (none-IsInside s.next_node)
      | inr (children, those) ↦ elim (Option-cases (get (lower part) children)) [
        | inl unknown ↦ rw (free, those, unknown, walk) (none-IsInside s.next_node)
        | inr (next, there) ↦ elim (Bool-cases (same (s.nodes next).type symbolic_link_type)) [
          | inl link ↦
              rw (free, those, there, link, walk)
                (below (target_of shown (s.nodes next).data_of ++ behind (join backslash parts)))
          | inr plain ↦
              rw (free, those, there, plain, walk)
                (walk-IsInside follow s next parts below
                  (c.closed id children (lower part) next those there) c)
        ]
      ]
    ]
  ]

  pub resolve_within-IsInside :
      (links : ℕ) (s : ObjectManager) (path : Text)
      → IsCounted s
      → IsInside s.next_node (resolve_within lower shown links s.nodes path).node
  unfolding resolve_within
  resolve_within-IsInside zero s path c = none-IsInside s.next_node
  resolve_within-IsInside (suc links) s path c =
      walk-IsInside (resolve_within lower shown links s.nodes) s root (split path)
        (λ p. resolve_within-IsInside links s p c) c.rooted c
