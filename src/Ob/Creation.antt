-- ===== src/Ob/Creation.antt =====
-- system32/ntos/ob/object-manager.js: a created object is found by its path.
use mathlib.Core.Option.{some-injective}
use windows_10_js.Prelude.{
  ℕ, zero, suc, ◌<◌, ◌≡◌, refl, sym, ap, subst, ◌∙◌, inl, inr, true, false, Option, none, some,
  List, [], ◌∷◌, ◌++◌, ◌==◌, Bool-cases, Option-cases, arith,
}
use windows_10_js.Prelude.TextMap.{Text, get, put, get-put, same, same-eq, same_refl}
use windows_10_js.Cm.Keys.{backslash}
use windows_10_js.Ob.Namespace.{
  Node, ObjectManager, Payload, change, root, walk, resolve_within, split, symbolic_link_type,
  lookup,
}
use windows_10_js.Ob.Objects.{
  created, no_directory, already_there, add_node, set_children, add_child, create_in, create_object,
  new_object,
}
use windows_10_js.Ob.Paths.{split-IsFull, split-append}
use windows_10_js.Ob.Walks.{IsGrown, IsUnder, walk-longer}
use windows_10_js.Ob.Requests.Walks.{resolve_within-IsInside, IsInside}
use windows_10_js.Ob.Requests.Counts.{IsCounted}

module _ (lower : Text → Text) (shown : ℕ → Text) (s : ObjectManager) (parent id : ℕ)
    (nodes' : ℕ → Node) (c : ℕ) (name : Text) where
  resolve_within-longer :
      (links : ℕ) (path : Text)
      → split (c ∷ name) ≡ (c ∷ name) ∷ []
      → IsCounted s
      → IsGrown s.next_node s.nodes nodes'
      → IsUnder lower shown s parent id nodes' c name
      → (s.nodes parent).mount ≡ none
      → (resolve_within lower shown links s.nodes path).node ≡ some parent
      → (resolve_within lower shown links nodes' (path ++ backslash ∷ c ∷ name)).node ≡ some id
  unfolding resolve_within
  resolve_within-longer zero path whole counted g under free reached =
      absurd (grind (arith, reached))
  resolve_within-longer (suc links) path whole counted g under free reached =
      let parts : split (path ++ backslash ∷ c ∷ name) ≡ split path ++ (c ∷ name) ∷ [] =
        split-append path (c ∷ name) ∙ ap (λ last. split path ++ last) whole in
      let follow' = resolve_within lower shown links nodes' in
      ap (λ ps. (walk lower shown follow' nodes' root ps).node) parts
      ∙ walk-longer lower shown s parent id nodes' c name (resolve_within lower shown links s.nodes)
          follow' root (split path)
          (λ p below. resolve_within-longer links p whole counted g under free below) counted g
          under free counted.rooted (split-IsFull path) reached

change_hit :
    (id : ℕ) (f : Node → Node) (nodes : ℕ → Node) (asked : ℕ)
    → (id == asked) ≡ true
    → change id f nodes asked ≡ f (nodes asked)
unfolding change
change_hit id f nodes asked hit = rw hit refl

change_other :
    (id : ℕ) (f : Node → Node) (nodes : ℕ → Node) (asked : ℕ)
    → (id == asked) ≡ false
    → change id f nodes asked ≡ nodes asked
unfolding change
change_other id f nodes asked miss = rw miss refl

-- The nodes after `children.set`.
module _ (parent : ℕ) (children : List (Text × ℕ)) (key : Text) (n : Node) (s : ObjectManager) where
  module _ (inside : parent < s.next_node) where
    add_child-new : ((add_child parent children key n s).nodes s.next_node) ≡ n
    unfolding add_child add_node set_children
    add_child-new =
        let other : (parent == s.next_node) ≡ false = ground (arith, inside) in
        change_other parent (λ m. record m { children = some (put key s.next_node children) })
          (change s.next_node (λ _. n) s.nodes) s.next_node other
        ∙ change_hit s.next_node (λ _. n) s.nodes s.next_node (ground arith)

    add_child-parent :
        ((add_child parent children key n s).nodes parent).children
        ≡ some (put key s.next_node children)
    unfolding add_child add_node set_children
    add_child-parent =
        ap (λ m. m.children)
          (change_hit parent (λ m. record m { children = some (put key s.next_node children) })
            (change s.next_node (λ _. n) s.nodes) parent (ground arith))

  add_child-kept {ℓ} :
      {A : Type ℓ} (of : Node → A) (at : ℕ)
      → at < s.next_node
      → ((parent == at) ≡ true
          → (m : Node) → of (record m { children = some (put key s.next_node children) }) ≡ of m)
      → of ((add_child parent children key n s).nodes at) ≡ of (s.nodes at)
  unfolding add_child add_node set_children
  add_child-kept of at inside keeps =
      let old : (s.next_node == at) ≡ false = ground (arith, inside) in
      let before = change_other s.next_node (λ _. n) s.nodes at old in
      elim (Bool-cases (parent == at)) [
        | inl hit ↦
            ap of (
              change_hit parent (λ m. record m { children = some (put key s.next_node children) })
                (change s.next_node (λ _. n) s.nodes) at hit)
            ∙ keeps hit (change s.next_node (λ _. n) s.nodes at)
            ∙ ap of before
        | inr miss ↦ ap of (
            change_other parent (λ m. record m { children = some (put key s.next_node children) })
              (change s.next_node (λ _. n) s.nodes) at miss
            ∙ before)
      ]

  add_child-IsGrown :
      (s.nodes parent).children ≡ some children
      → get key children ≡ none
      → IsGrown s.next_node s.nodes (add_child parent children key n s).nodes
  add_child-IsGrown those unknown = record {
    mounts = λ at inside. add_child-kept (λ m. m.mount) at inside (λ _ m. refl);
    types = λ at inside. add_child-kept (λ m. m.type) at inside (λ _ m. refl);
    payloads = λ at inside. add_child-kept (λ m. m.data_of) at inside (λ _ m. refl);
    grown = λ at theirs asked next inside are there. elim (Bool-cases (parent == at)) [
      | inr miss ↦
          let kept =
            add_child-kept (λ m. m.children) at inside (λ hit. absurd (grind (arith, hit, miss))) in
          (theirs, kept ∙ are, there)
      | inl hit ↦
          let here : parent ≡ at = ground arith in
          let inside' : parent < s.next_node = omega (arith, here, inside) in
          let children' =
            ap (λ a. ((add_child parent children key n s).nodes a).children) (sym here)
            ∙ add_child-parent inside' in
          let ours : theirs ≡ children =
            some-injective theirs children
              (sym are ∙ ap (λ a. (s.nodes a).children) (sym here) ∙ those) in
          let there' = subst (λ cs. get asked cs ≡ some next) ours there in
          (
            put key s.next_node children,
            children',
            elim (Bool-cases (same key asked)) [
              | inl found ↦
                  let lost = ap (λ k. get k children) (sym (same-eq key asked found)) ∙ unknown in
                  absurd (grind (arith, lost, there'))
              | inr other ↦ get-put key s.next_node children asked ∙ rw other there'
            ],
          )
    ];
  }

module _ (lower : Text → Text) (shown : ℕ → Text) where
  create_in-created :
      (parent : ℕ) (name type : Text) (payload : Payload) (s : ObjectManager) (id : ℕ)
      → (create_in lower (some parent) name type payload s).0 ≡ created id
      → (children : List (Text × ℕ)) × ((s.nodes parent).children ≡ some children)
        × (get (lower name) children ≡ none)
        × (s.next_node ≡ id)
        × ((create_in lower (some parent) name type payload s).1
            ≡ add_child parent children (lower name) (new_object name type payload) s)
  unfolding create_in
  create_in-created parent name type payload s id made =
      elim (Option-cases (s.nodes parent).children) [
        | inl childless ↦
            let refused : (create_in lower (some parent) name type payload s).0 ≡ no_directory =
              rw (childless, create_in) refl in
            absurd (grind (arith, refused, made))
        | inr (children, those) ↦ elim (Option-cases (get (lower name) children)) [
          | inr (other, there) ↦
              let refused : (create_in lower (some parent) name type payload s).0 ≡ already_there =
                rw (those, there, create_in) refl in
              absurd (grind (arith, refused, made))
          | inl unknown ↦
              let new : (create_in lower (some parent) name type payload s).0
                  ≡ created s.next_node =
                rw (those, unknown, create_in) refl in
              let here : s.next_node ≡ id = grind (arith, new, made) in
              (children, those, unknown, here, rw (those, unknown, create_in) refl)
        ]
      ]

  -- An object that `createObject` makes under a parent path, which may lead through symbolic links,
  -- is what the parent's path with a backslash and the name behind it leads to afterwards, if the
  -- name is one part of a path, the type is not that of a link and no file system is mounted on the
  -- parent.
  pub create_object-lookup :
      (parent_path : Text) (c : ℕ) (name type : Text) (payload : Payload) (s : ObjectManager)
      (parent id : ℕ)
      → IsCounted s
      → split (c ∷ name) ≡ (c ∷ name) ∷ []
      → same type symbolic_link_type ≡ false
      → lookup lower shown parent_path s ≡ some parent
      → (s.nodes parent).mount ≡ none
      → (create_object lower shown parent_path (c ∷ name) type payload s).0 ≡ created id
      → lookup lower shown
          (parent_path ++ backslash ∷ c ∷ name)
          (create_object lower shown parent_path (c ∷ name) type payload s).1
        ≡ some id
  unfolding create_object IsUnder IsInside
  create_object-lookup parent_path c name type payload s parent id counted whole plain found free
        made =
      let inside : parent < s.next_node =
        resolve_within-IsInside lower shown 9 s parent_path counted parent found in
      let at = λ (o : Option ℕ). create_in lower o (c ∷ name) type payload s in
      let (children, those, unknown, new, after) =
        create_in-created parent (c ∷ name) type payload s id
          (sym (ap (λ o. (at o).0) found) ∙ made) in
      let object = new_object (c ∷ name) type payload in
      let s' = add_child parent children (lower (c ∷ name)) object s in
      let object' : s'.nodes id ≡ object =
        ap s'.nodes (sym new) ∙ add_child-new parent children (lower (c ∷ name)) object s inside in
      let grown = add_child-IsGrown parent children (lower (c ∷ name)) object s those unknown in
      let self = same_refl (lower (c ∷ name)) in
      let last : get (lower (c ∷ name)) (put (lower (c ∷ name)) s.next_node children) ≡ some id =
        get-put (lower (c ∷ name)) s.next_node children (lower (c ∷ name))
        ∙ rw self (ap some new) in
      ap (λ t. lookup lower shown (parent_path ++ backslash ∷ c ∷ name) t)
        (ap (λ o. (at o).1) found ∙ after)
      ∙ resolve_within-longer lower shown s parent id s'.nodes c name 9 parent_path whole counted
          grown
          (
            put (lower (c ∷ name)) s.next_node children,
            add_child-parent parent children (lower (c ∷ name)) object s inside,
            last,
            ap (λ m. same m.type symbolic_link_type) object' ∙ plain,
            ap (λ m. m.mount) object',
          )
          free found
