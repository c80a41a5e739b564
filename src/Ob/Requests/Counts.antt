-- ===== src/Ob/Requests/Counts.antt =====
-- system32/ntos/ob/object-manager.js: an object's references are its handles.
use windows_10_js.Prelude.{
  ℕ, suc, ◌+◌, ◌-◌, ◌<◌, ◌≤◌, ◌≡◌, refl, sym, subst, ◌∙◌, inl, inr, true, false, Option, none, some,
  List, ◌==◌, if◌then◌else◌, Bool-cases, arith,
}
use mathlib.Core.Option.{some-injective}
use windows_10_js.Prelude.TextMap.{Text, get}
use windows_10_js.Prelude.Assoc.{lookup, insert, erase, lookup-insert, lookup-erase}
use windows_10_js.Ob.Namespace.{Node, ObjectManager, change}
use windows_10_js.Ob.Objects.{add_node, set_children, mount_at}
use windows_10_js.Ob.Handles.{new_handle, close_object}
use windows_10_js.Ob.Handles.Table.{
  handles_of, IsDistinct, handles_of-insert, insert-IsDistinct, handles_of-erase, erase-IsDistinct,
}

-- The children of an object are objects of the store.
unfoldable pub IsBelow : ℕ → Node → Type 0
IsBelow next_node n =
    (children : List (Text × ℕ)) (key : Text) (next : ℕ)
    → n.children ≡ some children
    → get key children ≡ some next
    → next < next_node

pub record IsCounted (s : ObjectManager) : Type 0 where
  pub rooted : 0 < s.next_node
  pub closed : (id : ℕ) → IsBelow s.next_node (s.nodes id)
  pub counted : (id : ℕ) → (s.nodes id).refs ≡ handles_of id s.handle_table
  pub stored : (id : ℕ) → s.next_node ≤ id → handles_of id s.handle_table ≡ 0
  pub distinct : IsDistinct s.handle_table
  pub fresh : (handle : ℕ) → s.next_handle ≤ handle → lookup handle s.handle_table ≡ none

-- What every change of a node keeps, the node is kept in.
pub change_kept {ℓ} :
    {A : Type ℓ} (of : Node → A) (id : ℕ) (f : Node → Node) (nodes : ℕ → Node) (asked : ℕ)
    → ((n : Node) → of (f n) ≡ of n)
    → of (change id f nodes asked) ≡ of (nodes asked)
unfolding change
change_kept of id f nodes asked keeps = elim (Bool-cases (id == asked)) [
  | inl hit ↦ rw hit (keeps (nodes asked))
  | inr miss ↦ rw miss refl
]

pub change_of :
    (P : Node → Type 0) (id : ℕ) (f : Node → Node) (nodes : ℕ → Node) (asked : ℕ)
    → ((id == asked) ≡ true → P (f (nodes asked)))
    → ((id == asked) ≡ false → P (nodes asked))
    → P (change id f nodes asked)
unfolding change
change_of P id f nodes asked at other = elim (Bool-cases (id == asked)) [
  | inl hit ↦ rw hit (at hit)
  | inr miss ↦ rw miss (other miss)
]

IsBelow-mono : (a b : ℕ) (n : Node) → a ≤ b → IsBelow a n → IsBelow b n
unfolding IsBelow
IsBelow-mono a b n le below children key next is at =
    let small = below children key next is at in omega arith

pub add_node-IsCounted :
    (n : Node) (s : ObjectManager)
    → n.refs ≡ 0
    → IsBelow (suc s.next_node) n
    → IsCounted s
    → IsCounted (add_node n s)
unfolding add_node
add_node-IsCounted n s unused below c = record {
  rooted = let r = c.rooted in omega arith;
  closed = λ id.
      change_of (IsBelow (suc s.next_node)) s.next_node (λ _. n) s.nodes id (λ _. below)
        (λ _. IsBelow-mono s.next_node (suc s.next_node) (s.nodes id) (omega arith) (c.closed id));
  counted = λ id.
      change_of (λ m. m.refs ≡ handles_of id s.handle_table) s.next_node (λ _. n) s.nodes id
        (λ at. unused ∙ sym (c.stored id (ground (arith, at)))) (λ _. c.counted id);
  stored = λ id above. c.stored id (omega (arith, above));
  distinct = c.distinct;
  fresh = c.fresh;
}

pub set_children-IsCounted :
    (id : ℕ) (children : List (Text × ℕ)) (s : ObjectManager)
    → ((key : Text) (next : ℕ) → get key children ≡ some next → next < s.next_node)
    → IsCounted s
    → IsCounted (set_children id children s)
unfolding set_children IsBelow
set_children-IsCounted id children s below c = record {
  rooted = c.rooted;
  closed = λ asked.
      change_of (IsBelow s.next_node) id (λ n. record n { children = some children }) s.nodes asked
        (λ _ theirs key next is at.
          below key next
            (subst (λ cs. get key cs ≡ some next) (sym (some-injective children theirs is)) at))
        (λ _. c.closed asked);
  counted = λ asked.
      change_kept (λ n. n.refs) id (λ n. record n { children = some children }) s.nodes asked
        (λ n. refl)
      ∙ c.counted asked;
  stored = c.stored;
  distinct = c.distinct;
  fresh = c.fresh;
}

pub mount_at-IsCounted :
    (system : ℕ) (at : Option ℕ) (s : ObjectManager)
    → IsCounted s
    → IsCounted (mount_at system at s)
unfolding mount_at IsBelow
mount_at-IsCounted system none s c = c
mount_at-IsCounted system (some id) s c = record {
  rooted = c.rooted;
  closed = λ asked.
      change_of (IsBelow s.next_node) id (λ n. record n { mount = some system }) s.nodes asked
        (λ _. c.closed asked) (λ _. c.closed asked);
  counted = λ asked.
      change_kept (λ n. n.refs) id (λ n. record n { mount = some system }) s.nodes asked (λ n. refl)
      ∙ c.counted asked;
  stored = c.stored;
  distinct = c.distinct;
  fresh = c.fresh;
}

pub new_handle-IsCounted :
    (id : ℕ) (s : ObjectManager) → id < s.next_node → IsCounted s → IsCounted (new_handle id s).1
unfolding new_handle IsBelow
new_handle-IsCounted id s inside c =
    let free = c.fresh s.next_handle (omega arith) in
    let more : (asked : ℕ)
        → handles_of asked (insert s.next_handle id s.handle_table)
          ≡ (if id == asked then 1 else 0) + handles_of asked s.handle_table =
      λ asked. handles_of-insert s.next_handle id s.handle_table asked free in
    record {
      rooted = c.rooted;
      closed = λ asked.
          change_of (IsBelow s.next_node) id (λ n. record n { refs = suc n.refs }) s.nodes asked
            (λ _. c.closed asked) (λ _. c.closed asked);
      counted = λ asked.
          change_of (λ n. n.refs ≡ handles_of asked (insert s.next_handle id s.handle_table)) id
            (λ n. record n { refs = suc n.refs }) s.nodes asked
            (λ hit. ground (arith, more asked, c.counted asked, hit))
            (λ miss. ground (arith, more asked, c.counted asked, miss));
      stored = λ asked above. more asked ∙ ground (arith, c.stored asked above);
      distinct = insert-IsDistinct s.next_handle id s.handle_table free c.distinct;
      fresh = λ handle above.
          lookup-insert s.next_handle id s.handle_table handle
          ∙ ground (arith, c.fresh handle (omega arith));
    }

pub close_object-IsCounted :
    (handle : ℕ) (at : Option ℕ) (s : ObjectManager)
    → lookup handle s.handle_table ≡ at
    → IsCounted s
    → IsCounted (close_object handle at s).1
unfolding close_object IsBelow
close_object-IsCounted handle none s there c = c
close_object-IsCounted handle (some id) s there c =
    let less : (asked : ℕ)
        → (if id == asked then 1 else 0) + handles_of asked (erase handle s.handle_table)
          ≡ handles_of asked s.handle_table =
      λ asked. handles_of-erase handle id s.handle_table asked c.distinct there in
    record {
      rooted = c.rooted;
      closed = λ asked.
          change_of (IsBelow s.next_node) id (λ n. record n { refs = n.refs - 1 }) s.nodes asked
            (λ _. c.closed asked) (λ _. c.closed asked);
      counted = λ asked.
          change_of (λ n. n.refs ≡ handles_of asked (erase handle s.handle_table)) id
            (λ n. record n { refs = n.refs - 1 }) s.nodes asked
            (λ hit. ground (arith, less asked, c.counted asked, hit))
            (λ miss. ground (arith, less asked, c.counted asked, miss));
      stored = λ asked above. omega (arith, less asked, c.stored asked above);
      distinct = erase-IsDistinct handle s.handle_table c.distinct;
      fresh = λ other above.
          lookup-erase handle s.handle_table other ∙ ground (arith, c.fresh other above);
    }
