-- ===== src/Nano/MessageChannels.antt =====
-- system32/nano/message-channels.js: named queues of messages.
use windows_10_js.Prelude.{
  ℕ, ◌≡◌, refl, sym, ap, ◌∙◌, inl, inr, Option, none, some, List, [], ◌∷◌, ◌++◌, length,
  if◌then◌else◌, Bool-cases, Option-cases,
}
use windows_10_js.Prelude.TextMap.{Text, same, same-eq, get, put, get-put}
use windows_10_js.Cm.Keys.{or_else}

-- What stands in the queues is `M`.
abbrev pub Channels : Type 0 → Type 0
Channels M = List (Text × List M)

module _ {M : Type 0} where
  unfoldable pub queue_of : Text → Channels M → List M
  unfolding get
  queue_of name channels = or_else [] (get name channels)

  unfoldable pub create_channel : Text → Channels M → Channels M
  unfolding get put
  create_channel name channels = elim (get name channels) as (λ _. Channels M) [
    | none ↦ put name [] channels
    | some queue ↦ channels
  ]

  unfoldable pub send : Text → M → Channels M → Channels M
  unfolding create_channel queue_of put
  send name message channels =
      let created = create_channel name channels in
      put name (queue_of name created ++ message ∷ []) created

  unfoldable pub shift : Text → List M → Channels M → Option M × Channels M
  unfolding put
  shift name [] channels = (none, channels)
  shift name (message ∷ queue) channels = (some message, put name queue channels)

  unfoldable pub receive : Text → Channels M → Option M × Channels M
  unfolding shift queue_of
  receive name channels = shift name (queue_of name channels) channels

  unfoldable pub pending : Text → Channels M → ℕ
  unfolding queue_of
  pending name channels = length (queue_of name channels)

  queue_of-put :
      (name : Text) (queue : List M) (channels : Channels M) (asked : Text)
      → queue_of asked (put name queue channels)
        ≡ (if same name asked then queue else queue_of asked channels)
  unfolding queue_of
  queue_of-put name queue channels asked =
      ap (or_else []) (get-put name queue channels asked)
      ∙ elim (Bool-cases (same name asked)) [ inl hit ↦ rw hit refl | inr miss ↦ rw miss refl ]

  queue_of-create_channel :
      (name : Text) (channels : Channels M) (asked : Text)
      → queue_of asked (create_channel name channels) ≡ queue_of asked channels
  unfolding create_channel queue_of
  queue_of-create_channel name channels asked = elim (Option-cases (get name channels)) [
    | inr (queue, there) ↦ rw (there, create_channel) refl
    | inl missing ↦
        let empty : queue_of name channels ≡ [] = rw (missing, queue_of) refl in
        rw (missing, create_channel)
          (queue_of-put name [] channels asked ∙ elim (Bool-cases (same name asked)) [
            | inl hit ↦ rw hit (sym empty ∙ ap (λ n. queue_of n channels) (same-eq name asked hit))
            | inr miss ↦ rw miss refl
          ])
  ]

  -- A message that is sent is the last one of its channel, made if it was not there, and the other
  -- channels are as before.
  pub queue_of-send :
      (name : Text) (message : M) (channels : Channels M) (asked : Text)
      → queue_of asked (send name message channels) ≡ (
          if same name asked
          then queue_of name channels ++ message ∷ []
          else queue_of asked channels)
  unfolding send
  queue_of-send name message channels asked =
      let created = create_channel name channels in
      queue_of-put name (queue_of name created ++ message ∷ []) created asked
      ∙ ap (λ q. if same name asked then q ++ message ∷ [] else queue_of asked created)
          (queue_of-create_channel name channels name)
      ∙ ap (λ q. if same name asked then queue_of name channels ++ message ∷ [] else q)
          (queue_of-create_channel name channels asked)

  -- A channel with a message answers its first one and keeps the others, and the other channels are
  -- as before.
  pub queue_of-receive :
      (name : Text) (message : M) (queue : List M) (channels : Channels M) (asked : Text)
      → queue_of name channels ≡ message ∷ queue
      → ((receive name channels).0 ≡ some message)
        × (queue_of asked (receive name channels).1
            ≡ (if same name asked then queue else queue_of asked channels))
  unfolding receive shift
  queue_of-receive name message queue channels asked waiting =
      rw waiting (refl, queue_of-put name queue channels asked)
