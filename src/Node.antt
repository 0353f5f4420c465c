-- ===== src/Node.antt =====
-- The callbacks of the node's client in internal/oracle/listener.go that are not about headers or
-- transactions: `HandleMessage`, `HandleInSync` and `HandleTxUpdate`; and `Save` of
-- cmd/identityoracled/bootstrap/bootstrap.go. The client is github.com/tokenized/spynode: its calls
-- are recorded, and what they answer is an argument.
pub mod Restarts
use identity_oracle.Prelude.{
  ℕ, Bool, Option, none, some, List, [], ◌∷◌, ◌++◌, length, last?, if◌then◌else◌,
}
use identity_oracle.Prelude.Equality.{◌==◌, nat_comparable}
use identity_oracle.Errors.{Outcome, ok, err, panic, ◌>>=◌, Text, ErrorsPkg, with_context}
use identity_oracle.Storage.{ObjectStore}
use identity_oracle.MessageId.{get_next_message_id, save_next_message_id}
use identity_oracle.Listener.{Listener, reinitialize}

-- `client.MessagePayload`: the acceptance of a registration, with the number of messages that the
-- node has for this client, or another message.
pub data Payload : Type 0 where
  accept_register : ℕ → Payload
  other_message : Payload

-- The calls to the client.
pub data NodeCall : Type 0 where
  subscribe_contracts subscribe_headers : NodeCall
  ready : ℕ → NodeCall

-- What `Listener.HandleInSync` logs: no headers, or the length of the window, its height and its last
-- hash.
unfoldable pub handle_in_sync :
    {Hash : Type 0} → Listener Hash → Outcome Text (Option (ℕ × (ℕ × Hash)))
handle_in_sync l = if length l.hashes == 0 then ok none else elim (last? l.hashes) [
  | none ↦ panic
  | some h ↦ ok (some (length l.hashes, (l.height, h)))
]

abbrev pub handle_tx_update : {A S : Type 0} → A → S → S
handle_tx_update update s = s

module _ (P : ErrorsPkg) (O : ObjectStore P.Error) where
  open P use {Error}
  open O use {Contents}

  -- `nextMessageID`: 1 if the node has no messages for this client, what was saved otherwise.
  unfoldable pub next_message_id : ℕ → Option Contents → Outcome Error ℕ
  next_message_id count st = if count == 0 then ok 1 else get_next_message_id P O st

module _ (P : ErrorsPkg) (O : ObjectStore P.Error) {Hash : Type 0} where
  open P use {Error}
  open O use {Contents}

  -- The call of `InitializeHeaders` at the end, whose error is logged.
  unfoldable pub pull_headers :
      Listener Hash → List NodeCall → Outcome Error (Listener Hash × List NodeCall)
  pull_headers l calls = elim (reinitialize l) [
    | ok l' ↦ ok (l', calls)
    | err e ↦ ok (l, calls)
    | panic ↦ panic
  ]

  -- `spyNode.Ready(ctx, nextMessageID)`, where `ready_answer` is its error, and what follows it.
  unfoldable pub tell_ready :
      (ℕ → Option Error)
      → ℕ
      → Listener Hash
      → List NodeCall
      → Outcome Error (Listener Hash × List NodeCall)
  unfolding pull_headers
  tell_ready ready_answer n l calls = elim (ready_answer n) [
    | some e ↦ ok (l, calls ++ ready n ∷ [])
    | none ↦ pull_headers l (calls ++ ready n ∷ [])
  ]

  -- The errors of the two subscriptions are only logged.
  unfoldable pub register_with_node :
      (ℕ → Option Error)
      → ℕ
      → Option Contents
      → Listener Hash
      → Outcome Error (Listener Hash × List NodeCall)
  unfolding tell_ready next_message_id
  register_with_node ready_answer count st l =
      let calls = subscribe_contracts ∷ subscribe_headers ∷ [] in
      elim (next_message_id P O count st) [
        | ok n ↦ tell_ready ready_answer n l calls
        | err e ↦ ok (l, calls)
        | panic ↦ panic
      ]

  unfoldable pub handle_message :
      (ℕ → Option Error)
      → Payload
      → Option Contents
      → Listener Hash
      → Outcome Error (Listener Hash × List NodeCall)
  unfolding register_with_node
  handle_message ready_answer other_message st l = ok (l, [])
  handle_message ready_answer (accept_register count) st l = elim l.spy_node [
    | none ↦ ok (l, [])
    | some node ↦ register_with_node ready_answer count st l
  ]

module _ (P : ErrorsPkg) (O : ObjectStore P.Error) where
  open P use {Error}
  open O use {Contents}

  -- `Oracle.Save`; the client says which message is next.
  unfoldable pub save : ℕ → Option Contents → Outcome Error (Option Contents)
  save next_message_id st =
      with_context P "save next message id" (save_next_message_id P O next_message_id st)
