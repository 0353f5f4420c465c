-- ===== src/Node/Restarts.antt =====
-- What the node is told after a restart.
use identity_oracle.Prelude.{
  ℕ, ◌^◌, ◌<◌, ◌≡◌, ◌≢◌, inl, inr, Option, some, List, [], ◌∷◌, arith, Option-cases,
}
use identity_oracle.Prelude.Equality.{nat_comparable}
use identity_oracle.Errors.{Outcome, ok, panic, Outcome-cases, Text, ErrorsPkg}
use identity_oracle.Errors.Inversion.{with_context-ok}
use identity_oracle.Storage.{ObjectStore}
use identity_oracle.MessageId.{save_next_message_id}
use identity_oracle.MessageId.Laws.{get-save_next_message_id}
use identity_oracle.Listener.{Headers, Listener, load_headers, initialize_headers, reinitialize}
use identity_oracle.Node.{
  accept_register, NodeCall, subscribe_contracts, subscribe_headers, ready, next_message_id,
  pull_headers, tell_ready, register_with_node, handle_message, save,
}

-- The calls of a registration.
abbrev registration : ℕ → List NodeCall
registration n = subscribe_contracts ∷ subscribe_headers ∷ ready n ∷ []

module _ {Hash : Type 0} where
  -- With a node that does not panic, the window can be pulled again.
  reinitialize-total :
      (l : Listener Hash) (node : ℕ → Outcome Text (Headers Hash))
      → l.spy_node ≡ some node
      → node l.offset ≢ panic
      → (l' : Listener Hash) × (reinitialize l ≡ ok l')
  unfolding reinitialize initialize_headers
  reinitialize-total l node s n = elim (Outcome-cases (node l.offset)) [
    | inl (reply, q) ↦ (load_headers l reply.start_height reply.headers, ground arith)
    | inr (inl (e, q)) ↦ (l, ground arith)
    | inr (inr q) ↦ absurd (n q)
  ]

module _ (P : ErrorsPkg) (O : ObjectStore P.Error) {Hash : Type 0} where
  open P use {Error}
  open O use {Contents}

  tell_ready-total :
      (ready_answer : ℕ → Option Error) (n : ℕ) (l : Listener Hash)
      (node : ℕ → Outcome Text (Headers Hash))
      → l.spy_node ≡ some node
      → node l.offset ≢ panic
      → (l' : Listener Hash) × (tell_ready P O ready_answer n l
            (subscribe_contracts ∷ subscribe_headers ∷ [])
          ≡ ok (l', registration n))
  unfolding tell_ready pull_headers
  tell_ready-total ready_answer n l node s t = elim (Option-cases (ready_answer n)) [
    | inl y ↦ let (l', q) = reinitialize-total l node s t in (l', ground arith)
    | inr (e, y) ↦ (l, ground arith)
  ]

  -- An id below 2 ^ 64 that `Save` kept is the one that the node is told to go on with, when it has
  -- messages for this client, after the two subscriptions and before the headers are pulled.
  pub handle_message-save :
      (ready_answer : ℕ → Option Error) (n count : ℕ) (st st' : Option Contents) (l : Listener Hash)
      (node : ℕ → Outcome Text (Headers Hash))
      → n < 2 ^ 64
      → count ≢ 0
      → l.spy_node ≡ some node
      → node l.offset ≢ panic
      → save P O n st ≡ ok st'
      → (l' : Listener Hash) × (handle_message P O ready_answer (accept_register count) st' l
          ≡ ok (l', subscribe_contracts ∷ subscribe_headers ∷ ready n ∷ []))
  unfolding save handle_message register_with_node next_message_id
  handle_message-save ready_answer n count st st' l node h c s t q =
      let saved = with_context-ok P "save next message id" (save_next_message_id P O n st) st' q in
      let again = get-save_next_message_id P O n st st' h saved in
      let (l', told) = tell_ready-total ready_answer n l node s t in (l', ground arith)
