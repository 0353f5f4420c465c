-- ===== src/Bootstrap/Restarting.antt =====
-- The end of one run of the service, and the start of the next.
use identity_oracle.Prelude.{
  ◌∙◌, ◌⊎◌, inl, inr, ◌≢◌, ℕ, String, ◌^◌, ◌<◌, ◌≡◌, refl, ap, Option, none, some, List, [], ◌∷◌,
  ◌++◌, map, arith,
}
use identity_oracle.Errors.{err, Outcome-cases, Outcome, ok, panic, Text, ErrorsPkg}
use identity_oracle.Storage.{after_put, ObjectStore}
use identity_oracle.MessageId.{chainstate_storage_key, message_id_bytes}
use identity_oracle.Sessions.{Sql, Db, Effect, closed, close, open_store}
use identity_oracle.Listener.{Headers, Listener, new_listener}
use identity_oracle.Signing.{Crypto}
use identity_oracle.Handlers.{Services, Approver}
use identity_oracle.Handlers.Api.{Validator}
use identity_oracle.Node.{
  accept_register, subscribe_contracts, subscribe_headers, ready, handle_message, save,
}
use identity_oracle.Node.Restarts.{handle_message-save}
use identity_oracle.Bootstrap.{
  Fatal, Config, Stores, Oracle, Cause, Replies, Event, on_db, node_stopped, setup, wait_for_end,
  run, main_end,
}
use identity_oracle.Bootstrap.Starting.{setup-started}

close-master :
    {Pool Tx Contents : Type 0} (db : Db Pool Tx Contents) (pool : Pool)
    → db.session ≡ none
    → db.database ≡ some pool
    → close db ≡ (db, closed pool ∷ [])
unfolding close
close-master db pool s d = ground arith

module _ (P : ErrorsPkg) (C : Crypto P.Error) (S : Services P.Error C) (O : ObjectStore P.Error)
    (Q : Sql P.Error) (key_from_str : String → Outcome P.Error C.PublicKey)
    (validator : Validator P C S) (cfg : Config) where
  open P use {Error}
  open C use {Hash}
  open O use {Contents}
  open Q use {Pool, Tx, connect}

  main_end-close :
      (o : Oracle P C S O Q) (cause : Cause Error) (replies : Replies Error) (n : ℕ)
      (storage : Option Contents) (pool : Pool)
      → close o.db ≡ (o.db, closed pool ∷ [])
      → save P O n o.db.storage ≡ ok storage
      → main_end P C S O Q cause replies n o
        ≡ ok (
          storage,
          ((wait_for_end P C S O Q cause replies).1 ++ on_db (closed pool) ∷ [])
              ++ node_stopped ∷ [],
        )
  unfolding main_end run
  main_end-close o cause replies n storage pool c q =
      let saved : save P O n (close o.db).0.storage ≡ ok storage = rw c q in
      let before = (wait_for_end P C S O Q cause replies).1 in
      let ending : Db Pool Tx Contents × List (Effect Pool Tx)
          → Outcome (Fatal Error) (Option Contents × List (Event Pool Tx)) =
        λ x. ok (storage, (before ++ map on_db x.1) ++ node_stopped ∷ []) in
      rw (saved, main_end, run) (ap ending c)

  -- What is in storage at the end: what `Save` wrote, or what its failed write left.
  abbrev pub Left : ℕ → Option Contents → Option Contents → Type 0
  Left n st storage =
      (save P O n st ≡ ok storage)
      ⊎ ((e : Error) × (save P O n st ≡ err e)
          × (after_put P O chainstate_storage_key (message_id_bytes n) st ≡ storage))

  main_end-Left :
      (o : Oracle P C S O Q) (cause : Cause Error) (replies : Replies Error) (n : ℕ) (pool : Pool)
      → close o.db ≡ (o.db, closed pool ∷ [])
      → save P O n o.db.storage ≢ panic
      → (storage : Option Contents) × Left n o.db.storage storage
        × (main_end P C S O Q cause replies n o
            ≡ ok (
              storage,
              ((wait_for_end P C S O Q cause replies).1 ++ on_db (closed pool) ∷ [])
                  ++ node_stopped ∷ [],
            ))
  unfolding main_end run
  main_end-Left o cause replies n pool c h = elim (Outcome-cases (save P O n o.db.storage)) [
    | inl (storage, q) ↦ (storage, inl q, main_end-close o cause replies n storage pool c q)
    | inr (inl (e, q)) ↦
        let failed : save P O n (close o.db).0.storage ≡ err e = rw c q in
        let before = (wait_for_end P C S O Q cause replies).1 in
        let ending : Db Pool Tx Contents × List (Effect Pool Tx)
            → Outcome (Fatal Error) (Option Contents × List (Event Pool Tx)) =
          λ x. ok (
            after_put P O chainstate_storage_key (message_id_bytes n) x.0.storage,
            (before ++ map on_db x.1) ++ node_stopped ∷ [],
          ) in
        (_, inr (e, q, refl), rw (failed, main_end, run) (ap ending c))
    | inr (inr q) ↦ absurd (h q)
  ]

  module _ (stores : Stores Contents) (spy_node : ℕ → Outcome Text (Headers Hash))
      (approver : Option (Approver Error C.PublicKey)) where
    -- However a service that was set up ends, and whatever its server answers, the pool of the database
    -- is closed once, after the server was told to stop and before the node is stopped.
    pub main_end-setup :
        (o : Oracle P C S O Q) (cause : Cause Error) (replies : Replies Error) (n : ℕ)
        → setup P C S O Q key_from_str stores validator cfg spy_node approver ≡ ok o
        → save P O n o.db.storage ≢ panic
        → (pool : Pool) × (connect cfg.db.driver cfg.db.url ≡ ok pool)
          × (storage : Option Contents) × Left n o.db.storage storage
          × (main_end P C S O Q cause replies n o
              ≡ ok (
                storage,
                ((wait_for_end P C S O Q cause replies).1 ++ on_db (closed pool) ∷ [])
                    ++ node_stopped ∷ [],
              ))
    main_end-setup o cause replies n e h =
        let (it, d, l) =
          setup-started P C S O Q key_from_str stores validator cfg spy_node approver o e in
        let open_pool : o.db.database ≡ some it.pool =
          ap (λ (x : Db Pool Tx Contents). x.database) d in
        let no_session : o.db.session ≡ none = ap (λ (x : Db Pool Tx Contents). x.session) d in
        let (storage, left, ends) =
          main_end-Left o cause replies n it.pool (close-master o.db it.pool no_session open_pool)
            h in
        (it.pool, it.is_pool, storage, left, ends)

  -- If `Save` succeeds, the id of the next message is kept from one run of the service to the next,
  -- whatever ends the first: if the second opens the storage that the first left, and the node has messages for it, the node is
  -- told to go on with the id that it named when it was stopped, if that is below 2 ^ 64.
  pub restart :
      (stores stores' : Stores Contents) (spy_node spy_node' : ℕ → Outcome Text (Headers Hash))
      (approver : Option (Approver Error C.PublicKey)) (o o' : Oracle P C S O Q)
      (cause : Cause Error) (replies : Replies Error) (n count : ℕ) (contents : Contents)
      (ready_answer : ℕ → Option Error)
      → n < 2 ^ 64
      → count ≢ 0
      → spy_node' 5 ≢ panic
      → setup P C S O Q key_from_str stores validator cfg spy_node approver ≡ ok o
      → save P O n o.db.storage ≡ ok (some contents)
      → open_store P O Q stores'.to_lower stores'.filesystem stores'.s3 cfg.storage ≡ contents
      → setup P C S O Q key_from_str stores' validator cfg spy_node' approver ≡ ok o'
      → (events : List (Event Pool Tx)) × (main_end P C S O Q cause replies n o
          ≡ ok (some contents, events))
        × ((l : Listener Hash) × (handle_message P O ready_answer
                (accept_register count)
                o'.db.storage
                o'.listener
              ≡ ok (l, subscribe_contracts ∷ subscribe_headers ∷ ready n ∷ [])))
  restart stores stores' spy_node spy_node' approver o o' cause replies n count contents
        ready_answer b c t e q opened e' =
      let (pool, p, storage', left, ends) =
        main_end-setup stores spy_node approver o cause replies n e (λ w. cc (w, q)) in
      let events =
        ((wait_for_end P C S O Q cause replies).1 ++ on_db (closed pool) ∷ [])
        ++ node_stopped ∷ [] in
      let ending : Option Contents
          → Outcome (Fatal Error) (Option Contents × List (Event Pool Tx)) =
        λ z. ok (z, events) in
      let kept : storage' ≡ some contents = elim left [
        | inl w ↦ cc (w, q)
        | inr (x, w, f) ↦ cc (w, q)
      ] in
      let (it, d, l) =
        setup-started P C S O Q key_from_str stores' validator cfg spy_node' approver o' e' in
      let fresh : Listener Hash = new_listener (some spy_node') in
      let told =
        handle_message-save P O ready_answer n count o.db.storage (some contents) fresh spy_node' b
          c (unfold new_listener in refl) (unfold new_listener in t) q in
      let storage : o'.db.storage ≡ some contents = rw d (ap some opened) in
      (events, ends ∙ ap ending kept, rw (storage, l) told)
