-- ===== src/Bootstrap/Launch.antt =====
-- When `main` of cmd/identityoracled/main.go gets to serve, and how it then ends.
use identity_oracle.Prelude.{
  sym, List, inl, inr, ◌≢◌, Option-cases, ℕ, String, ◌≡◌, refl, ◌∙◌, ap, Option, none, some, [],
  ◌∷◌, ◌++◌, arith,
}
use mathlib.Core.Path.{subst}
use identity_oracle.Bootstrap.{
  Event, server_failed, spy_node_failed, interrupted, shutdown_called, close_called, stop_server,
  Stores, Oracle, on_db, node_stopped, Cause, Replies, Fatal, setup, wait_for_end,
}
use identity_oracle.Bootstrap.Restarting.{Left, main_end-setup}
use identity_oracle.Errors.{Outcome, ok, err, panic, ◌>>=◌, ErrorsPkg}
use identity_oracle.Errors.Inversion.{bind-ok, ok-injective}
use identity_oracle.Storage.{ObjectStore}
use identity_oracle.Sessions.{Sql, closed}
use identity_oracle.Listener.{new_listener}
use identity_oracle.Signing.{Crypto}
use identity_oracle.Handlers.{Services}
use identity_oracle.Handlers.Api.{Validator}
use identity_oracle.Node.{save}
use identity_oracle.Bootstrap.Starting.{IsConfigured, setup-started}
use identity_oracle.Bootstrap.Main.{
  MainConfig, NodePackages, or_fatal, rpc_config, spy_storage, spy_config, start, main,
}

or_fatal-ok :
    {Error A : Type 0} (message : String) (m : Outcome Error A) (a : A)
    → or_fatal message m ≡ ok a
    → m ≡ ok a
unfolding or_fatal
or_fatal-ok message (ok b) a e = ground arith
or_fatal-ok message (err x) a e = cc
or_fatal-ok message panic a e = cc

-- A part of the start that `main` checks, and what follows it.
fatal-step-ok :
    {Error A B : Type 0} (message : String) (m : Outcome Error A) (f : A → Outcome (Fatal Error) B)
    (b : B)
    → (or_fatal message m >>= f) ≡ ok b
    → (a : A) × (m ≡ ok a) × (f a ≡ ok b)
fatal-step-ok message m f b e =
    let (a, q, r) = bind-ok (or_fatal message m) f b e in (a, or_fatal-ok message m a q, r)

module _ (P : ErrorsPkg) (C : Crypto P.Error) (S : Services P.Error C) (O : ObjectStore P.Error)
    (Q : Sql P.Error) (N : NodePackages P.Error C.Hash)
    (key_from_str : String → Outcome P.Error C.PublicKey) (stores : Stores O.Contents)
    (validator : Validator P C S) (load_config : Outcome P.Error MainConfig) where
  open P use {Error}
  open O use {Contents}
  open Q use {Pool, Tx, connect}
  open N use {RpcNode, SpyConfig, SpyNode, new_rpc_node, new_node, get_headers}

  -- A configuration that loads, and with which the clients of the node and the service can be made.
  pub record IsStartable : Type 0 where
    pub cfg : MainConfig
    pub is_cfg : load_config ≡ ok cfg
    pub rpc_node : RpcNode
    pub is_rpc_node : new_rpc_node (rpc_config N cfg) ≡ ok rpc_node
    pub config : SpyConfig
    pub is_config : spy_config N cfg ≡ ok config
    pub is_configured : IsConfigured P C S O Q key_from_str stores validator cfg.oracle

  -- The node of a `main` that starts.
  abbrev pub the_node : IsStartable → SpyNode
  the_node it = new_node it.config (spy_storage N it.cfg) it.rpc_node it.rpc_node

  pub start-started :
      (node : SpyNode) (o : Oracle P C S O Q)
      → start P C S O Q N key_from_str stores validator load_config ≡ ok (node, o)
      → (it : IsStartable) × (the_node it ≡ node)
        × (setup P C S O Q key_from_str stores validator it.cfg.oracle
              (get_headers (the_node it))
              none
            ≡ ok o)
  unfolding start
  start-started node o e =
      let (cfg, l, e₁) = fatal-step-ok "main : Load Config : %v" load_config _ (node, o) e in
      let (rpc_node, r, e₂) =
        fatal-step-ok "Create RPC : %s" (new_rpc_node (rpc_config N cfg)) _ (node, o) e₁ in
      let (config, c, e₃) =
        fatal-step-ok "Failed to create spynode config : %s" (spy_config N cfg) _ (node, o) e₂ in
      let made = new_node config (spy_storage N cfg) rpc_node rpc_node in
      let (server, s, e₄) =
        fatal-step-ok "Failed to setup server : %s"
          (setup P C S O Q key_from_str stores validator cfg.oracle (get_headers made) none) _
          (node, o) e₃ in
      let both = ok-injective {E = Fatal Error} (made, server) (node, o) e₄ in
      (
        record {
          cfg = cfg;
          is_cfg = l;
          rpc_node = rpc_node;
          is_rpc_node = r;
          config = config;
          is_config = c;
          is_configured =
              (setup-started P C S O Q key_from_str stores validator cfg.oracle (get_headers made)
                none server s).0;
        },
        ap (λ (x : SpyNode × Oracle P C S O Q). x.0) both,
        s ∙ ap (λ (x : SpyNode × Oracle P C S O Q). ok x.1) both,
      )

  -- What the server is told at the end: nothing if it failed itself, else to shut down, and to close if
  -- that fails.
  pub data StopsServer (cause : Cause Error) (replies : Replies Error)
      : List (Event Pool Tx) → Type 0 where
    left_alone : (e : Option Error) → cause ≡ server_failed e → StopsServer cause replies []
    shut_down :
        ((e : Option Error) → cause ≢ server_failed e)
        → replies.shutdown ≡ none
        → StopsServer cause replies (shutdown_called ∷ [])
    closed_after :
        (x : Error)
        → ((e : Option Error) → cause ≢ server_failed e)
        → replies.shutdown ≡ some x
        → StopsServer cause replies (shutdown_called ∷ close_called ∷ [])

  stop_server-StopsServer :
      (cause : Cause Error) (replies : Replies Error)
      → ((e : Option Error) → cause ≢ server_failed e)
      → StopsServer cause replies (stop_server P C S O Q replies).1
  unfolding stop_server
  stop_server-StopsServer cause replies n = elim (Option-cases replies.shutdown) [
    | inl q ↦
        let told : (stop_server P C S O Q replies).1 ≡ shutdown_called ∷ [] = ground arith in
        subst (StopsServer cause replies) (sym told) (shut_down n q)
    | inr (x, q) ↦
        let told : (stop_server P C S O Q replies).1 ≡ shutdown_called ∷ close_called ∷ [] =
          ground arith in
        subst (StopsServer cause replies) (sym told) (closed_after x n q)
  ]

  wait_for_end-StopsServer :
      (cause : Cause Error) (replies : Replies Error)
      → StopsServer cause replies (wait_for_end P C S O Q cause replies).1
  unfolding wait_for_end
  wait_for_end-StopsServer (spy_node_failed e) replies =
      stop_server-StopsServer (spy_node_failed e) replies (λ x q. cc)
  wait_for_end-StopsServer (server_failed e) replies = left_alone e refl
  wait_for_end-StopsServer interrupted replies =
      elim (Option-cases (stop_server P C S O Q replies).0) [
        | inl q ↦ rw (q, wait_for_end) (stop_server-StopsServer interrupted replies (λ x e. cc))
        | inr (y, q) ↦
            rw (q, wait_for_end) (stop_server-StopsServer interrupted replies (λ x e. cc))
      ]

  -- If no panic stops `Save`, a `main` that gets to serve ends without a fatal error, whatever ends the
  -- service, and also if `Save` or the server's `Shutdown` fails. It leaves the storage with the id that
  -- the node named last, or with what the failed write of it left. Unless the server failed itself it is
  -- told to shut down, and to close if that fails; then the pool of the database of the configuration is
  -- closed, once, and then the node is stopped.
  pub main-start :
      (node : SpyNode) (o : Oracle P C S O Q) (cause : Cause Error) (replies : Replies Error)
      (next_message_id : ℕ)
      → start P C S O Q N key_from_str stores validator load_config ≡ ok (node, o)
      → save P O next_message_id o.db.storage ≢ panic
      → (it : IsStartable) × (the_node it ≡ node)
        × (o.listener ≡ new_listener (some (get_headers node)))
        × (pool : Pool) × (connect it.cfg.oracle.db.driver it.cfg.oracle.db.url ≡ ok pool)
        × (stops : List (Event Pool Tx)) × StopsServer cause replies stops
        × (storage : Option Contents) × Left P C S O Q key_from_str validator it.cfg.oracle
            next_message_id o.db.storage storage
        × (main P C S O Q N key_from_str stores validator load_config cause replies next_message_id
            ≡ ok (storage, (stops ++ on_db (closed pool) ∷ []) ++ node_stopped ∷ []))
  unfolding main
  main-start node o cause replies n e q =
      let (it, same, s) = start-started node o e in
      let (configured, d, l) =
        setup-started P C S O Q key_from_str stores validator it.cfg.oracle
          (get_headers (the_node it)) none o s in
      let (pool, p, storage, left, ends) =
        main_end-setup P C S O Q key_from_str validator it.cfg.oracle stores
          (get_headers (the_node it)) none o cause replies n s q in
      (
        it,
        same,
        l ∙ ap (λ x. new_listener (some (get_headers x))) same,
        pool,
        p,
        (wait_for_end P C S O Q cause replies).1,
        wait_for_end-StopsServer cause replies,
        storage,
        left,
        rw e ends,
      )
