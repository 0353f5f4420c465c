-- ===== src/Bootstrap.antt =====
-- cmd/identityoracled/bootstrap/bootstrap.go and config.go: `Setup` and `Run` of the service; and
-- the end of cmd/identityoracled/main.go, from `server.Run` on. The signing key is kept as its
-- public key; the environment, the network and the root URL are left out, since no modelled code
-- reads them. Which case of the `select` is taken, and what the server answers to `Shutdown` and
-- `Close`, are arguments. The call that registers the listener with the node has no result and is
-- left out. A `Save` that fails leaves the storage as its failed write left it.
pub mod Starting
pub mod Restarting
pub mod Blocks
pub mod Serving
pub mod Main
pub mod Launch
pub mod Tests
pub mod BlockTests
pub mod LaunchTests
use identity_oracle.MessageId.{chainstate_storage_key, message_id_bytes}
use identity_oracle.Prelude.{ℕ, String, Bool, Option, none, some, List, [], ◌∷◌, ◌++◌, map, ◌*◌}
use identity_oracle.Errors.{Outcome, ok, err, panic, ◌>>=◌, Text, ErrorsPkg, with_context}
use identity_oracle.Storage.{ObjectStore, after_put}
use identity_oracle.Sessions.{Sql, StorageConfig, DbConfig, Db, Effect, close, new}
use identity_oracle.Listener.{Headers, Listener, new_listener}
use identity_oracle.Signing.{Crypto}
use identity_oracle.Handlers.{Services, Approver}
use identity_oracle.Handlers.Api.{Validator, Environment}
use identity_oracle.Node.{save}

-- `Config`, as far as it is read. Times are in nanoseconds.
pub record Config : Type 0 where
  pub key : String
  pub contract_address : String
  pub transfer_expiration_duration_seconds : ℕ
  pub identity_expiration_duration_seconds : ℕ
  pub api_host : String
  pub read_timeout : ℕ
  pub write_timeout : ℕ
  pub is_test : Bool
  pub db : DbConfig
  pub storage : StorageConfig

-- The fields of `http.Server` that `Setup` sets, but for the handler.
pub record Server : Type 0 where
  pub addr : String
  pub read_timeout : ℕ
  pub write_timeout : ℕ
  pub max_header_bytes : ℕ

-- What is called while the service ends.
pub data Event (Pool Tx : Type 0) : Type 0 where
  shutdown_called close_called : Event Pool Tx
  on_db : Effect Pool Tx → Event Pool Tx
  node_stopped : Event Pool Tx

-- The case of the `select`.
pub data Cause (Error : Type 0) : Type 0 where
  spy_node_failed server_failed : Option Error → Cause Error
  interrupted : Cause Error

-- The server's answers to `Shutdown` and to `Close`, an error or nil.
pub record Replies (Error : Type 0) : Type 0 where
  pub shutdown : Option Error
  pub closing : Option Error

-- How the stores are opened: `strings.ToLower`, and the two constructors of the package storage.
pub record Stores (Contents : Type 0) : Type 0 where
  pub to_lower : String → String
  pub filesystem : StorageConfig → Contents
  pub s3 : StorageConfig → Contents

-- What `logger.Fatal` logs before it ends the process.
pub record Fatal (Error : Type 0) : Type 0 where
  pub message : String
  pub cause : Error

module _ (P : ErrorsPkg) (C : Crypto P.Error) (S : Services P.Error C) (O : ObjectStore P.Error)
    (Q : Sql P.Error) where
  open P use {Error, wrap}
  open C use {PublicKey, Hash, decode_address}
  open O use {Contents}
  open Q use {Pool, Tx}

  -- `Oracle` of bootstrap.go. The environment is what `handlers.API` is given.
  pub record Oracle : Type 0 where
    pub cfg : Config
    pub listener : Listener Hash
    pub server : Server
    pub environment : Environment P C S
    pub db : Db Pool Tx Contents

  unfoldable pub setup :
      (String → Outcome Error PublicKey)
      → Stores Contents
      → Validator P C S
      → Config
      → (ℕ → Outcome Text (Headers Hash))
      → Option (Approver Error PublicKey)
      → Outcome Error Oracle
  setup key_from_str stores validator cfg spy_node approver = do
    key ← with_context P "server key" (key_from_str cfg.key)
    contract_address ← with_context P "contract address" (decode_address cfg.contract_address)
    master_db ←
        with_context P "database"
          (new P O Q stores.to_lower stores.filesystem stores.s3 (some cfg.db) (some cfg.storage))
    ok (record {
      cfg = cfg;
      listener = new_listener (some spy_node);
      server = record {
        addr = cfg.api_host;
        read_timeout = cfg.read_timeout;
        write_timeout = cfg.write_timeout;
        max_header_bytes = 1048576;
      };
      environment = record {
        validator = validator;
        key = key;
        contract_address = contract_address;
        transfer_expiration_duration_seconds = cfg.transfer_expiration_duration_seconds;
        identity_expiration_duration_seconds = cfg.identity_expiration_duration_seconds;
        approver = approver;
      };
      db = master_db;
    })

  -- `Shutdown`, and `Close` if it fails; the error of `Close`.
  unfoldable pub stop_server : Replies Error → Option Error × List (Event Pool Tx)
  stop_server replies = elim replies.shutdown [
    | none ↦ (none, shutdown_called ∷ [])
    | some e ↦ (replies.closing, shutdown_called ∷ close_called ∷ [])
  ]

  -- The `select`: only after an interrupt an error of `Close` is returned.
  unfoldable pub wait_for_end :
      Cause Error → Replies Error → Outcome Error (Unit {0}) × List (Event Pool Tx)
  unfolding stop_server
  wait_for_end (spy_node_failed e) replies = (ok tt, (stop_server replies).1)
  wait_for_end (server_failed e) replies = (ok tt, [])
  wait_for_end interrupted replies = elim (stop_server replies).0 [
    | none ↦ (ok tt, (stop_server replies).1)
    | some e ↦ (err (wrap e "close server"), (stop_server replies).1)
  ]

  -- `Run`, with its deferred `Close` of the database.
  unfoldable pub run :
      Cause Error
      → Replies Error
      → Oracle
      → Outcome Error (Unit {0}) × (Oracle × List (Event Pool Tx))
  unfolding wait_for_end close
  run cause replies o =
      let (result, events) = wait_for_end cause replies in
      let (db, effects) = close o.db in
      (result, (record o { db = db }, events ++ map on_db effects))

  -- The end of `main`: the errors of `Run`, of the node's `Stop` and of `Save` do not stop it. The node
  -- names the next message when it was stopped.
  unfoldable pub main_end :
      Cause Error
      → Replies Error
      → ℕ
      → Oracle
      → Outcome (Fatal Error) (Option Contents × List (Event Pool Tx))
  unfolding run save
  main_end cause replies next_message_id o =
      let (result, (o', events)) = run cause replies o in
      elim (save P O next_message_id o'.db.storage) [
        | ok storage ↦ ok (storage, events ++ node_stopped ∷ [])
        | err e ↦ ok (
          after_put P O chainstate_storage_key (message_id_bytes next_message_id) o'.db.storage,
          events ++ node_stopped ∷ [],
        )
        | panic ↦ panic
      ]
