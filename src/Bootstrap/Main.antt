-- ===== src/Bootstrap/Main.antt =====
-- cmd/identityoracled/main.go: the configuration of the service, the parts that `main` makes of it, and
-- `main` from there to its end. The logger, its environment variables and `DumpSafe` are left out, and
-- `LoadConfig` is an argument. `logger.Fatal` ends the process.
use mathlib.Core.Int.{ℤ}
use identity_oracle.Prelude.{ℕ, String, Bool, true, Option, none, List, if◌then◌else◌}
use identity_oracle.Prelude.Equality.{◌==◌, string_comparable}
use identity_oracle.Errors.{Outcome, ok, err, panic, ◌>>=◌, Text, ErrorsPkg}
use identity_oracle.Storage.{ObjectStore}
use identity_oracle.Sessions.{Sql}
use identity_oracle.Listener.{Headers}
use identity_oracle.Signing.{Crypto}
use identity_oracle.Handlers.{Services}
use identity_oracle.Handlers.Api.{Validator}
use identity_oracle.Bootstrap.{
  Config, Stores, Oracle, Event, Cause, Replies, Fatal, setup, main_end,
}

pub record BitcoinConfig : Type 0 where
  pub network : String
  pub is_test : Bool

pub record SpyNodeConfig : Type 0 where
  pub address : String
  pub user_agent : String
  pub start_hash : String
  pub untrusted_nodes : ℤ
  pub safe_tx_delay : ℤ
  pub shotgun_count : ℤ
  pub max_retries : ℤ
  pub retry_delay : ℤ
  pub request_mempool : Bool

pub record RpcNodeConfig : Type 0 where
  pub host : String
  pub username : String
  pub password : String
  pub max_retries : ℤ
  pub retry_delay : ℤ

pub record NodeStorageConfig : Type 0 where
  pub bucket : String
  pub root : String

pub record AwsConfig : Type 0 where
  pub region : String
  pub access_key_id : String
  pub secret_access_key : String
  pub max_retries : ℤ
  pub retry_delay : ℤ

-- `Config` of main.go.
pub record MainConfig : Type 0 where
  pub bitcoin : BitcoinConfig
  pub spy_node : SpyNodeConfig
  pub rpc_node : RpcNodeConfig
  pub node_storage : NodeStorageConfig
  pub aws : AwsConfig
  pub oracle : Config

-- The literal of `rpcnode.Config` in `main`.
pub record RpcConfig : Type 0 where
  pub host : String
  pub username : String
  pub password : String
  pub max_retries : ℤ
  pub retry_delay : ℤ
  pub ignore_already_in_mempool : Bool

-- What `main` uses of the packages rpcnode, storage, bitcoin and spynode.
pub record NodePackages (Error Hash : Type 0) : Type 1 where
  pub RpcNode : Type 0
  pub new_rpc_node : RpcConfig → Outcome Error RpcNode
  pub StorageConfig : Type 0
  pub new_storage_config : String → String → StorageConfig
  pub setup_retry : ℤ → ℤ → StorageConfig → StorageConfig
  pub bucket_of : StorageConfig → String
  pub to_lower : String → String
  pub Storage : Type 0
  pub new_filesystem_storage : StorageConfig → Storage
  pub new_s3_storage : StorageConfig → Storage
  pub Network : Type 0
  pub network_from_string : String → Network
  pub SpyConfig : Type 0
  pub new_config :
      Network → Bool → String → String → String → ℤ → ℤ → ℤ → ℤ → ℤ → Bool → Outcome Error SpyConfig
  pub SpyNode : Type 0
  pub new_node : SpyConfig → Storage → RpcNode → RpcNode → SpyNode
  pub get_headers : SpyNode → ℕ → Outcome Text (Headers Hash)

-- `if err != nil { logger.Fatal(ctx, message, err) }`
unfoldable pub or_fatal : {Error A : Type 0} → String → Outcome Error A → Outcome (Fatal Error) A
or_fatal message (ok a) = ok a
or_fatal message (err e) = err (record { message = message; cause = e })
or_fatal message panic = panic

module _ {Error Hash : Type 0} (N : NodePackages Error Hash) where
  open N use {
    RpcNode, StorageConfig, new_storage_config, setup_retry, bucket_of, to_lower, Storage,
    new_filesystem_storage, new_s3_storage, network_from_string, SpyConfig, new_config,
  }

  unfoldable pub rpc_config : MainConfig → RpcConfig
  rpc_config cfg = record {
    host = cfg.rpc_node.host;
    username = cfg.rpc_node.username;
    password = cfg.rpc_node.password;
    max_retries = cfg.rpc_node.max_retries;
    retry_delay = cfg.rpc_node.retry_delay;
    ignore_already_in_mempool = true;
  }

  unfoldable pub spy_storage : MainConfig → Storage
  spy_storage cfg =
      let config : StorageConfig =
        setup_retry cfg.aws.max_retries cfg.aws.retry_delay
          (new_storage_config cfg.node_storage.bucket cfg.node_storage.root) in
      if to_lower (bucket_of config) == "standalone"
      then new_filesystem_storage config
      else new_s3_storage config

  unfoldable pub spy_config : MainConfig → Outcome Error SpyConfig
  spy_config cfg =
      new_config (network_from_string cfg.bitcoin.network) cfg.bitcoin.is_test cfg.spy_node.address
        cfg.spy_node.user_agent cfg.spy_node.start_hash cfg.spy_node.untrusted_nodes
        cfg.spy_node.safe_tx_delay cfg.spy_node.shotgun_count cfg.spy_node.max_retries
        cfg.spy_node.retry_delay cfg.spy_node.request_mempool

module _ (P : ErrorsPkg) (C : Crypto P.Error) (S : Services P.Error C) (O : ObjectStore P.Error)
    (Q : Sql P.Error) (N : NodePackages P.Error C.Hash) where
  open P use {Error}
  open C use {PublicKey}
  open O use {Contents}
  open Q use {Pool, Tx}
  open N use {SpyNode, new_rpc_node, new_node, get_headers}

  -- `main` as far as the two goroutines: the node and the service.
  unfoldable pub start :
      (String → Outcome Error PublicKey)
      → Stores Contents
      → Validator P C S
      → Outcome Error MainConfig
      → Outcome (Fatal Error) (SpyNode × Oracle P C S O Q)
  unfolding or_fatal rpc_config spy_storage spy_config
  start key_from_str stores validator load_config = do
    cfg ← or_fatal "main : Load Config : %v" load_config
    rpc_node ← or_fatal "Create RPC : %s" (new_rpc_node (rpc_config N cfg))
    config ← or_fatal "Failed to create spynode config : %s" (spy_config N cfg)
    let node = new_node config (spy_storage N cfg) rpc_node rpc_node
    server ←
        or_fatal "Failed to setup server : %s"
          (setup P C S O Q key_from_str stores validator cfg.oracle (get_headers node) none)
    ok (node, server)

  -- `main`, with the storage that the process leaves and what is called at its end.
  unfoldable pub main :
      (String → Outcome Error PublicKey)
      → Stores Contents
      → Validator P C S
      → Outcome Error MainConfig
      → Cause Error
      → Replies Error
      → ℕ
      → Outcome (Fatal Error) (Option Contents × List (Event Pool Tx))
  unfolding start
  main key_from_str stores validator load_config cause replies next_message_id = do
    started ← start key_from_str stores validator load_config
    main_end P C S O Q cause replies next_message_id started.1
