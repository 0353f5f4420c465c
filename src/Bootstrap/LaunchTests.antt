-- ===== src/Bootstrap/LaunchTests.antt =====
-- `main` with a concrete configuration, and packages of numbers.
use identity_oracle.Prelude.{Option, List, ◌≡◌, refl, true, some, [], ◌∷◌, ◌++◌}
use identity_oracle.Storage.{Bytes}
use identity_oracle.Bootstrap.{Event, interrupted, setup, on_db, node_stopped}
use identity_oracle.Bootstrap.Launch.{StopsServer, IsStartable, the_node, main-start}
use identity_oracle.Bootstrap.Restarting.{Left}
use mathlib.Core.Int.{pos}
use Prim.Native.Nat.{ℕ}
use identity_oracle.Errors.{ok}
use identity_oracle.Errors.Plain.{PlainError, plain_errors}
use identity_oracle.Storage.Memory.{memory}
use identity_oracle.Sessions.{new, open_pool, closed}
use identity_oracle.Sessions.Tests.{numbered_sql}
use identity_oracle.Listener.{new_listener}
use identity_oracle.Handlers.ApiTests.{accepting}
use identity_oracle.Bootstrap.Main.{
  MainConfig, NodePackages, or_fatal, rpc_config, spy_storage, spy_config, start, main,
}
use identity_oracle.Bootstrap.Tests.{
  configuration, holding, decode_key, no_headers, service, stuck, save_300,
}
use identity_oracle.Samples.{numbers, simple}

abbrev packages : NodePackages PlainError ℕ
packages = record {
  RpcNode = ℕ;
  new_rpc_node = λ c. ok 1;
  StorageConfig = ℕ;
  new_storage_config = λ bucket root. 2;
  setup_retry = λ retries delay c. c;
  bucket_of = λ c. "standalone";
  to_lower = λ s. s;
  Storage = ℕ;
  new_filesystem_storage = λ c. 3;
  new_s3_storage = λ c. 4;
  Network = ℕ;
  network_from_string = λ s. 5;
  SpyConfig = ℕ;
  new_config = λ net is_test address agent hash untrusted delay shotgun retries wait mempool. ok 6;
  SpyNode = ℕ;
  new_node = λ config storage rpc client. 7;
  get_headers = λ node. no_headers;
}

abbrev main_configuration : MainConfig
main_configuration = record {
  bitcoin = record { network = "mainnet"; is_test = true };
  spy_node = record {
    address = "127.0.0.1:8333";
    user_agent = "/Tokenized:0.1.0/";
    start_hash = "";
    untrusted_nodes = pos 25;
    safe_tx_delay = pos 2000;
    shotgun_count = pos 100;
    max_retries = pos 25;
    retry_delay = pos 5000;
    request_mempool = true;
  };
  rpc_node = record {
    host = "localhost";
    username = "";
    password = "";
    max_retries = pos 10;
    retry_delay = pos 2000;
  };
  node_storage = record { bucket = "standalone"; root = "./tmp" };
  aws = record {
    region = "ap-southeast-2";
    access_key_id = "";
    secret_access_key = "";
    max_retries = pos 10;
    retry_delay = pos 2000;
  };
  oracle = configuration;
}

starts_all :
    start plain_errors numbers simple memory numbered_sql packages decode_key
      (holding [])
      accepting
      (ok main_configuration)
    ≡ ok (7, service [])
unfolding start or_fatal rpc_config spy_storage spy_config setup new open_pool new_listener
starts_all = refl

main-start_example :
    (it : IsStartable plain_errors numbers simple memory numbered_sql packages decode_key
      (holding [])
      accepting
      (ok main_configuration))
    × (the_node plain_errors numbers simple memory numbered_sql packages decode_key
          (holding [])
          accepting
          (ok main_configuration)
          it
        ≡ 7)
    × ((service []).listener ≡ new_listener (some no_headers))
    × (pool : ℕ) × (numbered_sql.connect it.cfg.oracle.db.driver it.cfg.oracle.db.url ≡ ok pool)
    × (stops : List (Event ℕ ℕ)) × StopsServer plain_errors numbers simple memory numbered_sql
        packages decode_key
        (holding [])
        accepting
        (ok main_configuration)
        interrupted
        stuck
        stops
    × (storage : Option (List (Bytes × Bytes))) × Left plain_errors numbers simple memory
        numbered_sql decode_key accepting it.cfg.oracle 300
        (some [])
        storage
    × (main plain_errors numbers simple memory numbered_sql packages decode_key
          (holding [])
          accepting
          (ok main_configuration)
          interrupted
          stuck
          300
        ≡ ok (storage, (stops ++ on_db (closed pool) ∷ []) ++ node_stopped ∷ []))
main-start_example =
    main-start plain_errors numbers simple memory numbered_sql packages decode_key (holding [])
      accepting (ok main_configuration) 7 (service []) interrupted stuck 300 starts_all
      (λ q. cc (save_300, q))
