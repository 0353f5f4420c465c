-- ===== src/Bootstrap/Tests.antt =====
-- The start and the end of the service at a concrete configuration, on a store in memory.
use identity_oracle.Prelude.{ℕ, String, ◌≡◌, refl, true, none, some, List, [], ◌∷◌, arith}
use identity_oracle.Errors.{Outcome, ok, Text, empty}
use identity_oracle.Errors.Plain.{PlainError, plain_errors}
use identity_oracle.Storage.{Bytes, put}
use identity_oracle.Storage.Memory.{memory}
use identity_oracle.MessageId.{chainstate_storage_key, write_bytes, save_next_message_id}
use identity_oracle.Sessions.{new, open_pool}
use identity_oracle.Sessions.Tests.{numbered_sql}
use identity_oracle.Listener.{Headers, Listener, new_listener}
use identity_oracle.Node.{
  accept_register, subscribe_contracts, subscribe_headers, ready, handle_message, save,
}
use identity_oracle.Handlers.ApiTests.{accepting}
use identity_oracle.Bootstrap.{Config, Stores, Oracle, interrupted, Replies, Event, setup, main_end}
use identity_oracle.Bootstrap.Restarting.{restart}
use identity_oracle.Samples.{numbers, simple}

abbrev pub configuration : Config
configuration = record {
  key = "key";
  contract_address = "address";
  transfer_expiration_duration_seconds = 21600;
  identity_expiration_duration_seconds = 21600;
  api_host = "0.0.0.0:8080";
  read_timeout = 5000000000;
  write_timeout = 5000000000;
  is_test = true;
  db = record { driver = "postgres"; url = "user=foo" };
  storage = record { bucket = "standalone"; root = "./tmp" };
}

abbrev pub holding : List (Bytes × Bytes) → Stores (List (Bytes × Bytes))
holding contents = record { to_lower = λ s. s; filesystem = λ c. contents; s3 = λ c. [] }

abbrev pub decode_key : String → Outcome PlainError ℕ
decode_key s = ok 11

abbrev pub no_headers : ℕ → Outcome Text (Headers ℕ)
no_headers n = ok (record { start_height = 0; headers = [] })

abbrev pub Service : Type 0
Service = Oracle plain_errors numbers simple memory numbered_sql

abbrev pub service : List (Bytes × Bytes) → Service
service contents = record {
  cfg = configuration;
  listener = record { spy_node = some no_headers; offset = 5; hashes = []; height = 0 };
  server = record {
    addr = "0.0.0.0:8080";
    read_timeout = 5000000000;
    write_timeout = 5000000000;
    max_header_bytes = 1048576;
  };
  environment = record {
    validator = accepting;
    key = 11;
    contract_address = 5;
    transfer_expiration_duration_seconds = 21600;
    identity_expiration_duration_seconds = 21600;
    approver = none;
  };
  db = record { database = some 1; storage = some contents; session = none; session_tx = none };
}

starts :
    (contents : List (Bytes × Bytes))
    → setup plain_errors numbers simple memory numbered_sql decode_key
        (holding contents)
        accepting
        configuration
        no_headers
        none
      ≡ ok (service contents)
unfolding setup new open_pool new_listener
starts contents = refl

abbrev pub saved : List (Bytes × Bytes)
saved = (chainstate_storage_key, 0 ∷ 44 ∷ 1 ∷ 0 ∷ 0 ∷ 0 ∷ 0 ∷ 0 ∷ 0 ∷ []) ∷ []

pub save_300 : save plain_errors memory 300 (some []) ≡ ok (some saved)
unfolding save save_next_message_id put write_bytes
save_300 = refl

-- The server neither shuts down nor closes.
abbrev pub stuck : Replies PlainError
stuck = record { shutdown = some (plain_errors.plain empty); closing = none }

restart_example :
    (events : List (Event ℕ ℕ)) × (main_end plain_errors numbers simple memory numbered_sql
        interrupted stuck 300
        (service [])
      ≡ ok (some saved, events))
    × ((l : Listener ℕ) × (handle_message plain_errors memory
            (λ n. none)
            (accept_register 12)
            (some saved)
            (service saved).listener
          ≡ ok (l, subscribe_contracts ∷ subscribe_headers ∷ ready 300 ∷ [])))
restart_example =
    restart plain_errors numbers simple memory numbered_sql decode_key accepting configuration
      (holding []) (holding saved) no_headers no_headers none (service []) (service saved)
      interrupted stuck 300 12 saved (λ n. none) (omega arith) (λ e. omega arith) (λ e. cc)
      (starts []) save_300 refl (starts saved)
