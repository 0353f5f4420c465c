-- ===== src/Bootstrap/BlockTests.antt =====
-- A service at concrete inputs, and answers that name a block: a header arrived, and the window was
-- trimmed.
use identity_oracle.Prelude.{All, false, ℕ, ◌≡◌, refl, true, none, some, [], ◌∷◌}
use identity_oracle.Prelude.Equality.{nat_comparable}
use identity_oracle.Errors.{ok, empty}
use identity_oracle.Errors.Plain.{plain_errors}
use identity_oracle.Entity.{verify_entity_is_subset, check_field, check_list, check_name_to_phone}
use identity_oracle.Database.{get, rows_where}
use identity_oracle.Users.{fetch_user_by_xpub, user_rows_by_xpub}
use identity_oracle.XPubs.{fetch_xpub_by_xpub, xpub_rows}
use identity_oracle.Listener.{Listener, recent_sig_hash, scan_headers, scan_header, extend}
use identity_oracle.Listener.Interleaving.{trim_section}
use identity_oracle.Listener.SectionTests.{height, window, too_long, interleaved}
use identity_oracle.Signing.{verify_pub_key, approval, create_receive_signature}
use identity_oracle.Web.{Body, data_body}
use identity_oracle.Handlers.{signature_payload, transfer_payload, check_public, permit}
use identity_oracle.Handlers.Verify.{PubKeyRequest, pub_key_steps, permit_identity}
use identity_oracle.Handlers.Transfers.{TransferRequest, transfer_steps, approve_transfer}
use identity_oracle.Handlers.Tests.{Answers, never}
use identity_oracle.Bootstrap.Blocks.{
  headers_of, Dated, pub_key_steps-Dated, DatedReceipt, transfer_steps-DatedReceipt,
}
use identity_oracle.Storage.Memory.{memory}
use identity_oracle.Sessions.Tests.{numbered_sql}
use identity_oracle.Consistency.Tests.{with_alice-IsConsistent}
use identity_oracle.Logging.{Request}
use identity_oracle.Handlers.Api.{api}
use identity_oracle.Handlers.ApiTests.{environment, incoming}
use identity_oracle.Bootstrap.{Oracle}
use identity_oracle.Bootstrap.Tests.{configuration}
use identity_oracle.Bootstrap.Serving.{Served, web_handler-Served}
use identity_oracle.Samples.{first_row, company, numbers, simple, agreeing, with_alice}

abbrev trimmed_window : Listener ℕ
trimmed_window = trim_section too_long

recent : headers_of plain_errors trimmed_window ≡ ok (5, 5)
unfolding headers_of recent_sig_hash scan_headers scan_header extend
recent = refl

abbrev key_request : PubKeyRequest ℕ
key_request = record { xpub = 7; index = 3; entity = company }

abbrev key_answer : Body Answers × ℕ
key_answer = (data_body (signature_payload true empty 1 16 5), 200)

run_key :
    pub_key_steps plain_errors numbers simple first_row never
      (some agreeing)
      (headers_of plain_errors trimmed_window)
      key_request
      with_alice
    ≡ ok (with_alice, key_answer)
unfolding headers_of recent_sig_hash scan_headers scan_header extend pub_key_steps check_public
    permit_identity permit fetch_user_by_xpub get user_rows_by_xpub rows_where verify_pub_key
    approval verify_entity_is_subset check_name_to_phone check_field check_list
run_key = refl

pub_key_steps-Dated_example :
    Dated plain_errors numbers simple first_row never
      (some agreeing)
      height
      trimmed_window
      key_request
      with_alice
      key_answer
pub_key_steps-Dated_example =
    pub_key_steps-Dated plain_errors numbers simple first_row never (some agreeing) height window
      trimmed_window key_request with_alice with_alice key_answer (refl, (refl, tt)) interleaved
      run_key

abbrev transfer_request : TransferRequest ℕ
transfer_request = record {
  xpubs = 7 ∷ [];
  index = 3;
  contract = "contract";
  instrument_id = "token";
}

abbrev transfer_answer : Body Answers × ℕ
transfer_answer = (data_body (transfer_payload true empty 1 21 5 5 1000000000), 200)

run_transfer :
    transfer_steps plain_errors numbers simple first_row never none 0 1
      (headers_of plain_errors trimmed_window)
      transfer_request
      with_alice
    ≡ ok (with_alice, transfer_answer)
unfolding headers_of recent_sig_hash scan_headers scan_header extend transfer_steps check_public
    approve_transfer fetch_user_by_xpub get user_rows_by_xpub rows_where create_receive_signature
    fetch_xpub_by_xpub xpub_rows
run_transfer = refl

transfer_steps-DatedReceipt_example :
    DatedReceipt plain_errors numbers simple first_row never none height 0 1 transfer_request
      with_alice transfer_answer
transfer_steps-DatedReceipt_example =
    transfer_steps-DatedReceipt plain_errors numbers simple first_row never none height window
      trimmed_window 0 1 transfer_request with_alice with_alice transfer_answer (refl, (refl, tt))
      interleaved run_transfer

abbrev service : Oracle plain_errors numbers simple memory numbered_sql
service = record {
  cfg = configuration;
  listener = trimmed_window;
  server = record { addr = ""; read_timeout = 0; write_timeout = 0; max_header_bytes = 1048576 };
  environment = environment;
  db = record { database = some 1; storage = some []; session = none; session_tx = none };
}

abbrev logged : Request
logged = record {
  method = "POST";
  path = "/oracle/register";
  raw_query = [];
  forwarded_for = [];
  remote_address = 57 ∷ [];
  x_trace = [];
  x_request_id = [];
  basic_auth = none;
}

web_handler-Served_example :
    All
      (λ route. Served logged (7 ∷ []) 20 false with_alice route)
      (api plain_errors numbers simple first_row never environment incoming).routes
web_handler-Served_example =
    web_handler-Served plain_errors numbers simple memory numbered_sql first_row never service
      incoming logged (7 ∷ []) 20 false with_alice with_alice-IsConsistent
