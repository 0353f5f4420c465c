-- ===== src/Handlers/ApiTests.antt =====
-- A concrete configuration and a request for the routes of `API`.
use identity_oracle.Prelude.Int.{pos}
use native.Mathlib.Omega.{arith}
use identity_oracle.Prelude.{none, some, [], ◌∷◌}
use identity_oracle.Errors.{ok}
use identity_oracle.Errors.Plain.{plain_errors}
use identity_oracle.Handlers.Api.{Validator, Environment, Decoded, Incoming}
use identity_oracle.Handlers.Tests.{accepts}
use identity_oracle.Samples.{company, numbers, simple, agreeing}

abbrev pub accepting : Validator plain_errors numbers simple
accepting = record {
  register_failures = accepts;
  add_xpub_failures = accepts;
  user_failures = accepts;
  update_identity_failures = accepts;
  transfer_failures = accepts;
  pub_key_failures = accepts;
  xpub_failures = accepts;
  admin_failures = accepts;
}

abbrev pub environment : Environment plain_errors numbers simple
environment = record {
  validator = accepting;
  key = 11;
  contract_address = 5;
  transfer_expiration_duration_seconds = 3600;
  identity_expiration_duration_seconds = 21600;
  approver = some agreeing;
}

abbrev decoded : Decoded plain_errors numbers simple
decoded = record {
  as_register = ok (record { entity = company; public_key = 43; signature = 43 });
  as_add_xpub = ok (record {
    user_id = "alice";
    xpubs = 8 ∷ [];
    required_signers = pos 1;
    is_int = omega arith;
    signature = 42;
  });
  as_user = ok (7 ∷ []);
  as_update_identity = ok (record { user_id = "alice"; entity = company; signature = 42 });
  as_transfer =
      ok (record { xpubs = 7 ∷ []; index = 3; contract = "contract"; instrument_id = "token" });
  as_pub_key = ok (record { xpub = 7; index = 3; entity = company });
  as_xpub = ok (record { xpubs = 7 ∷ []; entity = company });
  as_admin = ok (record { xpubs = 7 ∷ []; index = 3; issuer = company; contract = 0 });
}

abbrev pub incoming : Incoming plain_errors numbers simple
incoming = record {
  decoded = decoded;
  new_id = "bob";
  created = 8;
  now = 9;
  headers = ok (100, 700000);
  contracts = λ a. ok (record { timestamp = 1; issuer = none });
  checked = ok tt;
}
