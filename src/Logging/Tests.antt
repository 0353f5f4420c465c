-- ===== src/Logging/Tests.antt =====
-- The log of requests at concrete inputs. A request of the user "satoshi" whose keys are unknown.
use identity_oracle.Prelude.{String, ◌↔◌, ℕ, ◌≡◌, refl, false, Option, none, some, [], ◌∷◌}
use identity_oracle.Errors.{ok, err, of_oracle, invalid_signature, cause_kind}
use identity_oracle.Errors.Plain.{PlainError, plain_errors}
use identity_oracle.Web.{World, Handler, translate}
use identity_oracle.Web.Chain.{serve, cors_handler}
use identity_oracle.Web.Statuses.{status_of}
use identity_oracle.Web.Recovery.{app_middleware, start}
use identity_oracle.Logging.{Request, Entry, login_failed, level_of, handler}
use identity_oracle.Logging.Entries.{handler-err}

abbrev never : ℕ → Option PlainError
never d = none

abbrev forged : PlainError
forged = plain_errors.sentinel (of_oracle invalid_signature)

abbrev fails : Handler ℕ ℕ PlainError
fails w = (err (translate plain_errors (plain_errors.wrap forged "verify")), w)

abbrev request : Request
request = record {
  method = "POST";
  path = "/oracle/register";
  raw_query = [];
  forwarded_for = 49 ∷ 46 ∷ 50 ∷ 44 ∷ 32 ∷ 51 ∷ [];
  remote_address = 57 ∷ [];
  x_trace = [];
  x_request_id = 7 ∷ [];
  basic_auth = some "satoshi";
}

abbrev begun : World ℕ ℕ
begun = start plain_errors never false 3

start-sent : begun.response.sent ≡ none
unfolding cors_handler
start-sent = refl

-- The request is logged as a failed login.
forged_level :
    level_of request.basic_auth (status_of (cause_kind plain_errors forged))
    ≡ login_failed "satoshi"
forged_level = refl

handler-err_example :
    (w : World ℕ ℕ) × ((entry : Entry) × (handler request [] 20
          (serve plain_errors never fails [] (app_middleware plain_errors never false) 3)
        ≡ ok (w, entry))
      × (w.response.sent ≡ some entry.status)
      × (entry.status ≡ status_of (cause_kind plain_errors forged))
      × ((user : String)
          → (entry.level ≡ login_failed user)
            ↔ ((some "satoshi" ≡ some user) × (status_of (cause_kind plain_errors forged) ≡ 401))))
handler-err_example =
    handler-err plain_errors never false request [] 20 fails 3 begun forged "verify" refl start-sent
