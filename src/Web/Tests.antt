-- ===== src/Web/Tests.antt =====
-- Requests at concrete inputs. The tables are a number, and no payload is sent.
use identity_oracle.Prelude.{ℕ, ◌≡◌, refl, true, Option, none, []}
use identity_oracle.Errors.{ok, err, of_oracle, user_not_found}
use identity_oracle.Errors.Plain.{PlainError, plain_errors}
use identity_oracle.Web.{World, Handler, translate}
use identity_oracle.Web.Statuses.{Answered}
use identity_oracle.Web.Chain.{serve, cors_handler}
use identity_oracle.Web.Recovery.{app_middleware, start, serve-err}

abbrev never : ℕ → Option PlainError
never d = none

abbrev missing : PlainError
missing = plain_errors.sentinel (of_oracle user_not_found)

abbrev fails : Handler ℕ ℕ PlainError
fails w = (err (translate plain_errors (plain_errors.wrap missing "fetch user")), w)

abbrev begun : World ℕ ℕ
begun = start plain_errors never true 3

start-sent : begun.response.sent ≡ none
unfolding cors_handler
start-sent = refl

serve-err_example :
    (w : World ℕ ℕ) × (serve plain_errors never fails [] (app_middleware plain_errors never true) 3
      ≡ ok w)
    × Answered plain_errors never 404 w.response
    × (w.tables ≡ 3)
serve-err_example =
    serve-err plain_errors never true fails 3 begun missing "fetch user" refl start-sent
