-- ===== src/Logging.antt =====
-- internal/mid/request_logging.go: the handler that logs a request after it was served, with the
-- address of the client and the id of the trace. Texts of headers are byte lists. The elapsed time is
-- in nanoseconds; the user of basic authentication and new ids are arguments.
pub mod Addresses
pub mod Entries
pub mod Tests
use identity_oracle.Prelude.{
  ℕ, String, Bool, Option, none, some, List, [], ◌∷◌, length, get_elem?, ltb, if◌then◌else◌,
}
use identity_oracle.Prelude.Equality.{◌==◌, nat_comparable}
use identity_oracle.Errors.{Outcome, ok, err, panic, ◌>>=◌}
use identity_oracle.Storage.{Bytes}
use identity_oracle.Web.{World}

-- `strings.Replace(addr, " ", "", -1)`
unfoldable pub remove_spaces : Bytes → Bytes
remove_spaces [] = []
remove_spaces (c ∷ cs) = let rest = remove_spaces cs in if c == 32 then rest else c ∷ rest

-- A byte in front of the first part.
abbrev pub push : ℕ → List Bytes → List Bytes
push c [] = (c ∷ []) ∷ []
push c (part ∷ parts) = (c ∷ part) ∷ parts

-- `strings.Split(addr, ",")`
unfoldable pub split_commas : Bytes → List Bytes
split_commas [] = [] ∷ []
split_commas (c ∷ cs) = let rest = split_commas cs in if c == 44 then [] ∷ rest else push c rest

-- `forwarded_for` is the header, empty if it is missing.
unfoldable pub get_remote_address : {E : Type 0} → Bytes → Bytes → Outcome E Bytes
unfolding remove_spaces split_commas
get_remote_address forwarded_for remote_address =
    if ltb 0 (length forwarded_for)
    then elim (get_elem? (split_commas (remove_spaces forwarded_for)) 0) [
      | none ↦ panic
      | some first ↦ ok first
    ]
    else ok remote_address

unfoldable pub build_trace_id : Bytes → Bytes → Bytes → Bytes
build_trace_id x_trace x_request_id new_id =
    if ltb 0 (length x_trace)
    then x_trace
    else if ltb 0 (length x_request_id)
    then x_request_id
    else new_id

-- What is read of a request.
pub record Request : Type 0 where
  pub method : String
  pub path : String
  pub raw_query : Bytes
  pub forwarded_for : Bytes
  pub remote_address : Bytes
  pub x_trace : Bytes
  pub x_request_id : Bytes
  pub basic_auth : Option String

pub data Level : Type 0 where
  info : Level
  login_failed : String → Level

-- A line of the log.
pub record Entry : Type 0 where
  pub level : Level
  pub trace : Bytes
  pub elapsed : ℕ
  pub status : ℕ
  pub method : String
  pub path : String
  pub remote : Bytes
  pub params : Option Bytes

-- `logHTTPRequest`: a request with a user that ends in 401 is a failed login.
abbrev pub level_of : Option String → ℕ → Level
level_of none status = info
level_of (some user) status = if status == 401 then login_failed user else info

unfoldable pub log_http_request : {E : Type 0} → Request → Bytes → ℕ → ℕ → Outcome E Entry
log_http_request r trace elapsed status = do
  remote ← get_remote_address r.forwarded_for r.remote_address
  ok (record {
    level = level_of r.basic_auth status;
    trace = trace;
    elapsed = elapsed;
    status = status;
    method = r.method;
    path = r.path;
    remote = remote;
    params = if ltb 0 (length r.raw_query) then some r.raw_query else none;
  })

-- `Handler`: the entry is made after the request was served, from the status that the logging writer
-- keeps, and not at all if serving it panics. `new_id` is the uuid for a request without a trace.
unfoldable pub handler :
    {E T D : Type 0} → Request → Bytes → ℕ → Outcome E (World T D) → Outcome E (World T D × Entry)
unfolding log_http_request build_trace_id
handler r new_id elapsed served = do
  w ← served
  entry ←
      log_http_request r (build_trace_id r.x_trace r.x_request_id new_id) elapsed w.response.logged
  ok (w, entry)
