-- ===== src/Sessions/Tests.antt =====
-- The handle on the database at concrete inputs. A pool, a transaction and a statement are numbers,
-- and rows are the values that were bound.
use identity_oracle.Prelude.{ℕ, ◌≡◌, refl, Option, none, some, List, [], ◌∷◌, ◌++◌, All}
use identity_oracle.Errors.{ok}
use identity_oracle.Errors.Plain.{PlainError}
use identity_oracle.Storage.{Bytes}
use identity_oracle.Sessions.{
  Sql, Db, closed, began, committed, on_pool, copy, close, get_active_db, begin_transaction, commit,
}
use identity_oracle.Sessions.Copies.{
  Call, begins, commits, calls, call, KeepsPools, close-calls, get_active_db-close-copy,
}

abbrev pub numbered_sql : Sql PlainError
numbered_sql = record {
  Pool = ℕ;
  Tx = ℕ;
  Stmt = ℕ;
  Rows = List (Option ℕ);
  Value = ℕ;
  bytes_value = λ b. 0;
  connect = λ driver url. ok 1;
  ping = λ p. ok tt;
  rebind = λ q sql. sql;
  prepare = λ q sql. ok 0;
  exec = λ s args. ok tt;
  queryx = λ q sql args. ok args;
  select_rows = λ q sql args. ok args;
  get_row = λ q sql args. ok args;
  expand_in = λ sql args. ok (sql, args);
}

abbrev master : Db ℕ ℕ (List (Bytes × Bytes))
master = record { database = some 1; storage = some []; session = none; session_tx = none }

abbrev one_transaction : List (Call PlainError ℕ)
one_transaction = begins (ok 7) ∷ commits (ok tt) ∷ []

abbrev worked : Db ℕ ℕ (List (Bytes × Bytes))
worked = record { database = some 1; storage = some []; session = some 1; session_tx = none }

run_transaction : calls one_transaction (copy master) ≡ ok (worked, began 7 ∷ committed 7 ∷ [])
unfolding calls call copy begin_transaction commit
run_transaction = refl

close-calls_example :
    All KeepsPools ((began 7 ∷ committed 7 ∷ []) ++ (close worked).1)
    × ((close worked).0.session ≡ none)
close-calls_example =
    close-calls one_transaction master worked 1 (began 7 ∷ committed 7 ∷ []) refl run_transaction

get_active_db-close-copy_example :
    (get_active_db (close (copy master)).0 ≡ some (on_pool 1))
    × ((close (copy master)).1 ≡ [])
    × ((close (close (copy master)).0).1 ≡ closed 1 ∷ [])
get_active_db-close-copy_example = get_active_db-close-copy master 1 refl
