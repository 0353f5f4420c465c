-- ===== src/Sessions/Status.antt =====
-- `StatusCheck` of internal/platform/db/db.go.
use identity_oracle.Prelude.{
  ◌≡◌, inl, inr, ◌↔◌, true, Option, none, some, arith, Bool-cases, if◌then◌else◌,
}
use identity_oracle.Errors.{Outcome, ok, err, panic, ◌>>=◌, Outcome-cases, ErrorsPkg}
use identity_oracle.Storage.{Bytes, ObjectStore, is_db_not_found, fetch}
use identity_oracle.Sessions.{Sql, Db, copy}

module _ (P : ErrorsPkg) (O : ObjectStore P.Error) (Q : Sql P.Error) where
  open P use {Error, kind}
  open O use {Contents}
  open Q use {Pool, Tx, ping}

  -- `if db.database != nil { if err := db.database.Ping(); err != nil { … } }`
  unfoldable pub check_database : Option Pool → Outcome Error (Unit {0})
  check_database none = ok tt
  check_database (some pool) = ping pool

  -- The fetch of a key that should not be there. If it is there, `err` is nil and is returned.
  unfoldable pub check_storage : Bytes → Option Contents → Outcome Error (Unit {0})
  check_storage k none = ok tt
  check_storage k (some c) = elim (fetch P O k (some c)) [
    | ok b ↦ ok tt
    | err e ↦ if is_db_not_found (kind e) then ok tt else err e
    | panic ↦ panic
  ]

  -- `StatusCheck`; `k` is the random key.
  unfoldable pub status_check : Bytes → Db Pool Tx Contents → Outcome Error (Unit {0})
  unfolding check_database check_storage
  status_check k db = do answered ← check_database db.database; check_storage k db.storage

  -- `checkDB` of handlers/health.go: the check runs on a copy, which is closed afterwards.
  unfoldable pub check_db : Bytes → Db Pool Tx Contents → Outcome Error (Unit {0})
  unfolding status_check copy
  check_db k db = status_check k (copy db)

  -- The store answers: with an object, or with the error for a missing one.
  pub data Answers (k : Bytes) (c : Contents) : Type 0 where
    with_object : (b : Bytes) → fetch P O k (some c) ≡ ok b → Answers k c
    with_missing :
        (e : Error) → fetch P O k (some c) ≡ err e → is_db_not_found (kind e) ≡ true → Answers k c

  -- With a database and a store, `StatusCheck` succeeds exactly if the database answers a ping and
  -- the store answers a read, with an object or with the error for a missing one.
  pub status_check-iff-Answers :
      (k : Bytes) (db : Db Pool Tx Contents) (pool : Pool) (c : Contents)
      → db.database ≡ some pool
      → db.storage ≡ some c
      → (status_check k db ≡ ok tt) ↔ ((ping pool ≡ ok tt) × Answers k c)
  unfolding status_check
  status_check-iff-Answers k db pool c d s = (there, back)
    where
      there : status_check k db ≡ ok tt → (ping pool ≡ ok tt) × Answers k c
      there q = elim (Outcome-cases (fetch P O k (some c))) [
        | inl (b, f) ↦ (ground arith, with_object b f)
        | inr (inl (e, f)) ↦ elim (Bool-cases (is_db_not_found (kind e))) [
          | inl y ↦ (ground arith, with_missing e f y)
          | inr n ↦ absurd (ground arith)
        ]
        | inr (inr f) ↦ absurd (ground arith)
      ]

      back : (ping pool ≡ ok tt) × Answers k c → status_check k db ≡ ok tt
      back (p, with_object b f) = ground arith
      back (p, with_missing e f y) = ground arith
