-- ===== src/Sessions/Copies.antt =====
-- What a request does with its copy of the handle, `dbConn := MasterDB.Copy()` with a deferred
-- `dbConn.Close()`, and what closing a copy leaves.
use identity_oracle.Prelude.{
  ◌≡◌, refl, ◌∙◌, ap, inl, inr, none, some, List, [], ◌∷◌, ◌++◌, All, arith, Option-cases,
}
use identity_oracle.Errors.{Outcome, ok, ◌>>=◌, Outcome-cases}
use identity_oracle.Errors.Inversion.{bind-ok, ok-injective}
use identity_oracle.Sessions.{
  Db, Effect, closed, began, committed, rolled_back, on_pool, copy, close, get_active_db,
  begin_transaction, commit, rollback,
}

-- The calls that a request makes on its copy, each with the answer of the database.
pub data Call (E Tx : Type 0) : Type 0 where
  begins : Outcome E Tx → Call E Tx
  commits rolls_back : Outcome E (Unit {0}) → Call E Tx

-- No pool is closed.
abbrev pub KeepsPools : {Pool Tx : Type 0} → Effect Pool Tx → Type 0
KeepsPools (closed p) = ⊥
KeepsPools (began tx) = Unit
KeepsPools (committed tx) = Unit
KeepsPools (rolled_back tx) = Unit

All-append : {A : Type 0} (F : A → Type 0) (xs ys : List A) → All F xs → All F ys → All F (xs ++ ys)
All-append F [] ys p q = q
All-append F (x ∷ xs) ys p q = (p.0, All-append F xs ys p.1 q)

-- What no call touches.
record Kept {Pool Tx Contents : Type 0} (db db' : Db Pool Tx Contents)
    (effects : List (Effect Pool Tx)) : Type 0 where
  pub same_session : db'.session ≡ db.session
  pub same_database : db'.database ≡ db.database
  pub keeps_pools : All KeepsPools effects

Kept-same :
    {Pool Tx Contents : Type 0} (db d d' : Db Pool Tx Contents) (es es' : List (Effect Pool Tx))
    → ◌≡◌ {A = Db Pool Tx Contents × List (Effect Pool Tx)} (d, es) (d', es')
    → Kept db d es
    → Kept db d' es'
Kept-same {Pool} {Tx} {Contents} db d d' es es' same k =
    let e₀ : d ≡ d' = ap (λ (x : Db Pool Tx Contents × List (Effect Pool Tx)). x.0) same in
    let e₁ : es ≡ es' = ap (λ (x : Db Pool Tx Contents × List (Effect Pool Tx)). x.1) same in
    rw (← e₀, ← e₁) k

module _ {E Pool Tx Contents : Type 0} where
  unfoldable pub call :
      Call E Tx → Db Pool Tx Contents → Outcome E (Db Pool Tx Contents × List (Effect Pool Tx))
  unfolding begin_transaction commit rollback
  call (begins answer) db = begin_transaction answer db
  call (commits answer) db = do (result, after) ← commit answer db; ok after
  call (rolls_back answer) db = do (result, after) ← rollback answer db; ok after

  unfoldable pub calls :
      List (Call E Tx)
      → Db Pool Tx Contents
      → Outcome E (Db Pool Tx Contents × List (Effect Pool Tx))
  unfolding call
  calls [] db = ok (db, [])
  calls (c ∷ cs) db = do
    (db₁, effects₁) ← call c db
    (db₂, effects₂) ← calls cs db₁
    ok (db₂, effects₁ ++ effects₂)

  call-Kept :
      (c : Call E Tx) (db db' : Db Pool Tx Contents) (effects : List (Effect Pool Tx))
      → call c db ≡ ok (db', effects)
      → Kept db db' effects
  unfolding call
  call-Kept (begins answer) db db' effects q = elim (Option-cases db.session) [
    | inl z ↦ absurd (unfold begin_transaction in ground arith)
    | inr (s, y) ↦ elim (Outcome-cases answer) [
      | inl (tx, a) ↦
          Kept-same db (record db { session_tx = some tx }) db' (began tx ∷ []) effects
            (unfold begin_transaction in ground arith)
            (record { same_session = refl; same_database = refl; keeps_pools = (tt, tt) })
      | inr (inl (e, a)) ↦ absurd (unfold begin_transaction in ground arith)
      | inr (inr a) ↦ absurd (unfold begin_transaction in ground arith)
    ]
  ]
  call-Kept (commits answer) db db' effects q = elim (Option-cases db.session_tx) [
    | inl z ↦ absurd (unfold commit in ground arith)
    | inr (tx, y) ↦
        Kept-same db (record db { session_tx = none }) db' (committed tx ∷ []) effects
          (unfold commit in ground arith)
          (record { same_session = refl; same_database = refl; keeps_pools = (tt, tt) })
  ]
  call-Kept (rolls_back answer) db db' effects q = elim (Option-cases db.session_tx) [
    | inl z ↦ absurd (unfold rollback in ground arith)
    | inr (tx, y) ↦
        Kept-same db (record db { session_tx = none }) db' (rolled_back tx ∷ []) effects
          (unfold rollback in ground arith)
          (record { same_session = refl; same_database = refl; keeps_pools = (tt, tt) })
  ]

  calls-Kept :
      (cs : List (Call E Tx)) (db db' : Db Pool Tx Contents) (effects : List (Effect Pool Tx))
      → calls cs db ≡ ok (db', effects)
      → Kept db db' effects
  unfolding calls
  calls-Kept [] db db' effects q =
      Kept-same db db db' [] effects (ok-injective _ _ q)
        (record { same_session = refl; same_database = refl; keeps_pools = tt })
  calls-Kept (c ∷ cs) db db' effects q =
      let ((db₁, effects₁), q₁, r) = bind-ok (call c db) _ (db', effects) q in
      let ((db₂, effects₂), q₂, r') = bind-ok (calls cs db₁) _ (db', effects) r in
      let k₁ = call-Kept c db db₁ effects₁ q₁ in
      let k₂ = calls-Kept cs db₁ db₂ effects₂ q₂ in
      Kept-same db db₂ db' (effects₁ ++ effects₂) effects (ok-injective _ _ r') (record {
        same_session = k₂.same_session ∙ k₁.same_session;
        same_database = k₂.same_database ∙ k₁.same_database;
        keeps_pools = All-append KeepsPools effects₁ effects₂ k₁.keeps_pools k₂.keeps_pools;
      })

  -- A request that works on its copy and closes it once, at the end, closes no pool, whatever
  -- transactions it begins and ends, and leaves the copy without a session.
  pub close-calls :
      (cs : List (Call E Tx)) (master db : Db Pool Tx Contents) (pool : Pool)
      (effects : List (Effect Pool Tx))
      → master.database ≡ some pool
      → calls cs (copy master) ≡ ok (db, effects)
      → All KeepsPools (effects ++ (close db).1) × ((close db).0.session ≡ none)
  unfolding copy close
  close-calls cs master db pool effects m q =
      let k = calls-Kept cs (copy master) db effects q in
      let open_session : db.session ≡ some pool = k.same_session ∙ m in
      (
        rw (open_session, close) (All-append KeepsPools effects [] k.keeps_pools tt),
        rw (open_session, close) refl,
      )

-- A copy that was closed still has the master's database as its active one, so statements on it
-- run; and a second close of it closes the pool that all handles share.
pub get_active_db-close-copy :
    {Pool Tx Contents : Type 0} (master : Db Pool Tx Contents) (pool : Pool)
    → master.database ≡ some pool
    → (get_active_db (close (copy master)).0 ≡ some (on_pool pool))
      × ((close (copy master)).1 ≡ [])
      × ((close (close (copy master)).0).1 ≡ closed pool ∷ [])
unfolding copy close get_active_db
get_active_db-close-copy master pool m = (ground arith, ground arith, ground arith)
