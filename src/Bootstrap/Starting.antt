-- ===== src/Bootstrap/Starting.antt =====
-- When the service starts, and what it starts with.
use identity_oracle.Prelude.{
  ℕ, String, ◌≡◌, refl, ◌∙◌, ap, sym, ◌↔◌, inl, inr, arith, Option, none, some,
}
use identity_oracle.Errors.{Outcome, ok, err, Text, ErrorsPkg, got_want, Outcome-cases}
use identity_oracle.Errors.Inversion.{bind-ok, step-ok, ok-injective}
use identity_oracle.Storage.{ObjectStore}
use identity_oracle.Sessions.{Sql, Db, new, open_pool, open_store}
use identity_oracle.Listener.{Headers, new_listener, recent_sig_hash}
use identity_oracle.Signing.{Crypto}
use identity_oracle.Handlers.{Services, Approver}
use identity_oracle.Handlers.Api.{Validator}
use identity_oracle.Bootstrap.{Config, Stores, Oracle, setup}

module _ (P : ErrorsPkg) (C : Crypto P.Error) (S : Services P.Error C) (O : ObjectStore P.Error)
    (Q : Sql P.Error) (key_from_str : String → Outcome P.Error C.PublicKey)
    (stores : Stores O.Contents) (validator : Validator P C S) (cfg : Config) where
  open P use {Error}
  open C use {PublicKey, RawAddress, Hash, decode_address}
  open O use {Contents}
  open Q use {Pool, Tx, connect, ping}

  -- A configuration with a key, an address and a database that answers.
  pub record IsConfigured : Type 0 where
    pub key : PublicKey
    pub address : RawAddress
    pub pool : Pool
    pub is_key : key_from_str cfg.key ≡ ok key
    pub is_address : decode_address cfg.contract_address ≡ ok address
    pub is_pool : connect cfg.db.driver cfg.db.url ≡ ok pool
    pub answers : ping pool ≡ ok tt

  -- The handle of a service that starts.
  abbrev pub master : Pool → Db Pool Tx Contents
  master pool = record {
    database = some pool;
    storage = some (open_store P O Q stores.to_lower stores.filesystem stores.s3 cfg.storage);
    session = none;
    session_tx = none;
  }

  new-master :
      (db : Db Pool Tx Contents)
      → new P O Q stores.to_lower stores.filesystem stores.s3 (some cfg.db) (some cfg.storage)
        ≡ ok db
      → (pool : Pool) × (connect cfg.db.driver cfg.db.url ≡ ok pool)
        × (ping pool ≡ ok tt)
        × (master pool ≡ db)
  unfolding new open_pool
  new-master db e =
      let (found, p, e₁) = bind-ok (open_pool P O Q (some cfg.db)) _ db e in
      let (pool, c, e₂) = bind-ok (connect cfg.db.driver cfg.db.url) _ found p in
      let (u, a, e₃) = bind-ok (ping pool) _ found e₂ in
      let same : some pool ≡ found = ok-injective (some pool) found e₃ in
      (pool, c, a, ok-injective {E = Error} (master pool) db (rw same e₁))

  pub setup-started :
      (spy_node : ℕ → Outcome Text (Headers Hash)) (approver : Option (Approver Error PublicKey))
      (o : Oracle P C S O Q)
      → setup P C S O Q key_from_str stores validator cfg spy_node approver ≡ ok o
      → (it : IsConfigured) × (o.db ≡ master it.pool) × (o.listener ≡ new_listener (some spy_node))
  unfolding setup
  setup-started spy_node approver o e =
      let (key, k, e₁) = step-ok P "server key" (key_from_str cfg.key) _ o e in
      let (address, a, e₂) =
        step-ok P "contract address" (decode_address cfg.contract_address) _ o e₁ in
      let (db, d, e₃) =
        step-ok P "database"
          (new P O Q stores.to_lower stores.filesystem stores.s3 (some cfg.db) (some cfg.storage)) _
          o e₂ in
      let (pool, c, answers, same) = new-master db d in
      let it = ok-injective _ o e₃ in
      (
        record {
          key = key;
          address = address;
          pool = pool;
          is_key = k;
          is_address = a;
          is_pool = c;
          answers = answers;
        },
        sym (ap (λ (x : Oracle P C S O Q). x.db) it) ∙ sym same,
        sym (ap (λ (x : Oracle P C S O Q). x.listener) it),
      )

  -- `Setup` succeeds exactly if the key and the contract's address decode, and the database connects
  -- and answers a ping.
  pub setup-iff-IsConfigured :
      (spy_node : ℕ → Outcome Text (Headers Hash)) (approver : Option (Approver Error PublicKey))
      → ((o : Oracle P C S O Q) × (setup P C S O Q key_from_str stores validator cfg spy_node
              approver
            ≡ ok o))
        ↔ IsConfigured
  setup-iff-IsConfigured spy_node approver =
      (λ (o, e). (setup-started spy_node approver o e).0, back)
    where
      back :
          IsConfigured
          → (o : Oracle P C S O Q) × (setup P C S O Q key_from_str stores validator cfg spy_node
                approver
              ≡ ok o)
      back it =
          elim (Outcome-cases
            (setup P C S O Q key_from_str stores validator cfg spy_node approver)) [
              | inl (o, q) ↦ (o, q)
              | inr (inl (e, q)) ↦ absurd (
                  unfold setup new open_pool in
                  ground (arith, it.is_key, it.is_address, it.is_pool, it.answers))
              | inr (inr q) ↦ absurd (
                  unfold setup new open_pool in
                  ground (arith, it.is_key, it.is_address, it.is_pool, it.answers))
            ]

  -- A service that just started has no recent block: until headers arrive nothing can be signed that
  -- needs one.
  pub setup-recent_sig_hash :
      (spy_node : ℕ → Outcome Text (Headers Hash)) (approver : Option (Approver Error PublicKey))
      (o : Oracle P C S O Q)
      → setup P C S O Q key_from_str stores validator cfg spy_node approver ≡ ok o
      → recent_sig_hash o.listener ≡ err (got_want "bad header count" 0 5)
  unfolding recent_sig_hash new_listener
  setup-recent_sig_hash spy_node approver o e =
      let (it, d, l) = setup-started spy_node approver o e in rw l refl
