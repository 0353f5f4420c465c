-- ===== src/Formations/Transactions.antt =====
-- `HandleTx` over a whole transaction, on a store that works and on one that may fail.
use identity_oracle.Prelude.{
  ◌⊎◌, ◌≢◌, none, some, ◌≡◌, ◌∙◌, sym, ap, refl, ◌≤◌, inl, inr, Bool, Option, List, [], ◌∷◌, arith,
  Bool-cases,
}
use identity_oracle.Storage.{is_db_not_found, after_put, Bytes, ObjectStore, fetch}
use identity_oracle.Errors.{cause_kind, Outcome, ok, err, panic, Outcome-cases, ErrorsPkg}
use identity_oracle.Formations.{
  formation_key, after_save, ContractFormation, contract_formation, other_action, Protocol,
  get_contract_formation, save_contract_formation, handle_output, handle_outputs, handle_tx,
}
use native.Mathlib.Decide.{ℕ_discrete}
use identity_oracle.MessageId.{chainstate_storage_key, get_next_message_id}
use identity_oracle.Formations.Keys.{formation_key-ne-chainstate_storage_key}
use identity_oracle.Formations.Saving.{
  newer, get-save_contract_formation, get-save_contract_formation_ne, fetch-save_contract_formation,
}

Bytes-discrete : Discrete Bytes
Bytes-discrete = hlevel ℕ_discrete

module _ (P : ErrorsPkg) (O : ObjectStore P.Error) (B : Protocol P.Error) (is_test : Bool) where
  open P use {Error}
  open O use {Contents, read, after_failure}
  open B use {
    RawAddress, deserialize, raw_address_from_locking_script, is_empty, address_bytes,
    address_bytes-injective,
  }

  abbrev get : RawAddress → Option Contents → Outcome Error ContractFormation
  get = get_contract_formation P O B is_test

  -- An output changes nothing, or was saved as a formation, or its save failed.
  data Handled (ra : RawAddress) (script : Bytes) (st st' : Option Contents) : Type 0 where
    unchanged : st ≡ st' → Handled ra script st st'
    saved :
        (f : ContractFormation)
        → deserialize script is_test ≡ ok (contract_formation f)
        → save_contract_formation P O B is_test ra f script st ≡ ok st'
        → Handled ra script st st'
    spoiled : after_save P O B is_test ra script st ≡ st' → Handled ra script st st'

  handle_output-Handled :
      (ra : RawAddress) (script : Bytes) (st st' : Option Contents)
      → handle_output P O B is_test ra script st ≡ ok st'
      → Handled ra script st st'
  unfolding handle_output
  handle_output-Handled ra script st st' h = elim (Outcome-cases (deserialize script is_test)) [
    | inl (other_action, d) ↦ unchanged (ground arith)
    | inl (contract_formation f, d) ↦
        elim (Outcome-cases (save_contract_formation P O B is_test ra f script st)) [
          | inl (st₁, s) ↦ saved f d (s ∙ ground arith)
          | inr (inl (e, s)) ↦ spoiled (ground arith)
          | inr (inr s) ↦ absurd (ground arith)
        ]
    | inr (inl (e, d)) ↦ unchanged (ground arith)
    | inr (inr d) ↦ absurd (ground arith)
  ]

  -- A relation on storage that every save keeps, and that chains, holds across all the outputs.
  module _ (R : Option Contents → Option Contents → Type 0)
      (R-refl : (st : Option Contents) → R st st)
      (R-trans : (a b c : Option Contents) → R a b → R b c → R a c) where
    handle_outputs-induction :
        (ra : RawAddress) (scripts : List Bytes) (st st' : Option Contents)
        → ((f : ContractFormation) (script : Bytes) (a b : Option Contents)
            → deserialize script is_test ≡ ok (contract_formation f)
            → save_contract_formation P O B is_test ra f script a ≡ ok b
            → R a b)
        → ((script : Bytes) (a : Option Contents) → R a (after_save P O B is_test ra script a))
        → handle_outputs P O B is_test ra scripts st ≡ ok st'
        → R st st'
    unfolding handle_outputs
    handle_outputs-induction ra [] st st' step fails h =
        let same : st ≡ st' = cc in rw (← same) (R-refl st)
    handle_outputs-induction ra (script ∷ scripts) st st' step fails h =
        elim (Outcome-cases (handle_output P O B is_test ra script st)) [
          | inl (m, q) ↦
              R-trans st m st'
                (elim (handle_output-Handled ra script st m q) [
                  | unchanged same ↦ rw (← same) (R-refl st)
                  | saved f d s ↦ step f script st m d s
                  | spoiled same ↦ rw (← same) (fails script st)
                ])
                (handle_outputs-induction ra scripts m st' step fails (ground arith))
          | inr (inl (e, q)) ↦ absurd (ground arith)
          | inr (inr q) ↦ absurd (ground arith)
        ]

    handle_tx-induction :
        (outputs tx_out : List Bytes) (st st' : Option Contents)
        → ((ra : RawAddress) (f : ContractFormation) (script : Bytes) (a b : Option Contents)
            → deserialize script is_test ≡ ok (contract_formation f)
            → save_contract_formation P O B is_test ra f script a ≡ ok b
            → R a b)
        → ((ra : RawAddress) (script : Bytes) (a : Option Contents)
            → R a (after_save P O B is_test ra script a))
        → handle_tx P O B is_test outputs tx_out st ≡ ok st'
        → R st st'
    unfolding handle_tx
    handle_tx-induction [] tx_out st st' step fails h =
        let same : st ≡ st' = cc in rw (← same) (R-refl st)
    handle_tx-induction (first ∷ outputs) tx_out st st' step fails h =
        elim (Outcome-cases (raw_address_from_locking_script first)) [
          | inl (ra, q) ↦ elim (Bool-cases (is_empty ra)) [
            | inl y ↦ let same : st ≡ st' = ground arith in rw (← same) (R-refl st)
            | inr n ↦ handle_outputs-induction ra tx_out st st' (step ra) (fails ra) (ground arith)
          ]
          | inr (inl (e, q)) ↦ let same : st ≡ st' = ground arith in rw (← same) (R-refl st)
          | inr (inr q) ↦ absurd (ground arith)
        ]

  -- What is read for the address in the second state is no older than what was in the first.
  abbrev NoOlder : RawAddress → Option Contents → Option Contents → Type 0
  NoOlder ra a b =
      (g : ContractFormation)
      → get ra a ≡ ok g
      → (g' : ContractFormation) × (get ra b ≡ ok g') × (g.timestamp ≤ g'.timestamp)

  newer-le :
      (r : Outcome Error ContractFormation) (f g : ContractFormation)
      → r ≡ ok g
      → g.timestamp ≤ (newer r f).timestamp
  newer-le (ok r) f g e = let same : r ≡ g = cc in rw (← same) (ground arith)
  newer-le (err x) f g e = cc
  newer-le panic f g e = cc

  save-NoOlder :
      (ra rb : RawAddress) (f : ContractFormation) (script : Bytes) (a b : Option Contents)
      → deserialize script is_test ≡ ok (contract_formation f)
      → save_contract_formation P O B is_test ra f script a ≡ ok b
      → NoOlder rb a b
  save-NoOlder ra rb f script a b d s g e =
      elim (Bytes-discrete (address_bytes rb) (address_bytes ra)) [
        | yes p ↦
            let same = address_bytes-injective rb ra p in
            (
              newer (get rb a) f,
              rw same (get-save_contract_formation P O B is_test ra f script a b d s),
              newer-le (get rb a) f g e,
            )
        | no n ↦ (
          g,
          get-save_contract_formation_ne P O B is_test ra rb f script a b
                (λ q. n (ap address_bytes q)) s
              ∙ e,
          omega arith,
        )
      ]

  after_save-or :
      (ra : RawAddress) (script : Bytes) (st : Option Contents)
      → (after_save P O B is_test ra script st ≡ st)
        ⊎ (after_save P O B is_test ra script st
            ≡ after_put P O (formation_key P O B is_test ra) script st)
  unfolding after_save
  after_save-or ra script st =
      elim (Outcome-cases (fetch P O (formation_key P O B is_test ra) st)) [
        | inl (b, q) ↦ inr (rw (q, after_save) refl)
        | inr (inl (e, q)) ↦ elim (Bool-cases (is_db_not_found (cause_kind P e))) [
          | inl y ↦ inr (rw (q, after_save) (rw y refl))
          | inr n ↦ inl (rw (q, after_save) (rw n refl))
        ]
        | inr (inr q) ↦ inl (rw (q, after_save) refl)
      ]

  fetch-after_put_ne :
      (key other body : Bytes) (st : Option Contents)
      → other ≢ key
      → fetch P O other (after_put P O key body st) ≡ fetch P O other st
  unfolding fetch
  fetch-after_put_ne key other body none n = refl
  fetch-after_put_ne key other body (some c) n =
      let same = O.read-after_failure key other body c n in rw (same, fetch) refl

  fetch-after_save_ne :
      (ra : RawAddress) (other script : Bytes) (st : Option Contents)
      → other ≢ formation_key P O B is_test ra
      → fetch P O other (after_save P O B is_test ra script st) ≡ fetch P O other st
  fetch-after_save_ne ra other script st n = elim (after_save-or ra script st) [
    | inl same ↦ ap (fetch P O other) same
    | inr put ↦
        ap (fetch P O other) put
        ∙ fetch-after_put_ne (formation_key P O B is_test ra) other script st n
  ]

  -- A store that keeps what an object was when a write of it fails.
  abbrev pub KeepsObjects : Type 0
  KeepsObjects =
      (key body : Bytes) (c : Contents) → read key (after_failure key body c) ≡ read key c

  fetch-after_save :
      (ra : RawAddress) (other script : Bytes) (st : Option Contents)
      → KeepsObjects
      → fetch P O other (after_save P O B is_test ra script st) ≡ fetch P O other st
  unfolding fetch
  fetch-after_save ra other script st kept =
      elim (Bytes-discrete other (formation_key P O B is_test ra)) [
        | no n ↦ fetch-after_save_ne ra other script st n
        | yes p ↦ elim (after_save-or ra script st) [
          | inl same ↦ ap (fetch P O other) same
          | inr put ↦ ap (fetch P O other) put ∙ rw p (own (formation_key P O B is_test ra) st)
        ]
      ]
    where
      own :
          (key : Bytes) (a : Option Contents)
          → fetch P O key (after_put P O key script a) ≡ fetch P O key a
      own key none = refl
      own key (some c) = let same = kept key script c in rw (same, fetch) refl

  -- On a store that keeps an object when a write of it fails: whatever a transaction holds and whichever
  -- writes fail, a formation that could be read before it can be read after it, for every address, at
  -- the same or a later timestamp.
  pub get_contract_formation-handle_tx :
      (outputs tx_out : List Bytes) (st st' : Option Contents) (ra : RawAddress)
      (g : ContractFormation)
      → KeepsObjects
      → handle_tx P O B is_test outputs tx_out st ≡ ok st'
      → get_contract_formation P O B is_test ra st ≡ ok g
      → (g' : ContractFormation) × (get_contract_formation P O B is_test ra st' ≡ ok g')
        × (g.timestamp ≤ g'.timestamp)
  get_contract_formation-handle_tx outputs tx_out st st' ra g kept h e =
      handle_tx-induction (NoOlder ra) (λ a x q. (x, q, omega arith))
        (λ a b c p q x r.
          let (y, r', le) = p x r in let (z, r'', le') = q y r' in (z, r'', omega arith))
        outputs tx_out st st' (λ rb. save-NoOlder rb ra)
        (λ rb script a x q. (
          x,
          unfold get_contract_formation in
              rw
                (
                  fetch-after_save rb (formation_key P O B is_test ra) script a kept,
                  get_contract_formation,
                )
                (unfold get_contract_formation in q),
          omega arith,
        ))
        h g e

  -- No transaction changes the next message id.
  pub get_next_message_id-handle_tx :
      (outputs tx_out : List Bytes) (st st' : Option Contents)
      → handle_tx P O B is_test outputs tx_out st ≡ ok st'
      → get_next_message_id P O st' ≡ get_next_message_id P O st
  unfolding get_next_message_id
  get_next_message_id-handle_tx outputs tx_out st st' h =
      let same =
        handle_tx-induction
          (λ a b. fetch P O chainstate_storage_key b ≡ fetch P O chainstate_storage_key a)
          (λ a. refl) (λ a b c p q. q ∙ p) outputs tx_out st st'
          (λ ra f script a b d s.
            fetch-save_contract_formation P O B is_test ra f chainstate_storage_key script a b
              (λ e. formation_key-ne-chainstate_storage_key P O B is_test ra (sym e)) s)
          (λ ra script a.
            fetch-after_save_ne ra chainstate_storage_key script a
              (λ e. formation_key-ne-chainstate_storage_key P O B is_test ra (sym e)))
          h in
      rw (same, get_next_message_id) refl
