-- ===== src/Formations/Saving.antt =====
-- `SaveContractFormation` keeps the formation with the latest timestamp, and touches nothing else.
use identity_oracle.Prelude.{
  ◌≡◌, ◌≢◌, ◌∙◌, sym, ap, refl, ltb, ◌⊎◌, inl, inr, Bool, Option, arith, if◌then◌else◌, Bool-cases,
}
use identity_oracle.Errors.{Outcome, ok, err, panic, Outcome-cases, ErrorsPkg}
use identity_oracle.Storage.{Bytes, ObjectStore, put, fetch}
use identity_oracle.Storage.Laws.{fetch-put_self, fetch-put_ne}
use identity_oracle.Formations.{
  ContractFormation, Action, contract_formation, other_action, Protocol, formation_key,
  get_contract_formation, write_formation, replace_formation, save_contract_formation,
}
use identity_oracle.Formations.Keys.{formation_key-injective}

-- The later of the formation that was readable, if one was, and the new one, which wins a tie.
abbrev pub newer :
    {E : Type 0} → Outcome E ContractFormation → ContractFormation → ContractFormation
newer (ok g) f = if ltb f.timestamp g.timestamp then g else f
newer (err e) f = f
newer panic f = f

module _ (P : ErrorsPkg) (O : ObjectStore P.Error) (B : Protocol P.Error) (is_test : Bool) where
  open P use {Error}
  open O use {Contents}
  open B use {RawAddress, deserialize}

  abbrev get : RawAddress → Option Contents → Outcome Error ContractFormation
  get = get_contract_formation P O B is_test

  -- A write that succeeds is a put of the script.
  write_formation-put :
      (ra : RawAddress) (script : Bytes) (st st' : Option Contents)
      → write_formation P O B is_test ra script st ≡ ok st'
      → put P O (formation_key P O B is_test ra) script st ≡ ok st'
  unfolding write_formation
  write_formation-put ra script st st' w = ground arith

  get-stored :
      (ra : RawAddress) (script : Bytes) (st : Option Contents) (f : ContractFormation)
      → fetch P O (formation_key P O B is_test ra) st ≡ ok script
      → deserialize script is_test ≡ ok (contract_formation f)
      → get ra st ≡ ok f
  unfolding get_contract_formation
  get-stored ra script st f s d = ground arith

  get-write_formation :
      (ra : RawAddress) (f : ContractFormation) (script : Bytes) (st st' : Option Contents)
      → deserialize script is_test ≡ ok (contract_formation f)
      → write_formation P O B is_test ra script st ≡ ok st'
      → get ra st' ≡ ok f
  get-write_formation ra f script st st' d w =
      get-stored ra script st' f
        (fetch-put_self P O (formation_key P O B is_test ra) script st st'
          (write_formation-put ra script st st' w))
        d

  -- Nothing was written and the stored formation is the later one, or the script was written and
  -- the new formation is.
  abbrev Saved : RawAddress → ContractFormation → Bytes → Option Contents → Option Contents → Type 0
  Saved ra f script st st' =
      ((st ≡ st') × (get ra st ≡ ok (newer (get ra st) f)))
      ⊎ ((write_formation P O B is_test ra script st ≡ ok st') × (newer (get ra st) f ≡ f))

  replace_formation-Saved :
      (ra : RawAddress) (f : ContractFormation) (script b : Bytes) (st st' : Option Contents)
      → fetch P O (formation_key P O B is_test ra) st ≡ ok b
      → (r : Outcome Error Action) → deserialize b is_test ≡ r
      → replace_formation P O B is_test ra f script r st ≡ ok st'
      → Saved ra f script st st'
  unfolding replace_formation
  replace_formation-Saved ra f script b st st' h (ok (contract_formation g)) d s =
      let found = get-stored ra b st g h d in
      elim (Bool-cases (ltb f.timestamp g.timestamp)) [
        | inl older ↦ inl (ground arith, rw found (rw older refl))
        | inr recent ↦ inr (ground arith, rw found (rw recent refl))
      ]
  replace_formation-Saved ra f script b st st' h (ok other_action) d s =
      inr (s, unfold get_contract_formation in ground arith)
  replace_formation-Saved ra f script b st st' h (err e) d s =
      inr (s, unfold get_contract_formation in ground arith)
  replace_formation-Saved ra f script b st st' h panic d s = cc

  save_contract_formation-Saved :
      (ra : RawAddress) (f : ContractFormation) (script : Bytes) (st st' : Option Contents)
      → save_contract_formation P O B is_test ra f script st ≡ ok st'
      → Saved ra f script st st'
  unfolding save_contract_formation
  save_contract_formation-Saved ra f script st st' s =
      elim (Outcome-cases (fetch P O (formation_key P O B is_test ra) st)) [
        | inl (b, h) ↦
            replace_formation-Saved ra f script b st st' h (deserialize b is_test) refl
              (rw (h, save_contract_formation) at s)
        | inr (inl (e, h)) ↦ inr (ground arith, unfold get_contract_formation in ground arith)
        | inr (inr h) ↦ absurd (ground arith)
      ]

  -- After a save that succeeds, what is read for the address is the later of what was read before
  -- and the new formation.
  pub get-save_contract_formation :
      (ra : RawAddress) (f : ContractFormation) (script : Bytes) (st st' : Option Contents)
      → deserialize script is_test ≡ ok (contract_formation f)
      → save_contract_formation P O B is_test ra f script st ≡ ok st'
      → get ra st' ≡ ok (newer (get ra st) f)
  unfolding save_contract_formation
  get-save_contract_formation ra f script st st' d s =
      elim (save_contract_formation-Saved ra f script st st' s) [
        | inl (kept, later) ↦ rw (← kept) later
        | inr (written, recent) ↦
            get-write_formation ra f script st st' d written ∙ sym (ap ok recent)
      ]

  -- A save for one address changes no formation that is read for another.
  pub get-save_contract_formation_ne :
      (ra rb : RawAddress) (f : ContractFormation) (script : Bytes) (st st' : Option Contents)
      → rb ≢ ra
      → save_contract_formation P O B is_test ra f script st ≡ ok st'
      → get rb st' ≡ get rb st
  get-save_contract_formation_ne ra rb f script st st' n s =
      elim (save_contract_formation-Saved ra f script st st' s) [
        | inl (kept, later) ↦ ap (get rb) (sym kept)
        | inr (written, recent) ↦
            let other =
              fetch-put_ne P O (formation_key P O B is_test ra) (formation_key P O B is_test rb)
                script st st' (λ e. n (formation_key-injective P O B is_test rb ra e))
                (write_formation-put ra script st st' written) in
            unfold get_contract_formation in rw other refl
      ]

  -- A save of a formation changes nothing that is fetched under a key that is not the address's.
  pub fetch-save_contract_formation :
      (ra : RawAddress) (f : ContractFormation) (key script : Bytes) (st st' : Option Contents)
      → key ≢ formation_key P O B is_test ra
      → save_contract_formation P O B is_test ra f script st ≡ ok st'
      → fetch P O key st' ≡ fetch P O key st
  fetch-save_contract_formation ra f key script st st' n s =
      elim (save_contract_formation-Saved ra f script st st' s) [
        | inl (kept, later) ↦ ap (fetch P O key) (sym kept)
        | inr (written, recent) ↦
            fetch-put_ne P O (formation_key P O B is_test ra) key script st st' n
              (write_formation-put ra script st st' written)
      ]
