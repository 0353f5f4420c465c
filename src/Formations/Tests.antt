-- ===== src/Formations/Tests.antt =====
-- Contract formations at concrete inputs, on a store in memory.
use identity_oracle.Prelude.{ℕ, ◌≡◌, refl, ◌≤◌, true, false, Option, none, some, List, [], ◌∷◌}
use identity_oracle.Errors.{ok}
use identity_oracle.Errors.Plain.{plain_errors}
use identity_oracle.Storage.{Bytes, put, fetch}
use identity_oracle.Storage.Memory.{memory}
use identity_oracle.Formations.{
  ContractFormation, formation_key, get_contract_formation, save_contract_formation,
  write_formation, replace_formation, handle_tx, handle_outputs, handle_output, hex, join_path,
  contracts_storage_key,
}
use identity_oracle.Formations.Transactions.{get_contract_formation-handle_tx}
use identity_oracle.Samples.{two_contracts}

abbrev formation : ℕ → ContractFormation
formation n = record { timestamp = n; issuer = none }

abbrev key : Bytes
key = join_path contracts_storage_key (97 ∷ 98 ∷ [])

abbrev at_five : Option (List (Bytes × Bytes))
at_five = some ((key, 5 ∷ []) ∷ [])

abbrev at_nine : Option (List (Bytes × Bytes))
at_nine = some ((key, 9 ∷ []) ∷ (key, 5 ∷ []) ∷ [])

save_nine :
    save_contract_formation plain_errors memory two_contracts false true
      (formation 9)
      (9 ∷ [])
      at_five
    ≡ ok at_nine
unfolding save_contract_formation replace_formation write_formation formation_key hex put fetch
save_nine = refl

get_five :
    get_contract_formation plain_errors memory two_contracts false true at_five ≡ ok (formation 5)
unfolding get_contract_formation formation_key hex fetch
get_five = refl

-- A transaction with an earlier formation, a later one, and an output that is none.
handled :
    handle_tx plain_errors memory two_contracts false
      ((1 ∷ []) ∷ [])
      ((3 ∷ []) ∷ (9 ∷ []) ∷ [] ∷ [])
      at_five
    ≡ ok at_nine
unfolding handle_tx handle_outputs handle_output save_contract_formation replace_formation
    write_formation formation_key hex put fetch
handled = refl

get_contract_formation-handle_tx_example :
    (g : ContractFormation) × (get_contract_formation plain_errors memory two_contracts false true
        at_nine
      ≡ ok g)
    × (5 ≤ g.timestamp)
get_contract_formation-handle_tx_example =
    get_contract_formation-handle_tx plain_errors memory two_contracts false ((1 ∷ []) ∷ [])
      ((3 ∷ []) ∷ (9 ∷ []) ∷ [] ∷ []) at_five at_nine true (formation 5) (λ key body c. refl)
      handled get_five
