-- ===== src/MessageId/Tests.antt =====
-- The message id at concrete inputs, on a store in memory.
use identity_oracle.Prelude.{◌≡◌, refl, Option, some, List, [], ◌∷◌}
use identity_oracle.Errors.{ok}
use identity_oracle.Errors.Plain.{plain_errors}
use identity_oracle.Storage.{Bytes, put}
use identity_oracle.Storage.Memory.{memory}
use identity_oracle.MessageId.{chainstate_storage_key, write_bytes, save_next_message_id}

abbrev saved : Option (List (Bytes × Bytes))
saved = some ((chainstate_storage_key, 0 ∷ 44 ∷ 1 ∷ 0 ∷ 0 ∷ 0 ∷ 0 ∷ 0 ∷ 0 ∷ []) ∷ [])

save_300 : save_next_message_id plain_errors memory 300 (some []) ≡ ok saved
unfolding save_next_message_id put write_bytes
save_300 = refl
