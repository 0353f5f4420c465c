-- ===== src/Consistency/Tests.antt =====
-- The tables at concrete inputs.
use identity_oracle.Prelude.{ℕ, ◌≡◌, refl, [], ◌∷◌, inl, false}
use identity_oracle.Prelude.Equality.{string_comparable}
use identity_oracle.Prelude.Keys.{bytes_comparable}
use identity_oracle.Errors.{ok}
use identity_oracle.Errors.Plain.{plain_errors}
use identity_oracle.Entity.Subset.{Among}
use identity_oracle.Storage.{codes}
use identity_oracle.Database.{User, Tables, rows_where, get, execute}
use identity_oracle.Users.{
  user_rows, user_rows_by_xpub, fetch_user, fetch_user_by_xpub, update_user,
}
use identity_oracle.Consistency.{IsConsistent}
use identity_oracle.Consistency.Lookup.{fetch_user_by_xpub-Owns}
use identity_oracle.Consistency.Selection.{Owns}
use identity_oracle.Samples.{first_row, simple, alice, with_alice}

abbrev renamed : User ℕ
renamed = record alice { entity = codes "Renamed" }

abbrev after_rename : Tables ℕ
after_rename = record with_alice { users = record renamed { date_modified = 9 } ∷ [] }

pub with_alice-IsConsistent : IsConsistent with_alice
with_alice-IsConsistent = record {
  user_ids = (tt, tt);
  xpub_ids = (tt, tt);
  owners = (tt, tt);
  references = (inl refl, tt);
}

fetch_alice : fetch_user plain_errors first_row "alice" with_alice ≡ ok alice
unfolding fetch_user get user_rows rows_where
fetch_alice = refl

rename_alice :
    update_user plain_errors first_row simple.unmarshal_entity 9 renamed with_alice
    ≡ ok after_rename
unfolding update_user execute
rename_alice = refl

fetch_by_key : fetch_user_by_xpub plain_errors first_row (7 ∷ []) with_alice ≡ ok alice
unfolding fetch_user_by_xpub get user_rows_by_xpub rows_where
fetch_by_key = refl

fetch_user_by_xpub-Owns_example :
    Among alice with_alice.users × (alice.is_deleted ≡ false) × Owns with_alice (7 ∷ []) alice
fetch_user_by_xpub-Owns_example =
    fetch_user_by_xpub-Owns plain_errors first_row (7 ∷ []) with_alice alice fetch_by_key
