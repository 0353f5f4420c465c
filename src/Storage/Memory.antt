-- ===== src/Storage/Memory.antt =====
-- A store in memory, at which the theorems with an `ObjectStore` parameter are tested.
use identity_oracle.Prelude.{refl, ◌≡◌, ◌≢◌, List, [], ◌∷◌, arith, if◌then◌else◌}
use identity_oracle.Errors.{Outcome, ok, err, of_foreign, storage_not_found}
use identity_oracle.Errors.Plain.{PlainError, sentinel}
use identity_oracle.Prelude.Keys.{same_key, same_key_iff}
use identity_oracle.Storage.{Bytes, ObjectStore}

abbrev read : Bytes → List (Bytes × Bytes) → Outcome PlainError Bytes
read key [] = err (sentinel (of_foreign storage_not_found))
read key ((k, body) ∷ rest) = if same_key key k then ok body else read key rest

abbrev write : Bytes → Bytes → List (Bytes × Bytes) → Outcome PlainError (List (Bytes × Bytes))
write key body c = ok ((key, body) ∷ c)

pub read-write_self :
    (key body : Bytes) (c c' : List (Bytes × Bytes))
    → write key body c ≡ ok c'
    → read key c' ≡ ok body
read-write_self key body c c' w = ground (arith, same_key_iff key key)

pub read-write_ne :
    (key other body : Bytes) (c c' : List (Bytes × Bytes))
    → other ≢ key
    → write key body c ≡ ok c'
    → read other c' ≡ read other c
read-write_ne key other body c c' n w = ground (arith, same_key_iff other key)

abbrev pub memory : ObjectStore PlainError
memory = record {
  Contents = List (Bytes × Bytes);
  read = read;
  write = write;
  after_failure = λ key body c. c;
  read-write_self = read-write_self;
  read-write_ne = read-write_ne;
  read-after_failure = λ key other body c n. refl;
}
