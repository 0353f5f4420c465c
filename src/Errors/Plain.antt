-- ===== src/Errors/Plain.antt =====
-- A concrete error package, at which the theorems with an `ErrorsPkg` parameter are tested.
use identity_oracle.Prelude.{String, refl, List}
use identity_oracle.Errors.{
  Text, empty, Sentinel, Invalid, Kind, is_sentinel, is_invalid, is_other, ErrorsPkg,
}

pub data PlainError : Type 0 where
  sentinel : Sentinel → PlainError
  plain : Text → PlainError
  invalid : List Invalid → PlainError
  wrapped : PlainError → String → PlainError
  wrapped_text : PlainError → Text → PlainError

abbrev cause : PlainError → PlainError
cause (wrapped e m) = cause e
cause (wrapped_text e m) = cause e
cause (sentinel s) = sentinel s
cause (plain t) = plain t
cause (invalid l) = invalid l

abbrev kind : PlainError → Kind
kind (sentinel s) = is_sentinel s
kind (plain t) = is_other
kind (invalid l) = is_invalid l
kind (wrapped e m) = is_other
kind (wrapped_text e m) = is_other

abbrev message : PlainError → Text
message (plain t) = t
message (sentinel s) = empty
message (invalid l) = empty
message (wrapped e m) = message e
message (wrapped_text e m) = m

abbrev pub plain_errors : ErrorsPkg
plain_errors = record {
  Error = PlainError;
  sentinel = sentinel;
  plain = plain;
  invalid = invalid;
  wrap = wrapped;
  wrap_text = wrapped_text;
  cause = cause;
  kind = kind;
  message = message;
  cause-sentinel = λ s. refl;
  cause-plain = λ t. refl;
  cause-invalid = λ l. refl;
  cause-wrap = λ e m. refl;
  cause-wrap_text = λ e m. refl;
  kind-sentinel = λ s. refl;
  kind-plain = λ t. refl;
  kind-invalid = λ l. refl;
  kind-wrap = λ e m. refl;
  kind-wrap_text = λ e m. refl;
  message-plain = λ t. refl;
}
