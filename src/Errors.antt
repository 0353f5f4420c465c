-- ===== src/Errors.antt =====
-- Errors and results. An operation returns a value, returns an error, or panics.
-- The sentinel errors are the package variables of internal/oracle/models.go,
-- internal/platform/db/db.go and internal/platform/web/response.go. The package
-- github.com/pkg/errors, whose code is not here, is the parameter `ErrorsPkg`.
pub mod Plain
pub mod Inversion
use identity_oracle.Prelude.{ℕ, String, ◌≡◌, refl, ◌⊎◌, inl, inr, List}

-- What a call ends in.
pub data Outcome (E A : Type 0) : Type 0 where
  ok : A → Outcome E A
  err : E → Outcome E A
  panic : Outcome E A

infixl 5 ◌>>=◌ ◌>>◌
abbrev pub ◌>>=◌ : {E A B : Type 0} → Outcome E A → (A → Outcome E B) → Outcome E B
ok a >>= f = f a
err e >>= f = err e
panic >>= f = panic

abbrev pub ◌>>◌ : {E B : Type 0} → Outcome E (Unit {0}) → Outcome E B → Outcome E B
m >> k = m >>= λ _. k

pub Outcome-cases :
    {E A : Type 0} (r : Outcome E A)
    → ((a : A) × (r ≡ ok a)) ⊎ (((e : E) × (r ≡ err e)) ⊎ (r ≡ panic))
Outcome-cases (ok a) = inl (a, refl)
Outcome-cases (err e) = inr (inl (e, refl))
Outcome-cases panic = inr (inr refl)

-- The text of an error or of a description. A formatted text is kept as its format's words and
-- its arguments.
pub data Text : Type 0 where
  empty : Text
  literal : String → Text
  numbered : String → ℕ → Text
  got_want : String → ℕ → ℕ → Text

pub data OracleError : Type 0 where
  xpub_not_found user_not_found invalid_signature : OracleError

pub data DbError : Type 0 where
  invalid_db_provided db_not_found : DbError

pub data WebError : Type 0 where
  not_healthy web_not_found invalid_id validation unauthorized forbidden : WebError

-- Sentinels of packages that the program compares against: `storage.ErrNotFound` and
-- `sql.ErrNoRows`.
pub data ForeignError : Type 0 where
  storage_not_found no_rows : ForeignError

pub data Sentinel : Type 0 where
  of_oracle : OracleError → Sentinel
  of_db : DbError → Sentinel
  of_web : WebError → Sentinel
  of_foreign : ForeignError → Sentinel

-- One entry of a validation error: the field and the tag that it fails.
pub record Invalid : Type 0 where
  pub fld : String
  pub tag : String

-- What `==` on sentinels and a type switch can tell of an error value.
pub data Kind : Type 0 where
  is_sentinel : Sentinel → Kind
  is_invalid : List Invalid → Kind
  is_other : Kind

-- Error values. `sentinel s` is the package variable `s`, `plain t` a fresh `errors.New` or
-- `fmt.Errorf`, `invalid l` a `web.InvalidError`. The laws are the documented behaviour of `Wrap`,
-- `Cause` and `Error` for these.
pub record ErrorsPkg : Type 1 where
  pub Error : Type 0
  pub sentinel : Sentinel → Error
  pub plain : Text → Error
  pub invalid : List Invalid → Error
  pub wrap : Error → String → Error
  pub wrap_text : Error → Text → Error
  pub cause : Error → Error
  pub kind : Error → Kind
  pub message : Error → Text
  pub cause-sentinel : (s : Sentinel) → cause (sentinel s) ≡ sentinel s
  pub cause-plain : (t : Text) → cause (plain t) ≡ plain t
  pub cause-invalid : (l : List Invalid) → cause (invalid l) ≡ invalid l
  pub cause-wrap : (e : Error) (m : String) → cause (wrap e m) ≡ cause e
  pub cause-wrap_text : (e : Error) (m : Text) → cause (wrap_text e m) ≡ cause e
  pub kind-sentinel : (s : Sentinel) → kind (sentinel s) ≡ is_sentinel s
  pub kind-plain : (t : Text) → kind (plain t) ≡ is_other
  pub kind-invalid : (l : List Invalid) → kind (invalid l) ≡ is_invalid l
  pub kind-wrap : (e : Error) (m : String) → kind (wrap e m) ≡ is_other
  pub kind-wrap_text : (e : Error) (m : Text) → kind (wrap_text e m) ≡ is_other
  pub message-plain : (t : Text) → message (plain t) ≡ t

-- The kind of the error at the bottom of a chain of wraps, `errors.Cause(err)` compared.
abbrev pub cause_kind : (P : ErrorsPkg) → P.Error → Kind
cause_kind P e = P.kind (P.cause e)

-- `return x, errors.Wrap(err, text)` where a call failed.
abbrev pub with_context :
    (P : ErrorsPkg) {A : Type 0} → String → Outcome P.Error A → Outcome P.Error A
with_context P text (ok a) = ok a
with_context P text (err e) = err (P.wrap e text)
with_context P text panic = panic
