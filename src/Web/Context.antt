-- ===== src/Web/Context.antt =====
-- internal/platform/web/context.go: the values of a request's context, the latest first. A value is
-- found under its key whatever its type is; the package bitcoin's networks are the type `Network`,
-- and `test_net` is the one for tests.
use identity_oracle.Prelude.{
  ◌≡◌, refl, Bool, true, false, Option, none, some, List, [], ◌∷◌, if◌then◌else◌,
}

pub data CtxKey : Type 0 where
  key_values net_key test_key : CtxKey

abbrev pub same_ctx_key : CtxKey → CtxKey → Bool
same_ctx_key key_values key_values = true
same_ctx_key net_key net_key = true
same_ctx_key test_key test_key = true
same_ctx_key _ _ = false

-- A value of any type: a network, a Boolean, or the `Values` of the request.
pub data CtxValue (Network Values : Type 0) : Type 0 where
  network_value : Network → CtxValue Network Values
  bool_value : Bool → CtxValue Network Values
  request_values : Values → CtxValue Network Values

abbrev pub Context : Type 0 → Type 0 → Type 0
Context Network Values = List (CtxKey × CtxValue Network Values)

module _ {Network Values : Type 0} where
  abbrev pub with_value :
      CtxKey → CtxValue Network Values → Context Network Values → Context Network Values
  with_value key v ctx = (key, v) ∷ ctx

  -- `ctx.Value`, nil for a key that is not there.
  unfoldable pub value : CtxKey → Context Network Values → Option (CtxValue Network Values)
  value key [] = none
  value key ((k, v) ∷ ctx) = if same_ctx_key k key then some v else value key ctx

  unfoldable pub context_network : Network → Context Network Values → Network
  unfolding value
  context_network test_net ctx = elim (value net_key ctx) [
    | none ↦ test_net
    | some (network_value net) ↦ net
    | some (bool_value b) ↦ test_net
    | some (request_values v) ↦ test_net
  ]

  unfoldable pub context_test_mode : Context Network Values → Bool
  unfolding value
  context_test_mode ctx = elim (value test_key ctx) [
    | none ↦ true
    | some (bool_value b) ↦ b
    | some (network_value net) ↦ true
    | some (request_values v) ↦ true
  ]

  abbrev pub context_with_values : Network → Bool → Context Network Values → Context Network Values
  context_with_values net is_test ctx =
      with_value test_key (bool_value is_test) (with_value net_key (network_value net) ctx)

  -- A handler reads the network and the test mode that its application is configured with, under the
  -- `Values` that `Handle` adds, whatever the context had before.
  pub context-handle :
      (test_net net : Network) (is_test : Bool) (v : Values) (ctx : Context Network Values)
      → let here = with_value key_values (request_values v) (context_with_values net is_test ctx) in
        (context_network test_net here ≡ net) × (context_test_mode here ≡ is_test)
  unfolding context_network context_test_mode
  context-handle test_net net is_test v ctx = (refl, refl)
