-- ===== src/Python/Error.antt =====
-- Python exceptions. A function that may raise returns a `Result`.
use context_control_plane.Base.{String, ◌≡◌, refl}

-- The exception classes that the sources raise, with their message. The three configuration errors
-- and the two load errors are subclasses of `ValueError`.
pub data Error : Type 0 where
  value_error type_error gateway_error secret_error mcp_error load_error pack_error : String → Error

-- `str(exc)`
abbrev pub message : Error → String
message (value_error m) = m
message (type_error m) = m
message (gateway_error m) = m
message (secret_error m) = m
message (mcp_error m) = m
message (load_error m) = m
message (pack_error m) = m

pub data Result {ℓ} (A : Type ℓ) : Type ℓ where
  ok : A → Result A
  err : Error → Result A

infixl 5 ◌>>=◌
abbrev pub ◌>>=◌ {ℓ κ} : {A : Type ℓ} {B : Type κ} → Result A → (A → Result B) → Result B
ok a >>= f = f a
err e >>= f = err e

-- `except SecretConfigurationError as exc: raise ValueError(str(exc)) from exc`
abbrev pub secret_as_value {ℓ} : {A : Type ℓ} → Result A → Result A
secret_as_value (ok a) = ok a
secret_as_value (err (secret_error m)) = err (value_error m)
secret_as_value (err e) = err e

-- `except (GatewayConfigurationError, ValueError) as exc: raise ValueError(str(exc)) from exc`
abbrev pub any_value {ℓ} : {A : Type ℓ} → Result A → Result A
any_value (ok a) = ok a
any_value (err (type_error m)) = err (type_error m)
any_value (err e) = err (value_error (message e))

-- A call that raises ends the chain: a chain that returns has been through a call that returned.
pub >>=-eq-ok {ℓ κ} :
    {A : Type ℓ} {B : Type κ} {last : B} (call : Result A) (next : A → Result B)
    → (call >>= next) ≡ ok last
    → (got : A) × (call ≡ ok got) × (next got ≡ ok last)
>>=-eq-ok (err raised) next chain = cc
>>=-eq-ok (ok got) next chain = (got, refl, chain)

pub ok_injective {ℓ} : {A : Type ℓ} {a b : A} → ok a ≡ ok b → a ≡ b
ok_injective h = cc
