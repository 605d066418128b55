-- ===== src/Shared/Result.antt =====
-- Errors as values: the `ContractError` of contracts/dca/src/error.rs and of
-- contracts/exchanges/*/src/error.rs, with the `StdError`s that the sources raise, and the
-- result of a fallible call.
-- A message built by `format!` is kept as its template with the list of its arguments.
-- `panic` is an `unwrap`, an `expect` or an arithmetic operator that aborts the transaction.
use bounties.Prelude.{ℕ, String, ◌≡◌, refl, Bool, true, false, Option, none, some, List}

pub data Argument : Type 0 where
  text : String → Argument
  number : ℕ → Argument
  decimal : ℕ → Argument
  coin : ℕ → String → Argument

pub data StdError : Type 0 where
  generic_err : String → List Argument → StdError
  parse_err : String → String → StdError
  not_found : String → StdError
  overflow : StdError

pub data ContractError : Type 0 where
  std : StdError → ContractError
  unauthorized : ContractError
  custom_error : String → List Argument → ContractError
  invalid_funds : String → ContractError
  failed_swap : List Argument → ContractError
  bad_route : String → List Argument → ContractError
  missing_reply_id : ContractError
  panic : ContractError

pub data Result {ℓ} (T : Type ℓ) : Type ℓ where
  err : ContractError → Result T
  ok : T → Result T

-- `Result<(), ContractError>`
abbrev pub Check : Type 0
Check = Result (Unit {0})

-- Whether a call was accepted.
abbrev pub is_ok {ℓ} : {T : Type ℓ} → Result T → Bool
is_ok (err _) = false
is_ok (ok _) = true

-- The operator `?`, and what follows it.
infixl 5 ◌>>=◌ ◌>>◌
abbrev pub ◌>>=◌ {ℓ κ} : {T : Type ℓ} {B : Type κ} → Result T → (T → Result B) → Result B
err error >>= next = err error
ok value >>= next = next value

-- An early `return Err(e)` under a test.
abbrev pub fail_if : Bool → ContractError → Check
fail_if true error = err error
fail_if false error = ok tt

abbrev pub ◌>>◌ {ℓ} : {B : Type ℓ} → Check → Result B → Result B
check >> next = check >>= λ passed. next

-- `Option::ok_or`, `expect` and `unwrap`.
abbrev pub or_err {ℓ} : {T : Type ℓ} → Option T → ContractError → Result T
or_err (some value) error = ok value
or_err none error = err error

pub or_err-eq-ok {ℓ} :
    {T : Type ℓ} (o : Option T) (error : ContractError) (value : T)
    → or_err o error ≡ ok value
    → o ≡ some value
or_err-eq-ok (some found) error value h = cc
or_err-eq-ok none error value h = cc

-- A call that succeeds got past its `?`.
pub >>=-eq-ok {ℓ κ} :
    {T : Type ℓ} {B : Type κ} (call : Result T) (next : T → Result B) {b : B}
    → (call >>= next) ≡ ok b
    → (value : T) × (call ≡ ok value) × (next value ≡ ok b)
>>=-eq-ok (err error) next h = cc
>>=-eq-ok (ok value) next h = (value, refl, h)

-- A call whose outcome is known goes on with its value.
pub go_on {ℓ κ} :
    {T : Type ℓ} {B : Type κ} (call : Result T) (next : T → Result B) (value : T) {b : Result B}
    → call ≡ ok value
    → (call >>= next) ≡ b
    → next value ≡ b
go_on call next value e h = rw e at h

pub ok-eq {ℓ} : {T : Type ℓ} (a b : T) → ok a ≡ ok b → a ≡ b
ok-eq a b h = cc
