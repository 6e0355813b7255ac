-- ===== src/Prelude/Errors.antt =====
-- Exceptions as values. A `ValidationError` of a model, a `WorkloadSpecError` and an
-- `InvalidPhaseTransition`, an `AgentDiagnosisParseError` and an `AgentEngineConfigError` are
-- subclasses of `ValueError`; a `TokenError` and a `VoyageMemoryError` are not; `raised` is any
-- exception of code outside the repository.
use Prim.Native.Nat.{ℕ}
use Prim.Native.String.{String}
use mathlib.Core.Path.{◌≡◌, refl}
use mathlib.Core.Bool.{Bool, true, false}
use googlecloudhack.Prelude.Tests.{if◌then◌else◌}
use mathlib.Core.Logic.{◌⊎◌, ◌↔◌, inl, inr}

pub data Error : Type 0 where
  value_error : String → Error
  validation_error : String → Error
  workload_spec_error : String → Error
  invalid_phase_transition : String → Error
  type_error : String → Error
  agent_diagnosis_parse_error : String → Error
  agent_engine_config_error : String → Error
  token_error : String → Error
  voyage_memory_error : String → Error
  http_exception : (status_code : ℕ) → (detail : String) → Error
  raised : String → Error

-- what `except ValueError` catches
abbrev pub is_value_error : Error → Bool
is_value_error (type_error s) = false
is_value_error (token_error s) = false
is_value_error (voyage_memory_error s) = false
is_value_error (http_exception n s) = false
is_value_error (raised s) = false
is_value_error _ = true

-- `str(exc)`
abbrev pub message : Error → String
message (value_error s) = s
message (validation_error s) = s
message (workload_spec_error s) = s
message (invalid_phase_transition s) = s
message (type_error s) = s
message (agent_diagnosis_parse_error s) = s
message (agent_engine_config_error s) = s
message (token_error s) = s
message (voyage_memory_error s) = s
message (http_exception n s) = s
message (raised s) = s

-- what a function that may raise returns
pub data Result {ℓ} (T : Type ℓ) : Type ℓ where
  err : Error → Result T
  ok : T → Result T

-- an exception skips what comes after it
infixl 5 ◌>>=◌ ◌>>◌
abbrev pub ◌>>=◌ {ℓ κ} : {S : Type ℓ} {T : Type κ} → Result S → (S → Result T) → Result T
err exc >>= next = err exc
ok s >>= next = next s

abbrev pub ◌>>◌ {κ} : {T : Type κ} → Result (Unit {0}) → Result T → Result T
err exc >> next = err exc
ok u >> next = next

-- `if c: raise e`
abbrev pub raise_if : Bool → Error → Result (Unit {0})
raise_if c exc = if c then err exc else ok tt

pub Result-cases {ℓ} :
    {T : Type ℓ} (r : Result T) → ((t : T) × (r ≡ ok t)) ⊎ ((exc : Error) × (r ≡ err exc))
Result-cases (err exc) = inr (exc, refl)
Result-cases (ok t) = inl (t, refl)

-- a sequence returns what its second part returns, after a first part that does not raise
pub >>-ok {κ} :
    {T : Type κ} (first : Result (Unit {0})) (second : Result T) (t : T)
    → ((first >> second) ≡ ok t) ↔ ((first ≡ ok tt) × (second ≡ ok t))
>>-ok (err exc) second t = (λ h. cc, λ (h, k). cc)
>>-ok (ok u) second t = (λ h. (refl, h), λ (h, k). k)

-- a guard lets a sequence go on where its condition does not hold
pub raise_if-ok {κ} :
    {T : Type κ} (c : Bool) (exc : Error) (next : Result T) (t : T)
    → ((raise_if c exc >> next) ≡ ok t) ↔ ((c ≡ false) × (next ≡ ok t))
raise_if-ok true exc next t = (λ h. cc, λ (h, k). cc)
raise_if-ok false exc next t = (λ h. (refl, h), λ (h, k). k)

-- a chain returns what its second step returns on the value of the first
pub >>=-ok {ℓ κ} :
    {S : Type ℓ} {T : Type κ} (first : Result S) (next : S → Result T) (t : T)
    → ((first >>= next) ≡ ok t) ↔ ((s : S) × (first ≡ ok s) × (next s ≡ ok t))
>>=-ok (err exc) next t = (λ h. cc, λ (s, h, k). cc)
>>=-ok (ok u) next t = (λ h. (u, refl, h), λ (s, h, k). cc)

-- a chain raises what its first step raises, or what its second step raises on the value of the first
pub >>=-err {ℓ κ} :
    {S : Type ℓ} {T : Type κ} (first : Result S) (next : S → Result T) (exc : Error)
    → (first >>= next) ≡ err exc
    → (first ≡ err exc) ⊎ ((s : S) × (first ≡ ok s) × (next s ≡ err exc))
>>=-err (err e) next exc h = inl cc
>>=-err (ok u) next exc h = inr (u, refl, h)
