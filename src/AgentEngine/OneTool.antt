-- ===== src/AgentEngine/OneTool.antt =====
-- What `run_tool` of api/agent_engine.py accepts.
use googlecloudhack.Prelude.{
  String, ◌==◌, Bool, true, false, not, ◌≡◌, refl, ◌⊎◌, inl, inr, List, [], ◌∷◌, any, concat, Error,
  Result, ok, err, agent_diagnosis_parse_error, ◌>>=◌,
}
use googlecloudhack.Externals.{Externals}
use googlecloudhack.Value.{Value, Fields}
use googlecloudhack.AgentEngine.Clients.{
  AgentEngineRoleClient, Stream, payloads_of, chunks, all_responses, one_match, select_match,
  run_tool, not_one,
}

-- a response of another tool
abbrev is_unexpected : String → String × Fields → Bool
is_unexpected tool_name r = not (r.0 == tool_name)

one_match_cases :
    (payloads : List Fields) (unexpected : Bool) (exc : Error) (said : String)
    → ((payload : Fields) × (one_match payloads unexpected exc said ≡ ok (said, payload)))
      ⊎ (one_match payloads unexpected exc said ≡ err exc)
one_match_cases [] unexpected exc said = inr refl
one_match_cases (payload ∷ []) false exc said = inl (payload, refl)
one_match_cases (payload ∷ []) true exc said = inr refl
one_match_cases (payload ∷ second ∷ payloads) unexpected exc said = inr refl

-- A result that is a value with a property, or an AgentDiagnosisParseError.
abbrev pub IsParsed {ℓ κ} : {T : Type ℓ} → (T → Type κ) → Result T → Type (ℓ ⊔ κ)
IsParsed {T} P r =
    ((t : T) × (r ≡ ok t) × P t) ⊎ ((m : String) × (r ≡ err (agent_diagnosis_parse_error m)))

pub IsParsed->>= {ℓ κ μ ν} :
    {S : Type ℓ} {T : Type κ} (P : S → Type μ) (Q : T → Type ν) (first : Result S)
    (next : S → Result T)
    → IsParsed P first
    → ((s : S) → P s → IsParsed Q (next s))
    → IsParsed Q (first >>= next)
IsParsed->>= P Q first next (inl (s, e, p)) keep = rw e (keep s p)
IsParsed->>= P Q first next (inr (m, e)) keep = inr (m, rw e refl)

-- what a call of an agent does whose stream ends
pub run_tool-IsParsed :
    (x : Externals) (stream : Stream) (client : AgentEngineRoleClient)
    (user_id tool_name prompt : String) (events : List Value)
    → stream client user_id prompt ≡ ok events
    → IsParsed (λ answer. Unit {0}) (run_tool x stream client user_id tool_name prompt)
unfolding run_tool select_match
run_tool-IsParsed x stream client user_id tool_name prompt events e =
    let responses = all_responses x events in
    elim (one_match_cases (payloads_of tool_name responses)
      (any (is_unexpected tool_name) responses)
      (agent_diagnosis_parse_error (not_one x client.resource_name tool_name responses))
      (concat (chunks x events))) [
        | inl (payload, h) ↦ inl ((concat (chunks x events), payload), rw e h, tt)
        | inr h ↦ inr (not_one x client.resource_name tool_name responses, rw e h)
      ]
