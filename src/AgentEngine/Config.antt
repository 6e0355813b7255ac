-- ===== src/AgentEngine/Config.antt =====
-- Which agents a deployment uses: `from_env` of the two clients and `diagnosis_agent_from_env` of
-- api/agent_engine.py. The environment is a parameter, a function from names to values.
use googlecloudhack.Prelude.{
  ℕ, suc, Error, String, Bool, true, false, ◌&&◌, not, is_empty, elem, nat_eq, length, Option, none,
  some, List, [], ◌∷◌, map, is_nil, concat, join, Result, ok, agent_engine_config_error,
  if◌then◌else◌, ◌>>=◌, ◌>>◌, raise_if,
}
use googlecloudhack.Json.Sorting.{sort_by}
use googlecloudhack.AgentEngine.Clients.{AgentEngineRoleClient, AgentEngineDiagnosisPipeline}

abbrev pub diagnose_resource_env : String
diagnose_resource_env = "AGENT_ENGINE_DIAGNOSE_RESOURCE"

abbrev pub candidate_resource_env : String
candidate_resource_env = "AGENT_ENGINE_CANDIDATE_RESOURCE"

abbrev pub rationale_resource_env : String
rationale_resource_env = "AGENT_ENGINE_RATIONALE_RESOURCE"

abbrev pub legacy_resource_env : String
legacy_resource_env = "AGENT_ENGINE_RESOURCE"

-- `SPLIT_AGENT_RESOURCE_ENVS`
abbrev pub split_resource_envs : List String
split_resource_envs = diagnose_resource_env ∷ candidate_resource_env ∷ rationale_resource_env ∷ []

-- `AgentEngineDiagnosisClient`
pub record AgentEngineDiagnosisClient : Type 0 where
  pub resource_name : String
  pub project : Option String
  pub location : Option String

pub data DiagnosisAgent : Type 0 where
  split : AgentEngineDiagnosisPipeline → DiagnosisAgent
  legacy : AgentEngineDiagnosisClient → DiagnosisAgent

-- `value or ""`
abbrev pub or_blank : Option String → String
or_blank none = ""
or_blank (some s) = s

abbrev pub or_default : String → Option String → String
or_default s none = s
or_default s (some t) = t

-- the names that `keep` takes
abbrev pub names_where : (String → Bool) → List String → List String
names_where keep [] = []
names_where keep (name ∷ names) =
    let rest = names_where keep names in if keep name then name ∷ rest else rest

-- `len(set(values))`
abbrev pub count_distinct : List String → ℕ
count_distinct [] = 0
count_distinct (s ∷ ss) = let rest = count_distinct ss in if elem s ss then rest else suc rest

abbrev pub legacy_refused : Error
legacy_refused =
    agent_engine_config_error
      "AGENT_ENGINE_RESOURCE is legacy-only; production must use the three split Agent Engine resource env vars"

module _ (strip : String → String) (environ : String → Option String) where
  -- `(os.environ.get(name) or "").strip()`
  unfoldable pub resource_of : String → String
  resource_of name = strip (or_blank (environ name))

  abbrev pub configured : List String
  configured = names_where (λ name. not (is_empty (resource_of name))) split_resource_envs

  abbrev pub missing : List String
  missing =
      sort_by (λ name. name) (names_where (λ name. is_empty (resource_of name)) split_resource_envs)

  abbrev pub role_client : String → AgentEngineRoleClient
  role_client name = record {
    resource_name = resource_of name;
    project = environ "GOOGLE_CLOUD_PROJECT";
    location = some (or_default "us-central1" (environ "GOOGLE_CLOUD_LOCATION"));
  }

  abbrev pub configured_pipeline : AgentEngineDiagnosisPipeline
  configured_pipeline = record {
    diagnose_agent = role_client diagnose_resource_env;
    candidate_agent = role_client candidate_resource_env;
    rationale_agent = role_client rationale_resource_env;
  }

  -- `AgentEngineDiagnosisPipeline.from_env`
  unfoldable pub pipeline_from_env :
      (required : Bool) → Result (Option AgentEngineDiagnosisPipeline)
  pipeline_from_env required =
      if is_nil configured
      then raise_if required (
          agent_engine_config_error
            "all three split Agent Engine resources are required for production /run")
        >> ok none
      else do
        raise_if (not (nat_eq (length configured) (length split_resource_envs))) (
            agent_engine_config_error (
              concat (
                "split Agent Engine resources are partially configured; missing "
                ∷ join ", " missing
                ∷ [])))
        raise_if
            (not
              (nat_eq (count_distinct (map resource_of configured)) (length split_resource_envs)))
            (agent_engine_config_error
              "split Agent Engine resources must be three distinct deployed agents")
        ok (some configured_pipeline)

  -- `AgentEngineDiagnosisClient.from_env`
  unfoldable pub client_from_env : Option AgentEngineDiagnosisClient
  client_from_env =
      let resource_name = or_blank (environ legacy_resource_env) in
      if is_empty resource_name
      then none
      else some (record {
        resource_name = resource_name;
        project = environ "GOOGLE_CLOUD_PROJECT";
        location = some (or_default "us-central1" (environ "GOOGLE_CLOUD_LOCATION"));
      })

  abbrev pub or_legacy :
      (allow_legacy : Bool) → Option AgentEngineDiagnosisPipeline → Option DiagnosisAgent
  or_legacy allow_legacy (some pipeline) = some (DiagnosisAgent.split pipeline)
  or_legacy false none = none
  or_legacy true none = elim client_from_env [
    | none ↦ none
    | some client ↦ some (DiagnosisAgent.legacy client)
  ]

  unfoldable pub diagnosis_agent_from_env :
      (require_split allow_legacy : Bool) → Result (Option DiagnosisAgent)
  diagnosis_agent_from_env require_split allow_legacy = do
    raise_if (require_split && not (is_empty (or_blank (environ legacy_resource_env))))
        legacy_refused
    found ← pipeline_from_env require_split
    ok (or_legacy allow_legacy found)
