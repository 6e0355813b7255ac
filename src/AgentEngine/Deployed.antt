-- ===== src/AgentEngine/Deployed.antt =====
-- What the environment must hold for `diagnosis_agent_from_env` of api/agent_engine.py in production.
use googlecloudhack.Prelude.{
  Error, agent_engine_config_error, Result-cases, String, Bool, true, false, is_empty, ◌==◌, ◌≡◌,
  refl, ◌↔◌, ◌⊎◌, inl, inr, Option, Option-cases, none, some, ok, err, arith, Bool-cases,
}
use googlecloudhack.AgentEngine.Clients.{AgentEngineRoleClient, AgentEngineDiagnosisPipeline}
use googlecloudhack.AgentEngine.Config.{
  legacy_resource_env, or_blank, resource_of, legacy_refused, configured_pipeline, DiagnosisAgent,
  pipeline_from_env, diagnosis_agent_from_env,
}

-- an AgentEngineConfigError
abbrev pub is_config_error : Error → Bool
is_config_error (agent_engine_config_error m) = true
is_config_error _ = false

-- the variable of the agent that runs all the tools is empty or unset
abbrev pub HasNoLegacy : (environ : String → Option String) → Type 0
HasNoLegacy environ = is_empty (or_blank (environ "AGENT_ENGINE_RESOURCE")) ≡ true

module _ (strip : String → String) (environ : String → Option String) where
  abbrev pub diagnose_resource : String
  diagnose_resource = strip (or_blank (environ "AGENT_ENGINE_DIAGNOSE_RESOURCE"))

  abbrev pub candidate_resource : String
  candidate_resource = strip (or_blank (environ "AGENT_ENGINE_CANDIDATE_RESOURCE"))

  abbrev pub rationale_resource : String
  rationale_resource = strip (or_blank (environ "AGENT_ENGINE_RATIONALE_RESOURCE"))

  -- the agent that a variable names, in the project and at the location of the environment
  abbrev pub agent_at : (resource : String) → AgentEngineRoleClient
  agent_at resource = record {
    resource_name = resource;
    project = environ "GOOGLE_CLOUD_PROJECT";
    location = elim (environ "GOOGLE_CLOUD_LOCATION") [
      | none ↦ some "us-central1"
      | some l ↦ some l
    ];
  }

  -- three names of agents, all distinct
  pub record IsDeployed : Type 0 where
    pub diagnose_given : is_empty diagnose_resource ≡ false
    pub candidate_given : is_empty candidate_resource ≡ false
    pub rationale_given : is_empty rationale_resource ≡ false
    pub diagnose_candidate : (diagnose_resource == candidate_resource) ≡ false
    pub diagnose_rationale : (diagnose_resource == rationale_resource) ≡ false
    pub candidate_rationale : (candidate_resource == rationale_resource) ≡ false

  configured_pipeline_lem : configured_pipeline strip environ ≡ record {
    diagnose_agent = agent_at diagnose_resource;
    candidate_agent = agent_at candidate_resource;
    rationale_agent = agent_at rationale_resource;
  }
  unfolding resource_of
  configured_pipeline_lem = elim (Option-cases (environ "GOOGLE_CLOUD_LOCATION")) [
    | inl e ↦ rw e refl
    | inr (l, e) ↦ rw e refl
  ]

  required_iff :
      (found : Option AgentEngineDiagnosisPipeline)
      → (pipeline_from_env strip environ true ≡ ok found)
        ↔ (IsDeployed × (found ≡ some (configured_pipeline strip environ)))
  unfolding pipeline_from_env resource_of
  required_iff found = (λ h. ground (arith), λ (d, e). ground (arith))

  required_refused :
      (exc : Error) → pipeline_from_env strip environ true ≡ err exc → is_config_error exc ≡ true
  unfolding pipeline_from_env
  required_refused exc h = ground arith

  required_cases :
      (IsDeployed
        × (pipeline_from_env strip environ true ≡ ok (some (configured_pipeline strip environ))))
      ⊎ ((¬ IsDeployed)
          × ((exc : Error) × (pipeline_from_env strip environ true ≡ err exc)
              × (is_config_error exc ≡ true)))
  required_cases = elim (Result-cases (pipeline_from_env strip environ true)) [
    | inl (found, h) ↦ let (deployed, same) = (required_iff found).0 h in inl (deployed, cc)
    | inr (exc, h) ↦
        let not_deployed : ¬ IsDeployed = λ deployed.
          let e = (required_iff (some (configured_pipeline strip environ))).1 (deployed, refl) in
          cc in
        inr (not_deployed, (exc, h, required_refused exc h))
  ]

-- In production the agents are found exactly when AGENT_ENGINE_RESOURCE is empty or unset and the
-- variables AGENT_ENGINE_DIAGNOSE_RESOURCE, AGENT_ENGINE_CANDIDATE_RESOURCE and
-- AGENT_ENGINE_RATIONALE_RESOURCE, stripped, name three distinct agents; each role then has the agent of
-- its variable, in the project and at the location of the environment. Every other environment is
-- refused with an AgentEngineConfigError.
pub diagnosis_agent_from_env_required :
    (strip : String → String) (environ : String → Option String) (allow_legacy : Bool)
    → (HasNoLegacy environ
        × IsDeployed strip environ
        × (diagnosis_agent_from_env strip environ true allow_legacy
            ≡ ok (
                some (
                  DiagnosisAgent.split (record {
                    diagnose_agent = agent_at strip environ (diagnose_resource strip environ);
                    candidate_agent = agent_at strip environ (candidate_resource strip environ);
                    rationale_agent = agent_at strip environ (rationale_resource strip environ);
                  })))))
      ⊎ ((¬ (HasNoLegacy environ × IsDeployed strip environ))
          × ((exc : Error) × (diagnosis_agent_from_env strip environ true allow_legacy ≡ err exc)
              × (is_config_error exc ≡ true)))
unfolding diagnosis_agent_from_env
diagnosis_agent_from_env_required strip environ allow_legacy =
    elim (Bool-cases (is_empty (or_blank (environ legacy_resource_env)))) [
      | inr blank ↦ inr (λ (empty, deployed). cc, (legacy_refused, rw blank refl, refl))
      | inl blank ↦ elim (required_cases strip environ) [
        | inl (deployed, found) ↦
            inl
              (blank, deployed, rw (← configured_pipeline_lem strip environ) (simp (blank, found)))
        | inr (not_deployed, (exc, h, config)) ↦
            inr (λ (empty, deployed). not_deployed deployed, (exc, simp (blank, h), config))
      ]
    ]
