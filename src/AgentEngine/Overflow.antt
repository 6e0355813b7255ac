-- ===== src/AgentEngine/Overflow.antt =====
-- The exception that api/agent_engine.py does not catch: what `int` raises for an infinite direction in
-- an index that an agent proposes.
use googlecloudhack.Prelude.{
  ℤ, String, ◌≡◌, refl, ◌⊎◌, inl, inr, false, none, some, List, [], ◌∷◌, Error, Result, ok, err,
  ◌>>=◌, >>=-err, is_value_error, arith,
}
use googlecloudhack.Externals.{Externals}
use googlecloudhack.Value.{Value, boolean, int, float, str, list, tuple, Items, nil, cons, Fields}
use googlecloudhack.Orchestrator.Checks.{int_of, is_conversion_error}
use googlecloudhack.PyText.{text}
use googlecloudhack.AgentEngine.{
  index_key, index_item, index_items, or_nothing, normalize_index_spec,
}
use googlecloudhack.AgentEngine.Payload.{or_index, proposed_index_from_payload}
use googlecloudhack.AgentEngine.Clients.{as_parse_error}
use googlecloudhack.AgentEngine.OneTool.{IsParsed}

-- raised by `int` of a float, and neither a TypeError nor a ValueError
pub record IsOverflow (x : Externals) (exc : Error) : Type 0 where
  pub direction : String
  pub raised : x.int_of_float direction ≡ err exc
  pub uncaught : is_conversion_error exc ≡ false

module _ (x : Externals) where
  int_of-IsOverflow :
      (v : Value) (exc : Error)
      → int_of x v ≡ err exc
      → is_conversion_error exc ≡ false
      → IsOverflow x exc
  unfolding int_of
  int_of-IsOverflow (float r) exc h u = record { direction = r; raised = h; uncaught = u }
  int_of-IsOverflow (str s) exc h u = ground arith
  int_of-IsOverflow (int n) exc h u = cc
  int_of-IsOverflow (boolean b) exc h u = cc
  int_of-IsOverflow _ exc h u = ground arith

  index_key-IsOverflow :
      (name : String) (v : Value) (r : Result ℤ) (exc : Error)
      → int_of x v ≡ r
      → index_key x name r ≡ err exc
      → IsOverflow x exc
  index_key-IsOverflow name v (ok d) exc e h = cc
  index_key-IsOverflow name v (err e) exc k h =
      int_of-IsOverflow v exc (ground arith) (ground arith)

  index_item-IsOverflow : (v : Value) (exc : Error) → index_item x v ≡ err exc → IsOverflow x exc
  unfolding index_item
  index_item-IsOverflow (list (cons name (cons v nil))) exc h =
      index_key-IsOverflow (text x name) v (int_of x v) exc refl h
  index_item-IsOverflow (tuple (cons name (cons v nil))) exc h =
      index_key-IsOverflow (text x name) v (int_of x v) exc refl h
  index_item-IsOverflow _ exc h = cc

  index_items-IsOverflow :
      (vs : Items) (exc : Error) → index_items x vs ≡ err exc → IsOverflow x exc
  unfolding index_items
  index_items-IsOverflow nil exc h = cc
  index_items-IsOverflow (cons v vs) exc h = elim (>>=-err (index_item x v) _ exc h) [
    | inl e ↦ index_item-IsOverflow v exc e
    | inr (none, e, rest) ↦ cc
    | inr (some key, e, rest) ↦ elim (>>=-err (index_items x vs) _ exc rest) [
      | inl e' ↦ index_items-IsOverflow vs exc e'
      | inr (keys, e', built) ↦ cc
    ]
  ]

  or_nothing-IsOverflow :
      (vs : Items) (exc : Error)
      → (index_items x vs >>= λ keys. ok (or_nothing x keys)) ≡ err exc
      → IsOverflow x exc
  or_nothing-IsOverflow vs exc h = elim (>>=-err (index_items x vs) _ exc h) [
    | inl e ↦ index_items-IsOverflow vs exc e
    | inr (keys, e, built) ↦ cc
  ]

  normalize_index_spec-IsOverflow :
      (v : Value) (exc : Error) → normalize_index_spec x v ≡ err exc → IsOverflow x exc
  unfolding normalize_index_spec
  normalize_index_spec-IsOverflow (list vs) exc h = or_nothing-IsOverflow vs exc h
  normalize_index_spec-IsOverflow (tuple vs) exc h = or_nothing-IsOverflow vs exc h
  normalize_index_spec-IsOverflow _ exc h = cc

  -- one candidate, and those after it
  or_index-IsOverflow :
      (v : Value) (later : Result (List (String × ℤ))) (exc : Error)
      → (later ≡ err exc → IsOverflow x exc)
      → (normalize_index_spec x v >>= λ own. or_index x own later) ≡ err exc
      → IsOverflow x exc
  or_index-IsOverflow v later exc next h = elim (>>=-err (normalize_index_spec x v) _ exc h) [
    | inl e ↦ normalize_index_spec-IsOverflow v exc e
    | inr ([], e, rest) ↦ next rest
    | inr (key ∷ keys, e, rest) ↦ cc
  ]

  proposed_index-IsOverflow :
      (parsed : Fields) (responses : List (String × Fields)) (exc : Error)
      → proposed_index_from_payload x parsed responses ≡ err exc
      → IsOverflow x exc
  unfolding proposed_index_from_payload
  proposed_index-IsOverflow parsed responses exc h =
      or_index-IsOverflow _ _ exc
        (or_index-IsOverflow _ _ exc (normalize_index_spec-IsOverflow _ exc)) h

  -- the ends of a diagnosis: a result, an AgentDiagnosisParseError, or that exception
  abbrev pub IsEnded {ℓ κ} : {T : Type ℓ} → (T → Type κ) → Result T → Type (ℓ ⊔ κ)
  IsEnded P r = IsParsed P r ⊎ ((exc : Error) × (r ≡ err exc) × IsOverflow x exc)

  pub IsEnded->>= {ℓ κ μ ν} :
      {S : Type ℓ} {T : Type κ} (P : S → Type μ) (Q : T → Type ν) (first : Result S)
      (next : S → Result T)
      → IsEnded P first
      → ((s : S) → P s → IsEnded Q (next s))
      → IsEnded Q (first >>= next)
  IsEnded->>= P Q first next (inl (inl (s, e, p))) keep = rw e (keep s p)
  IsEnded->>= P Q first next (inl (inr (m, e))) keep = inl (inr (m, rw e refl))
  IsEnded->>= P Q first next (inr (exc, e, o)) keep = inr (exc, rw e refl, o)

  parsed_index :
      (r : Result (List (String × ℤ)))
      → ((exc : Error) → r ≡ err exc → IsOverflow x exc)
      → IsEnded (λ keys. Unit {0}) (as_parse_error r)
  parsed_index (ok keys) h = inl (inl (keys, refl, tt))
  parsed_index (err exc) h =
      let o = h exc refl in
      let u = o.uncaught in
      let e : is_value_error exc ≡ false = ground arith in inr (exc, rw e refl, o)

  pub proposed_index-IsEnded :
      (parsed : Fields) (responses : List (String × Fields))
      → IsEnded (λ keys. Unit {0}) (as_parse_error (proposed_index_from_payload x parsed responses))
  proposed_index-IsEnded parsed responses =
      parsed_index (proposed_index_from_payload x parsed responses)
        (proposed_index-IsOverflow parsed responses)
