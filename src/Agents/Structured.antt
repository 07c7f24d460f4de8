-- ===== src/Agents/Structured.antt =====
-- `extract` (src/krama/agents/structured.py): asking a model for an object, and asking it again
-- where the object does not validate.
pub mod Bounds
use glass_guru.Base.{
  ℕ, zero, suc, ◌+◌, ◌-◌, String, Bool, true, false, Option, none, some, List, [], ◌∷◌, ◌++◌, ◌==◌,
  string_eq, if◌then◌else◌,
}

pub data Role : Type 0 where
  user : Role
  assistant : Role

pub record Message : Type 0 where
  pub role : Role
  pub text : String

pub record LlmUsage : Type 0 where
  pub input_tokens : ℕ
  pub output_tokens : ℕ
  pub latency_ms : ℕ

-- LLMUsage.__add__
unfoldable pub add_usage : LlmUsage → LlmUsage → LlmUsage
add_usage u v = record {
  input_tokens = u.input_tokens + v.input_tokens;
  output_tokens = u.output_tokens + v.output_tokens;
  latency_ms = u.latency_ms + v.latency_ms;
}

abbrev pub no_usage : LlmUsage
no_usage = record { input_tokens = 0; output_tokens = 0; latency_ms = 0 }

pub record LlmResponse (Payload : Type 0) : Type 0 where
  pub text : String
  pub structured : Option Payload
  pub usage : LlmUsage

-- `provider.complete`: a response, or the text of its LLMError
pub data Completion (Payload : Type 0) : Type 0 where
  responded : LlmResponse Payload → Completion Payload
  unreachable : String → Completion Payload

-- `model_validate`: the object, or the ValidationError as `_describe` prints it
pub data Validated (T : Type 0) : Type 0 where
  valid : T → Validated T
  invalid : String → Validated T

pub record Extraction (T : Type 0) : Type 0 where
  pub value : Option T
  pub attempts : ℕ
  pub errors : List String
  pub usage : LlmUsage
  pub model_id : String
  pub provider_failed : Bool

-- `Extraction(value=None)`
abbrev pub nothing_extracted : {T : Type 0} → Extraction T
nothing_extracted = record {
  value = none;
  attempts = 0;
  errors = [];
  usage = no_usage;
  model_id = "";
  provider_failed = false;
}

-- Extraction.repairs
unfoldable pub repairs : {T : Type 0} → Extraction T → ℕ
repairs x = x.attempts - 1

-- Extraction.escalated
unfoldable pub escalated : {T : Type 0} → Extraction T → Bool
escalated x = elim x.value [ none ↦ true | some value ↦ false ]

-- What the loop calls: the provider, which answers the messages of a request, the JSON library
-- (`rescue` is `_json_from_text`, `dumps` is `json.dumps`), the validation of a schema, and the two
-- f-strings that ask again. The rest of a request is the same in each round.
pub record Model (Payload T : Type 0) : Type 0 where
  pub model_id : String
  pub complete : List Message → Completion Payload
  pub rescue : String → Option Payload
  pub dumps : Payload → String
  pub validate : Payload → Validated T
  pub must_call : String
  pub repair_prompt : String → String

-- One attempt's outcome: an object, or two more messages and an error.
pub data Attempt (T : Type 0) : Type 0 where
  accepted : T → Attempt T
  refused : Message → Message → String → Attempt T

module _ {Payload T : Type 0} (model : Model Payload T) where
  -- `response.structured`, or what the text holds
  unfoldable pub payload_of : LlmResponse Payload → Option Payload
  payload_of response = elim response.structured [
    | some payload ↦ some payload
    | none ↦ if response.text == "" then none else model.rescue response.text
  ]

  unfoldable pub spoken : String → String
  spoken text = if text == "" then "(no output)" else text

  -- the rest of a round, after the provider's response
  unfoldable pub read_response : LlmResponse Payload → Attempt T
  unfolding payload_of spoken
  read_response response = elim (payload_of response) [
    | none ↦
        Attempt.refused (record { role = Role.assistant; text = spoken response.text })
          (record { role = Role.user; text = model.must_call }) "no structured output returned"
    | some payload ↦ elim (model.validate payload) [
      | Validated.valid value ↦ Attempt.accepted value
      | Validated.invalid detail ↦
          Attempt.refused (record { role = Role.assistant; text = model.dumps payload })
            (record { role = Role.user; text = model.repair_prompt detail }) detail
    ]
  ]

  -- the Extraction after the loop
  abbrev pub escalation : ℕ → List String → LlmUsage → Bool → Extraction T
  escalation attempted errors usage failed = record {
    value = none;
    attempts = attempted;
    errors = errors;
    usage = usage;
    model_id = model.model_id;
    provider_failed = failed;
  }

  -- the loop: the rounds that are left, those that were made, and the lists it appends to
  unfoldable pub rounds : ℕ → ℕ → List Message → List String → LlmUsage → Extraction T
  unfolding add_usage read_response
  rounds zero attempted messages errors usage = escalation attempted errors usage false
  rounds (suc left) attempted messages errors usage = elim (model.complete messages) [
    | Completion.unreachable why ↦ escalation (suc attempted) (errors ++ (why ∷ [])) usage true
    | Completion.responded response ↦ elim (read_response response) [
      | Attempt.accepted value ↦ record {
        value = some value;
        attempts = suc attempted;
        errors = errors;
        usage = add_usage usage response.usage;
        model_id = model.model_id;
        provider_failed = false;
      }
      | Attempt.refused said asked why ↦
          rounds left (suc attempted) (messages ++ (said ∷ asked ∷ [])) (errors ++ (why ∷ []))
            (add_usage usage response.usage)
    ]
  ]

  -- extract
  unfoldable pub extract : String → ℕ → Extraction T
  unfolding rounds
  extract text max_attempts =
      rounds max_attempts 0 (record { role = Role.user; text = text } ∷ []) [] no_usage
