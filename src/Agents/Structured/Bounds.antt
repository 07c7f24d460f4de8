-- ===== src/Agents/Structured/Bounds.antt =====
-- What an extraction says of how it was reached.
use glass_guru.Base.{
  ℕ, zero, suc, ◌+◌, ◌≤◌, String, ◌≡◌, ◌⊎◌, inl, inr, refl, true, false, none, some, List, [], ◌∷◌,
  ◌++◌, length, Option-cases, ap, ◌∙◌, arith,
}
use glass_guru.Agents.Structured.{
  Role, Message, LlmUsage, LlmResponse, Completion, Validated, Extraction, Model, Attempt,
  payload_of, spoken, no_usage, add_usage, read_response, rounds, extract, repairs,
}

length-snoc : (xs : List String) (x : String) → length (xs ++ (x ∷ [])) ≡ suc (length xs)
length-snoc [] x = refl
length-snoc (y ∷ ys) x = ground (arith, length-snoc ys x)

module _ {Payload T : Type 0} (model : Model Payload T) where
  completion_cases :
      (c : Completion Payload)
      → ((response : LlmResponse Payload) × (c ≡ Completion.responded response))
        ⊎ ((why : String) × (c ≡ Completion.unreachable why))
  completion_cases (Completion.responded response) = inl (response, refl)
  completion_cases (Completion.unreachable why) = inr (why, refl)

  attempt_cases :
      (r : Attempt T)
      → ((value : T) × (r ≡ Attempt.accepted value))
        ⊎ ((said asked : Message) × (why : String) × (r ≡ Attempt.refused said asked why))
  attempt_cases (Attempt.accepted value) = inl (value, refl)
  attempt_cases (Attempt.refused said asked why) = inr (said, asked, why, refl)

  validated_cases :
      (v : Validated T)
      → ((value : T) × (v ≡ Validated.valid value)) ⊎ ((why : String) × (v ≡ Validated.invalid why))
  validated_cases (Validated.valid value) = inl (value, refl)
  validated_cases (Validated.invalid why) = inr (why, refl)

  -- The object is one that the model gave and that validated.
  abbrev pub IsFromModel : T → Type 0
  IsFromModel value =
      (messages : List Message) × (response : LlmResponse Payload) × (payload : Payload)
      × (model.complete messages ≡ Completion.responded response)
      × (payload_of model response ≡ some payload)
      × (model.validate payload ≡ Validated.valid value)

  -- Either there is an object, which is one that the model gave and that validated, and there is
  -- one error for each repair; or there is none, there is one error for each attempt, and either
  -- the provider could not be reached or every attempt was made.
  abbrev pub IsAccounted : ℕ → Extraction T → Type 0
  IsAccounted max_attempts x =
      (x.attempts ≤ max_attempts)
      × (((value : T) × (x.value ≡ some value)
            × IsFromModel value
            × (x.provider_failed ≡ false)
            × (length x.errors ≡ repairs x)
            × (1 ≤ x.attempts))
          ⊎ ((x.value ≡ none)
              × (length x.errors ≡ x.attempts)
              × ((x.provider_failed ≡ true) ⊎ (x.attempts ≡ max_attempts))))

  read_response-accepted :
      (response : LlmResponse Payload) (value : T)
      → read_response model response ≡ Attempt.accepted value
      → (payload : Payload) × (payload_of model response ≡ some payload)
        × (model.validate payload ≡ Validated.valid value)
  unfolding read_response
  read_response-accepted response value h = elim (Option-cases (payload_of model response)) [
    | inl empty ↦
        let gone : read_response model response
            ≡ Attempt.refused (record { role = Role.assistant; text = spoken model response.text })
                (record { role = Role.user; text = model.must_call })
                "no structured output returned" =
          rw (empty, read_response) refl in
        absurd (cc)
    | inr (payload, there) ↦ elim (validated_cases (model.validate payload)) [
      | inl (v, ok) ↦
          let found : read_response model response ≡ Attempt.accepted v =
            rw (there, read_response) (rw ok refl) in
          (payload, there, cc)
      | inr (why, bad) ↦
          let gone : read_response model response
              ≡ Attempt.refused (record { role = Role.assistant; text = model.dumps payload })
                  (record { role = Role.user; text = model.repair_prompt why }) why =
            rw (there, read_response) (rw bad refl) in
          absurd (cc)
    ]
  ]

  rounds-IsAccounted :
      (max_attempts left attempted : ℕ) (messages : List Message) (errors : List String)
      (usage : LlmUsage)
      → length errors ≡ attempted
      → attempted + left ≡ max_attempts
      → IsAccounted max_attempts (rounds model left attempted messages errors usage)
  unfolding rounds repairs
  rounds-IsAccounted max_attempts zero attempted messages errors usage e f =
      (omega arith, inr (refl, e, inr (omega arith)))
  rounds-IsAccounted max_attempts (suc left) attempted messages errors usage e f =
      elim (completion_cases (model.complete messages)) [
        | inr (why, down) ↦
            rw (down, rounds) (omega arith, inr (refl, length-snoc errors why ∙ ap suc e, inl refl))
        | inl (response, up) ↦ elim (attempt_cases (read_response model response)) [
          | inl (value, ok) ↦
              let (payload, there, good) = read_response-accepted response value ok in
              rw (up, rounds)
                (rw ok (
                  omega arith,
                  inl (
                    value,
                    refl,
                    (messages, response, payload, up, there, good),
                    refl,
                    omega arith,
                    omega arith,
                  ),
                ))
          | inr (said, asked, why, again) ↦
              rw (up, rounds)
                (rw again (
                  rounds-IsAccounted max_attempts left (suc attempted)
                    (messages ++ (said ∷ asked ∷ [])) (errors ++ (why ∷ []))
                    (add_usage usage response.usage) (length-snoc errors why ∙ ap suc e)
                    (omega arith)))
        ]
      ]

  -- An extraction makes no more attempts than it may. Either it holds an object, which is one that
  -- the model gave and that validated, and there is one error for each repair; or it holds none,
  -- there is one error for each attempt, and either the provider could not be reached or every
  -- attempt was made.
  pub extract-IsAccounted :
      (text : String) (max_attempts : ℕ)
      → IsAccounted max_attempts (extract model text max_attempts)
  unfolding extract
  extract-IsAccounted text max_attempts =
      rounds-IsAccounted max_attempts max_attempts 0 (record { role = Role.user; text = text } ∷ [])
        [] no_usage refl (omega arith)
