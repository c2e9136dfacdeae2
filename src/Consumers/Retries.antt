-- ===== src/Consumers/Retries.antt =====
-- How often a message that fails is processed, and where it ends.
use miniwallet.Base.{
  ℕ, suc, ◌+◌, ◌≡◌, ◌≢◌, ◌⊎◌, ◌≤◌, ◌<◌, refl, ◌∙◌, String, true, Option, some, [], ◌∷◌, ◌++◌,
  filter, map, arith, str_eq_refl, str_eq_iff,
}
use miniwallet.Errors.{Error, Result, raise}
use miniwallet.Events.{EventEnvelope}
use miniwallet.Consumers.{
  KafkaMessage, Headers, dlq_topic, is_other, retry_count, retried, dead_letter, handle_message,
  run_retries,
}

-- The topic and the value of a message.
abbrev pub origin : KafkaMessage → String × String
origin m = (m.topic, m.value)

module _ (json_loads : String → Option EventEnvelope) (int : String → Option ℕ) (str : ℕ → String)
    {S : Type 0} (process : EventEnvelope → S → Result S) (group_id : String) where
  retry_count-set :
      (l : Headers) (v : String)
      → retry_count json_loads int str process group_id
          (filter is_other l ++ ("x-retry-count", v) ∷ [])
        ≡ int v
  retry_count-set [] v = ground arith
  retry_count-set ((k, u) ∷ l) v = ground (arith, retry_count-set l v)

  -- A message that `process` refuses, with its retry count, is sent on with the next one.
  handle_message-retries :
      (m : KafkaMessage) (s : S) (n : ℕ) (event : EventEnvelope) (e : Error)
      → retry_count json_loads int str process group_id m.headers ≡ some n
      → json_loads m.value ≡ some event
      → process event s ≡ raise e
      → n < 3
      → let h = handle_message json_loads int str process group_id m s in
        (h.sent ≡ retried json_loads int str process group_id n m ∷ []) × (h.state ≡ s)
  unfolding handle_message
  handle_message-retries m s n event e count json fails lt = ground arith

  handle_message-dead :
      (m : KafkaMessage) (s : S) (n : ℕ) (event : EventEnvelope) (e : Error)
      → retry_count json_loads int str process group_id m.headers ≡ some n
      → json_loads m.value ≡ some event
      → process event s ≡ raise e
      → 3 ≤ n
      → (handle_message json_loads int str process group_id m s).sent
        ≡ dead_letter json_loads int str process group_id m ∷ []
  unfolding handle_message
  handle_message-dead m s n event e count json fails le = ground arith

  -- Every message whose retry header can be read is disposed of in one call: its offset is committed,
  -- and it has been processed, or exactly one message with its value has been sent in its place.
  pub handle_message_disposes :
      (m : KafkaMessage) (s : S) (n : ℕ)
      → retry_count json_loads int str process group_id m.headers ≡ some n
      → let h = handle_message json_loads int str process group_id m s in
        (h.committed ≡ true)
        × ((h.sent ≡ []) ⊎ (map (λ (x : KafkaMessage). x.value) h.sent ≡ m.value ∷ []))
  unfolding handle_message
  handle_message_disposes m s n count = ground arith

  run_retries-again :
      (more n : ℕ) (m : KafkaMessage) (s : S) (event : EventEnvelope) (e : Error)
      → retry_count json_loads int str process group_id m.headers ≡ some n
      → json_loads m.value ≡ some event
      → process event s ≡ raise e
      → n < 3
      → let m' = retried json_loads int str process group_id n m in
        run_retries json_loads int str process group_id (suc more) m s
        ≡ m' ∷ run_retries json_loads int str process group_id more m' s
  unfolding run_retries
  run_retries-again more n m s event e count json fails lt =
      ground (arith, handle_message-retries m s n event e count json fails lt, str_eq_refl m.topic)

  run_retries-dead :
      (more : ℕ) (m : KafkaMessage) (s : S) (event : EventEnvelope) (e : Error)
      → retry_count json_loads int str process group_id m.headers ≡ some 3
      → json_loads m.value ≡ some event
      → process event s ≡ raise e
      → m.topic ≢ dlq_topic group_id
      → run_retries json_loads int str process group_id (suc more) m s
        ≡ dead_letter json_loads int str process group_id m ∷ []
  unfolding run_retries
  run_retries-dead more m s event e count json fails own = ground (
    arith,
    handle_message-dead m s 3 event e count json fails (ground arith),
    str_eq_iff (dlq_topic group_id) m.topic,
  )

  -- Where `int` reads what `str` writes: a message that never was retried, of a topic that is not the
  -- dead letter topic, whose event `process` always refuses, is processed four times in all: it goes back to its topic three times and then, with its value
  -- unchanged, to the dead letter topic.
  pub run_retries-dead_letter :
      (m : KafkaMessage) (s : S) (event : EventEnvelope) (e : Error) (more : ℕ)
      → ((n : ℕ) → int (str n) ≡ some n)
      → ((s' : S) → process event s' ≡ raise e)
      → json_loads m.value ≡ some event
      → retry_count json_loads int str process group_id m.headers ≡ some 0
      → m.topic ≢ dlq_topic group_id
      → map origin
          (run_retries json_loads int str process group_id (suc (suc (suc (suc more)))) m s)
        ≡ origin m ∷ origin m ∷ origin m ∷ (dlq_topic group_id, m.value) ∷ []
  run_retries-dead_letter m s event e more round fails json count own =
      let again = λ (n : ℕ) (x : KafkaMessage). retried json_loads int str process group_id n x in
      let m₁ = again 0 m in
      let m₂ = again 1 m₁ in
      let m₃ = again 2 m₂ in
      let counted =
        λ (n : ℕ) (x : KafkaMessage). retry_count-set x.headers (str (n + 1)) ∙ round (n + 1) in
      rw
        (
          run_retries-again (suc (suc (suc more))) 0 m s event e count json (fails s)
              (ground arith),
          run_retries-again (suc (suc more)) 1 m₁ s event e (counted 0 m) json (fails s)
              (ground arith),
          run_retries-again (suc more) 2 m₂ s event e (counted 1 m₁) json (fails s) (ground arith),
          run_retries-dead more m₃ s event e (counted 2 m₂) json (fails s) own,
        )
        refl
