-- ===== src/Models/Failover/Chain.antt =====
-- What `FailoverChain::complete` guarantees about the choice of a provider.
use frankclaw.Prelude.{
  ℕ, suc, ◌≡◌, refl, ap, String, Bool, true, Option, none, some, List, [], ◌∷◌, ◌++◌, arith,
  Bool-cases, inl, inr, ◌⊎◌, All,
}
use frankclaw.Core.Error.{FrankClawError, ok, err, all_providers_failed}
use frankclaw.Models.CircuitBreaker.{check_allowed, record_success}
use frankclaw.Models.Failover.{
  ProviderEntry, FailoverChain, LoopEnd, returned, aborted, gave_up, Visit, skipped, failed, done,
  attempt_loop, serves, visit, complete_from, complete,
}

module _ {Response : Type 0} (streaming : Bool) (max_retries : ℕ) (model_id : String) where
  -- The provider is asked: it lists the model, or lists none, and its breaker allows the call.
  abbrev pub IsAsked : ProviderEntry Response → Type 0
  IsAsked entry =
      (serves entry model_id ≡ true) × ((check_allowed entry.breaker entry.checked_at).0 ≡ true)

  abbrev loop_end : ProviderEntry Response → LoopEnd Response
  loop_end entry = attempt_loop streaming max_retries entry.replies (suc max_retries) 0

  -- Its attempts end with a response.
  abbrev pub Answers : ProviderEntry Response → Response → Type 0
  Answers entry r = IsAsked entry × (loop_end entry ≡ returned r)

  -- Its attempts end after something was streamed.
  abbrev pub Aborts : ProviderEntry Response → Type 0
  Aborts entry = IsAsked entry × ((e : FrankClawError) × (loop_end entry ≡ aborted e))

  abbrev IsPassed : Visit Response → Type 0
  IsPassed (skipped e) = Unit
  IsPassed (failed x e) = Unit
  IsPassed (done r e) = ⊥

  -- The chain goes on after this provider.
  abbrev pub Passes : ProviderEntry Response → Type 0
  Passes entry = IsPassed (visit streaming max_retries model_id entry)

  LoopEnd-cases :
      (l : LoopEnd Response)
      → ((r : Response) × (l ≡ returned r))
        ⊎ ((e : FrankClawError) × (l ≡ aborted e))
        ⊎ ((o : Option FrankClawError) × (l ≡ gave_up o))
  LoopEnd-cases (returned r) = inl (r, refl)
  LoopEnd-cases (aborted e) = inr (inl (e, refl))
  LoopEnd-cases (gave_up o) = inr (inr (o, refl))

  visit-Answers :
      (entry : ProviderEntry Response) (r : Response) (after : ProviderEntry Response)
      → visit streaming max_retries model_id entry ≡ done (ok r) after
      → Answers entry r
        × (after ≡ record entry {
          breaker = record_success (check_allowed entry.breaker entry.checked_at).1;
        })
  unfolding visit
  visit-Answers entry r after h = ground (arith, LoopEnd-cases (loop_end entry))

  visit-of_Answers :
      (entry : ProviderEntry Response) (r : Response)
      → Answers entry r
      → visit streaming max_retries model_id entry
        ≡ done (ok r) (record entry {
          breaker = record_success (check_allowed entry.breaker entry.checked_at).1;
        })
  unfolding visit
  visit-of_Answers entry r h = ground arith

  visit-Aborts :
      (entry : ProviderEntry Response) (e : FrankClawError) (after : ProviderEntry Response)
      → visit streaming max_retries model_id entry ≡ done (err e) after
      → Aborts entry
  unfolding visit
  visit-Aborts entry e after h = elim (LoopEnd-cases (loop_end entry)) [
    | inl (r, p) ↦ ground arith
    | inr (inl (x, p)) ↦ ((ground arith, ground arith), (x, p))
    | inr (inr (o, p)) ↦ ground arith
  ]

  visit-skipped :
      (entry : ProviderEntry Response)
      → (¬ IsAsked entry)
      → (after : ProviderEntry Response) × (visit streaming max_retries model_id entry
          ≡ skipped after)
  unfolding visit
  visit-skipped entry h = elim (Bool-cases (serves entry model_id)) [
    | inl serving ↦ elim (Bool-cases (check_allowed entry.breaker entry.checked_at).0) [
      | inl allowed ↦ absurd (h (serving, allowed))
      | inr blocked ↦ (
        record entry { breaker = (check_allowed entry.breaker entry.checked_at).1 },
        ground arith,
      )
    ]
    | inr other ↦ (entry, ground arith)
  ]

  Visit-cases :
      (v : Visit Response)
      → ((a : ProviderEntry Response) × (v ≡ skipped a))
        ⊎ ((e : FrankClawError) × (a : ProviderEntry Response) × (v ≡ failed e a))
        ⊎ ((r : Response) × (a : ProviderEntry Response) × (v ≡ done (ok r) a))
        ⊎ ((e : FrankClawError) × (a : ProviderEntry Response) × (v ≡ done (err e) a))
  Visit-cases (skipped a) = inl (a, refl)
  Visit-cases (failed e a) = inr (inl (e, a, refl))
  Visit-cases (done (ok r) a) = inr (inr (inl (r, a, refl)))
  Visit-cases (done (err e) a) = inr (inr (inr (e, a, refl)))

  -- How the list of providers splits around the one that answered.
  pub record IsChosen (entries after : List (ProviderEntry Response)) (r : Response) : Type 0 where
    pub before : List (ProviderEntry Response)
    pub chosen : ProviderEntry Response
    pub later : List (ProviderEntry Response)
    pub before_after : List (ProviderEntry Response)
    pub split : entries ≡ before ++ chosen ∷ later
    pub passed : All Passes before
    pub answers : Answers chosen r
    pub result :
        after
        ≡ before_after
          ++ record chosen {
            breaker = record_success (check_allowed chosen.breaker chosen.checked_at).1;
          }
            ∷ later

  IsChosen-cons :
      (entry a : ProviderEntry Response) (entries after : List (ProviderEntry Response))
      (r : Response)
      → Passes entry
      → IsChosen entries after r
      → IsChosen (entry ∷ entries) (a ∷ after) r
  IsChosen-cons entry a entries after r p c = record {
    before = entry ∷ c.before;
    chosen = c.chosen;
    later = c.later;
    before_after = a ∷ c.before_after;
    split = ap (λ l. entry ∷ l) c.split;
    passed = (p, c.passed);
    answers = c.answers;
    result = ap (λ l. a ∷ l) c.result;
  }

  complete_from-IsChosen :
      (entries : List (ProviderEntry Response)) (last_error : Option FrankClawError) (r : Response)
      → (complete_from streaming max_retries model_id entries last_error).0 ≡ ok r
      → IsChosen entries (complete_from streaming max_retries model_id entries last_error).1 r
  unfolding complete_from
  complete_from-IsChosen [] none r h = cc
  complete_from-IsChosen [] (some e) r h = cc
  complete_from-IsChosen (entry ∷ entries) last_error r h =
      elim (Visit-cases (visit streaming max_retries model_id entry)) [
        | inl (a, v) ↦
            rw (v, complete_from)
              (IsChosen-cons entry a entries _ r (rw v tt)
                (complete_from-IsChosen entries last_error r (ground arith)))
        | inr (inl (e, a, v)) ↦
            rw (v, complete_from)
              (IsChosen-cons entry a entries _ r (rw v tt)
                (complete_from-IsChosen entries (some e) r (ground arith)))
        | inr (inr (inl (x, a, v))) ↦
            let same : x ≡ r = ground arith in
            let (answers, after) = visit-Answers entry x a v in
            rw (v, complete_from)
              (record {
                before = [];
                chosen = entry;
                later = entries;
                before_after = [];
                split = refl;
                passed = tt;
                answers = rw same at answers;
                result = ap (λ c. c ∷ entries) after;
              })
        | inr (inr (inr (e, a, v))) ↦ ground arith
      ]

  complete_from-Answers :
      (before later : List (ProviderEntry Response)) (entry : ProviderEntry Response)
      (last_error : Option FrankClawError) (r : Response)
      → All (λ e. ¬ Aborts e) before
      → Answers entry r
      → (x : Response) × ((complete_from streaming max_retries model_id
            (before ++ entry ∷ later)
            last_error).0
          ≡ ok x)
  unfolding complete_from
  complete_from-Answers [] later entry last_error r w a =
      (r, rw (visit-of_Answers entry r a, complete_from))
  complete_from-Answers (b ∷ bs) later entry last_error r (w, ws) a =
      elim (Visit-cases (visit streaming max_retries model_id b)) [
        | inl (b', v) ↦
            rw (v, complete_from) (complete_from-Answers bs later entry last_error r ws a)
        | inr (inl (e, b', v)) ↦
            rw (v, complete_from) (complete_from-Answers bs later entry (some e) r ws a)
        | inr (inr (inl (x, b', v))) ↦ (x, rw (v, complete_from))
        | inr (inr (inr (e, b', v))) ↦ absurd (w (visit-Aborts b e b' v))
      ]

  complete_from-unasked :
      (entries : List (ProviderEntry Response))
      → All (λ e. ¬ IsAsked e) entries
      → (complete_from streaming max_retries model_id entries none).0 ≡ err all_providers_failed
  unfolding complete_from
  complete_from-unasked [] h = refl
  complete_from-unasked (entry ∷ entries) (h, hs) =
      let (a, v) = visit-skipped entry h in rw (v, complete_from) (complete_from-unasked entries hs)

-- A response comes from a provider that lists the model (or lists none), whose breaker allowed the
-- call and whose attempts ended with it; the chain went past every provider before it, its breaker
-- has recorded a success, and the providers after it are as they were.
pub complete-IsChosen :
    {Response : Type 0} (chain : FailoverChain Response) (model_id : String) (streaming : Bool)
    (r : Response)
    → (complete chain model_id streaming).0 ≡ ok r
    → IsChosen streaming chain.retry_config.max_retries model_id chain.entries
        (complete chain model_id streaming).1.entries
        r
unfolding complete
complete-IsChosen chain model_id streaming r h =
    complete_from-IsChosen streaming chain.retry_config.max_retries model_id chain.entries none r h

-- Failover finds an answer: if some provider answers, and none before it fails after streaming, the
-- call returns a response.
pub complete-Answers :
    {Response : Type 0} (chain : FailoverChain Response) (model_id : String) (streaming : Bool)
    (before later : List (ProviderEntry Response)) (entry : ProviderEntry Response) (r : Response)
    → chain.entries ≡ before ++ entry ∷ later
    → All (λ e. ¬ Aborts streaming chain.retry_config.max_retries model_id e) before
    → Answers streaming chain.retry_config.max_retries model_id entry r
    → (x : Response) × ((complete chain model_id streaming).0 ≡ ok x)
unfolding complete
complete-Answers chain model_id streaming before later entry r e w a = rw e (
    complete_from-Answers streaming chain.retry_config.max_retries model_id before later entry none
      r w a)

-- Where no provider is asked, because none lists the model or its breaker is open, the error is
-- `all_providers_failed`.
complete-unasked :
    {Response : Type 0} (chain : FailoverChain Response) (model_id : String) (streaming : Bool)
    → All (λ e. ¬ IsAsked streaming chain.retry_config.max_retries model_id e) chain.entries
    → (complete chain model_id streaming).0 ≡ err all_providers_failed
unfolding complete
complete-unasked chain model_id streaming h =
    complete_from-unasked streaming chain.retry_config.max_retries model_id chain.entries h
