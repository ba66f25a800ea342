-- ===== src/Durable/Limited/Ending.antt =====
-- Every run under a platform that gives up ends: how, and after how many callbacks and failures.
use triggerlink.Prelude.{
  ℕ, zero, suc, ◌+◌, ◌≤◌, ◌<◌, ◌≡◌, ◌⊎◌, inl, inr, refl, Option, none, some, arith, Text, leb,
  Bool-cases,
}
use triggerlink.Value.{Value}
use triggerlink.Execx.{Host}
use triggerlink.Durable.{
  Flow, finish, fail, step, wait, Attempt, done, failed, Question, Query, query_of, deliver,
  Platform, reply,
}
use triggerlink.Durable.Asking.{complaint}
use triggerlink.Durable.Limited.{Policy, Ended, completed, gave_up, run_message, step_message}

module _ {W : Type 0} (host : Host) (platform : Platform W) (policy : Policy) where
  -- An attempt that fails: its message, and the world after it.
  pub data Fails : Flow W → W → Text → W → Type 0 where
    throws : {m : Text} {st : Option Text} {w : W} → Fails (fail m st) w (run_message m) w
    step_fails :
        {id : Text} {fn : W → Attempt × W} {rest : Value → Flow W} {w w' : W} {m : Text}
        {st : Option Text}
        → fn w ≡ (failed m st, w')
        → Fails (step id fn rest) w (step_message m) w'
    complains :
        {id : Text} {q : Question W} {rest : Value → Flow W} {w : W}
        → query_of host q w ≡ none
        → Fails (wait id q rest) w (run_message (complaint host id q w)) w
    is_refused :
        {id : Text} {q : Question W} {rest : Value → Flow W} {w : W} {query : Query} {why : Text}
        → query_of host q w ≡ some query
        → policy.refusal query ≡ some why
        → Fails (wait id q rest) w why w

  -- After `n` attempts, a workflow comes to its end by `m` attempts more, of which `k` fail.
  pub data Course : (n : ℕ) → Flow W → W → (m k : ℕ) → Ended → W → Type 0 where
    finished : {n : ℕ} {v : Value} {w : W} → Course n (finish v) w 1 0 (completed v) w
    passed :
        {n : ℕ} {id : Text} {fn : W → Attempt × W} {rest : Value → Flow W} {w w' : W} {v : Value}
        {m k : ℕ} {e : Ended} {u : W}
        → fn w ≡ (done v, w')
        → Course (suc n) (rest v) w' m k e u
        → Course n (step id fn rest) w (suc m) k e u
    answered :
        {n : ℕ} {id : Text} {q : Question W} {rest : Value → Flow W} {w w' : W} {query : Query}
        {v : Value} {m k : ℕ} {e : Ended} {u : W}
        → query_of host q w ≡ some query
        → policy.refusal query ≡ none
        → reply platform query w ≡ (v, w')
        → Course (suc n) (rest (deliver q v)) w' m k e u
        → Course n (wait id q rest) w (suc m) k e u
    retried :
        {n : ℕ} {flow : Flow W} {w w' : W} {message : Text} {m k : ℕ} {e : Ended} {u : W}
        → Fails flow w message w'
        → suc n < policy.attempts
        → Course (suc n) flow w' m k e u
        → Course n flow w (suc m) (suc k) e u
    stopped :
        {n : ℕ} {flow : Flow W} {w w' : W} {message : Text}
        → Fails flow w message w'
        → policy.attempts ≤ suc n
        → Course n flow w 1 1 (gave_up message) w'

  -- Only the last failure comes after so many attempts.
  pub Course-failures :
      {n : ℕ} {flow : Flow W} {w : W} {m k : ℕ} {e : Ended} {u : W}
      → Course n flow w m k e u
      → (k ≤ 1) ⊎ (n + k ≤ policy.attempts)
  Course-failures finished = inl (omega arith)
  Course-failures (passed {n = n} {k = k} e later) = ground (arith, Course-failures later)
  Course-failures (answered {n = n} {k = k} e accepted answer later) =
      ground (arith, Course-failures later)
  Course-failures (retried {n = n} {k = k} fails more later) =
      ground (arith, more, Course-failures later)
  Course-failures (stopped fails last) = inl (omega arith)

  -- the end of a workflow, from `n` attempts on
  abbrev pub HasEnd : ℕ → Flow W → W → Type 0
  HasEnd n flow w = (m : ℕ) × (k : ℕ) × (e : Ended) × (u : W) × Course n flow w m k e u

  -- An attempt that fails is the last one, or the next one may be made.
  failed-HasEnd :
      (n : ℕ) (flow : Flow W) (w w' : W) (message : Text)
      → Fails flow w message w'
      → (policy.attempts ≤ suc n) ⊎ HasEnd (suc n) flow w'
      → HasEnd n flow w
  failed-HasEnd n flow w w' message fails (inl last) =
      (1, 1, gave_up message, w', stopped fails last)
  failed-HasEnd n flow w w' message fails (inr (m, k, e, u, later)) =
      elim (Bool-cases (leb policy.attempts (suc n))) [
        | inl last ↦ (1, 1, gave_up message, w', stopped fails (ground (arith, last)))
        | inr more ↦ (suc m, suc k, e, u, retried fails (ground (arith, more)) later)
      ]

  fail-HasEnd :
      (message : Text) (stack : Option Text) (left n : ℕ) (w : W)
      → policy.attempts ≤ n + suc left
      → HasEnd n (fail message stack) w
  fail-HasEnd message stack zero n w bound =
      failed-HasEnd n _ w w _ throws (inl (omega (arith, bound)))
  fail-HasEnd message stack (suc left) n w bound =
      failed-HasEnd n _ w w _ throws
        (inr (fail-HasEnd message stack left (suc n) w (omega (arith, bound))))

  module _ (id : Text) (fn : W → Attempt × W) (rest : Value → Flow W)
      (known : (v : Value) (n : ℕ) (w : W) → HasEnd n (rest v) w) where
    attempted-HasEnd :
        (n : ℕ) (w : W) (a : Attempt) (w' : W)
        → fn w ≡ (a, w')
        → (policy.attempts ≤ suc n) ⊎ HasEnd (suc n) (step id fn rest) w'
        → HasEnd n (step id fn rest) w
    attempted-HasEnd n w (done v) w' e again =
        let (m, k, end, u, later) = known v (suc n) w' in (suc m, k, end, u, passed e later)
    attempted-HasEnd n w (failed message stack) w' e again =
        failed-HasEnd n _ w w' _ (step_fails e) again

    step-HasEnd :
        (left n : ℕ) (w : W) → policy.attempts ≤ n + suc left → HasEnd n (step id fn rest) w
    step-HasEnd zero n w bound =
        attempted-HasEnd n w (fn w).0 (fn w).1 refl (inl (omega (arith, bound)))
    step-HasEnd (suc left) n w bound =
        attempted-HasEnd n w (fn w).0 (fn w).1 refl
          (inr (step-HasEnd left (suc n) (fn w).1 (omega (arith, bound))))

  module _ (id : Text) (q : Question W) (rest : Value → Flow W)
      (known : (v : Value) (n : ℕ) (w : W) → HasEnd n (rest v) w) where
    replied-HasEnd :
        (n : ℕ) (w : W) (query : Query) (refused : Option Text)
        → query_of host q w ≡ some query
        → policy.refusal query ≡ refused
        → (policy.attempts ≤ suc n) ⊎ HasEnd (suc n) (wait id q rest) w
        → HasEnd n (wait id q rest) w
    replied-HasEnd n w query none e accepted again =
        let (v, w') = reply platform query w in
        let (m, k, end, u, later) = known (deliver q v) (suc n) w' in
        (suc m, k, end, u, answered e accepted refl later)
    replied-HasEnd n w query (some why) e refused again =
        failed-HasEnd n _ w w _ (is_refused e refused) again

    asked-HasEnd :
        (n : ℕ) (w : W) (query : Option Query)
        → query_of host q w ≡ query
        → (policy.attempts ≤ suc n) ⊎ HasEnd (suc n) (wait id q rest) w
        → HasEnd n (wait id q rest) w
    asked-HasEnd n w none e again = failed-HasEnd n _ w w _ (complains e) again
    asked-HasEnd n w (some query) e again = replied-HasEnd n w query _ e refl again

    wait-HasEnd :
        (left n : ℕ) (w : W) → policy.attempts ≤ n + suc left → HasEnd n (wait id q rest) w
    wait-HasEnd zero n w bound = asked-HasEnd n w _ refl (inl (omega (arith, bound)))
    wait-HasEnd (suc left) n w bound =
        asked-HasEnd n w _ refl (inr (wait-HasEnd left (suc n) w (omega (arith, bound))))

  -- Every workflow has an end, from any number of attempts on.
  pub Flow-HasEnd : (flow : Flow W) (n : ℕ) (w : W) → HasEnd n flow w
  Flow-HasEnd (finish v) n w = (1, 0, completed v, w, finished)
  Flow-HasEnd (fail message stack) n w = fail-HasEnd message stack policy.attempts n w (omega arith)
  Flow-HasEnd (step id fn rest) n w =
      step-HasEnd id fn rest (λ v. Flow-HasEnd (rest v)) policy.attempts n w (omega arith)
  Flow-HasEnd (wait id q rest) n w =
      wait-HasEnd id q rest (λ v. Flow-HasEnd (rest v)) policy.attempts n w (omega arith)
