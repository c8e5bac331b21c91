-- ===== src/Shared/Annotate/Breaker.antt =====
-- The circuit breaker of the annotation transport, over any sequence of posts.
use memory_bridge.Base.{
  ◌≢◌, ℕ, zero, suc, ◌+◌, ◌*◌, ◌≤◌, ◌<◌, ◌≡◌, refl, Bool, true, false, inl, inr, List, [], ◌∷◌,
  some, arith, if◌then◌else◌, Option-cases,
}
use memory_bridge.Shared.Annotate.{
  http_error, CursorField, object, malformed, http_error, connection_failed, raises, Net, Reply,
  Annotator, PostResult, new_annotator, attempt, attempt_loop, register_failure, send, post,
}

attempt_loop-sent :
    (net : Net) (retries sent : ℕ)
    → (sent < (attempt_loop net retries sent).1)
      × ((attempt_loop net retries sent).1 ≤ sent + 1 + retries)
unfolding attempt_loop
attempt_loop-sent net zero sent = omega arith
attempt_loop-sent net (suc retries) sent = ground (arith, attempt_loop-sent net retries (sent + 1))

send-sent :
    (net : Net) (retries : ℕ) (serializable : Bool) (sent : ℕ)
    → (sent ≤ (send net retries serializable sent).1)
      × ((send net retries serializable sent).1 ≤ sent + 1 + retries)
unfolding send
send-sent net retries true sent = ground (arith, attempt_loop-sent net retries sent)
send-sent net retries false sent = ground arith

module _ (net : Net) (retries max_consecutive_errors : ℕ) where
  abbrev pub posts_to : Bool → Annotator → PostResult × Annotator × Bool
  posts_to = post net retries max_consecutive_errors

  -- The breaker is open exactly when the failure count has reached the limit.
  pub record IsSound (a : Annotator) : Type 0 where
    pub closed_below : a.breaker_open ≡ false → a.consecutive_failures < max_consecutive_errors
    pub open_at : a.breaker_open ≡ true → a.consecutive_failures ≡ max_consecutive_errors

  -- One request keeps the breaker's rule.
  post-IsSound :
      (serializable : Bool) (a : Annotator)
      → 0 < max_consecutive_errors
      → IsSound a
      → IsSound (posts_to serializable a).1
  unfolding post register_failure
  post-IsSound serializable a pos h = ground arith

  -- The requests of an episode in order, each with its body's serializability.
  unfoldable pub run : List Bool → Annotator → Annotator
  run [] a = a
  run (s ∷ rest) a = run rest (posts_to s a).1

  -- How often `on_breaker` fires in them.
  pub trips : List Bool → Annotator → ℕ
  trips [] a = 0
  trips (s ∷ rest) a = (if (posts_to s a).2 then 1 else 0) + trips rest (posts_to s a).1

  run-IsSound :
      (requests : List Bool) (a : Annotator)
      → 0 < max_consecutive_errors
      → IsSound a
      → IsSound (run requests a)
  unfolding run
  run-IsSound [] a pos h = h
  run-IsSound (s ∷ rest) a pos h = run-IsSound rest (posts_to s a).1 pos (post-IsSound s a pos h)

  -- Over any requests of a fresh annotator the breaker is open exactly when the failures in a row
  -- have reached the configured limit, which must be positive.
  pub run-new_annotator-IsSound :
      (requests : List Bool) → 0 < max_consecutive_errors → IsSound (run requests new_annotator)
  run-new_annotator-IsSound requests pos = run-IsSound requests new_annotator pos (ground arith)

  post-trips :
      (serializable : Bool) (a : Annotator)
      → (if (posts_to serializable a).2 then 1 else 0) + (if a.breaker_open then 1 else 0)
        ≡ (if (posts_to serializable a).1.breaker_open then 1 else 0)
  unfolding post register_failure
  post-trips serializable a = ground arith

  run-trips :
      (requests : List Bool) (a : Annotator)
      → trips requests a + (if a.breaker_open then 1 else 0)
        ≡ (if (run requests a).breaker_open then 1 else 0)
  unfolding run trips
  run-trips [] a = omega arith
  run-trips (s ∷ rest) a = omega (arith, post-trips s a, run-trips rest (posts_to s a).1)

  -- Whatever the requests and the network, `on_breaker` fires once if the breaker is open at their
  -- end, and not at all if it is closed.
  pub trips-new_annotator :
      (requests : List Bool)
      → trips requests new_annotator ≡ (if (run requests new_annotator).breaker_open then 1 else 0)
  trips-new_annotator requests = omega (arith, run-trips requests new_annotator)

  -- No attempt gets an answer that counts as success.
  abbrev pub IsDead : Type 0
  IsDead = (k status : ℕ) (field : CursorField) → net.reply k ≢ object status field

  dead_attempt : (k : ℕ) (r : PostResult) → IsDead → attempt (net.reply k) ≡ some r → r.ok ≡ false
  unfolding attempt
  dead_attempt k r dead h = go (net.reply k) refl h
    where
      go : (x : Reply) → net.reply k ≡ x → attempt x ≡ some r → r.ok ≡ false
      go (object status field) e p = absurd (dead k status field e)
      go malformed e p = ground arith
      go (http_error code) e p = ground arith
      go connection_failed e p = ground arith
      go raises e p = cc

  dead_loop :
      (tries sent : ℕ) (r : PostResult)
      → IsDead
      → (attempt_loop net tries sent).0 ≡ some r
      → r.ok ≡ false
  unfolding attempt_loop
  dead_loop zero sent r dead h = dead_attempt sent r dead h
  dead_loop (suc tries) sent r dead h =
      ground (arith, dead_attempt sent r dead, dead_loop tries (sent + 1) r dead)

  dead_send :
      (serializable : Bool) (sent : ℕ) → IsDead → (send net retries serializable sent).0.ok ≡ false
  unfolding send
  dead_send true sent dead = elim (Option-cases (attempt_loop net retries sent).0) [
    | inl e ↦ rw e
    | inr (r, e) ↦ rw e (dead_loop retries sent r dead e)
  ]
  dead_send false sent dead = refl

  one_more : (n : ℕ) → (1 + retries) * (n + 1) ≡ (1 + retries) * n + 1 + retries
  one_more n = omega arith

  -- Each failing request makes at most `1 + retries` attempts and counts one failure.
  post_dead :
      (serializable : Bool) (a : Annotator)
      → IsDead
      → a.sent ≤ (1 + retries) * a.consecutive_failures
      → (posts_to serializable a).1.sent
        ≤ (1 + retries) * (posts_to serializable a).1.consecutive_failures
  unfolding post register_failure
  post_dead serializable a dead h = ground (
    arith,
    dead_send serializable a.sent dead,
    send-sent net retries serializable a.sent,
    one_more a.consecutive_failures,
  )

  run_dead :
      (requests : List Bool) (a : Annotator)
      → IsDead
      → a.sent ≤ (1 + retries) * a.consecutive_failures
      → (run requests a).sent ≤ (1 + retries) * (run requests a).consecutive_failures
  unfolding run
  run_dead [] a dead h = h
  run_dead (s ∷ rest) a dead h = run_dead rest (posts_to s a).1 dead (post_dead s a dead h)

  -- Where no attempt succeeds, any number of requests makes at most `1 + retries` attempts for each
  -- of the failures that open the breaker.
  pub run-sent-le :
      (requests : List Bool)
      → 0 < max_consecutive_errors
      → IsDead
      → (run requests new_annotator).sent ≤ (1 + retries) * max_consecutive_errors
  run-sent-le requests pos dead = bound
    where
      sound : IsSound (run requests new_annotator)
      sound = run-new_annotator-IsSound requests pos

      few : (run requests new_annotator).consecutive_failures ≤ max_consecutive_errors
      few = ground (arith, sound)

      bound : (run requests new_annotator).sent ≤ (1 + retries) * max_consecutive_errors
      bound = grind (arith, few, run_dead requests new_annotator dead (omega arith))
