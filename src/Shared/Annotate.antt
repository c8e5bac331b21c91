-- ===== src/Shared/Annotate.antt =====
-- The annotation transport of shared-bridge/src/shared_bridge/annotate.py: `PostResult` and
-- `Annotator`. The network is an argument, `Net`: the outcome of each attempt in the order in which
-- attempts are made, whatever it depends on, and the monotonic clock after so many attempts.
pub mod Breaker
use memory_bridge.Base.{
  ℕ, zero, suc, ◌+◌, ◌-◌, Bool, true, false, ◌&&◌, ◌||◌, not, List, [], ◌∷◌, ◌++◌, Option, none,
  some, ltb, leb, if◌then◌else◌,
}

-- The value under "role_call_cursor" of a decoded body.
pub data CursorField : Type 0 where
  absent other : CursorField
  flag : Bool → CursorField
  number : ℕ → CursorField

-- What one `urlopen` and the decoding of its answer come to.
pub data Reply : Type 0 where
  object : ℕ → CursorField → Reply
  malformed : Reply
  http_error : ℕ → Reply
  connection_failed : Reply
  raises : Reply

pub record Net : Type 0 where
  pub reply : ℕ → Reply
  pub clock : ℕ → ℕ

pub record PostResult : Type 0 where
  pub ok : Bool
  pub status : Option ℕ
  pub body : Option CursorField
  pub skipped : Bool
  pub definitive : Bool

-- `PostResult(ok=False)`, the dataclass's defaults
abbrev pub failed_post : PostResult
failed_post = record { ok = false; status = none; body = none; skipped = false; definitive = false }

-- The `cursor` property: a stray true or false is not a lane cursor.
unfoldable pub cursor : PostResult → Option ℕ
cursor result = elim result.body [ some (number n) ↦ some n | _ ↦ none ]

-- `_attempt`; `none` is an exception that it lets through.
unfoldable pub attempt : Reply → Option PostResult
attempt (object status field) =
    some (record failed_post { ok = true; status = some status; body = some field })
attempt malformed = some (record failed_post { definitive = true })
attempt (http_error code) = some (record failed_post { status = some code })
attempt connection_failed = some failed_post
attempt raises = none

-- `result.status is not None and result.status < 500`
unfoldable pub is_rejection : PostResult → Bool
is_rejection result = elim result.status [ none ↦ false | some code ↦ ltb code 500 ]

unfoldable pub is_final : PostResult → Bool
unfolding is_rejection
is_final result = result.ok || result.definitive || is_rejection result

-- `_attempt_loop` with the attempts made so far: the result, and the attempts made then.
unfoldable pub attempt_loop : Net → ℕ → ℕ → Option PostResult × ℕ
unfolding attempt is_final
attempt_loop net zero sent = (attempt (net.reply sent), sent + 1)
attempt_loop net (suc retries) sent =
    let rest = attempt_loop net retries (sent + 1) in
    elim (attempt (net.reply sent)) [
      | none ↦ (none, sent + 1)
      | some result ↦ if is_final result then (some result, sent + 1) else rest
    ]

-- The `Annotator`'s fields that change, and `sent`, the attempts made on the network.
pub record Annotator : Type 0 where
  pub consecutive_failures : ℕ
  pub breaker_open : Bool
  pub duration : ℕ
  pub sent : ℕ

abbrev pub new_annotator : Annotator
new_annotator = record { consecutive_failures = 0; breaker_open = false; duration = 0; sent = 0 }

-- `_register_failure`; the flag says that `on_breaker` fires.
unfoldable pub register_failure : ℕ → Annotator → Annotator × Bool
register_failure max_consecutive_errors a =
    let failures = a.consecutive_failures + 1 in
    if not a.breaker_open && leb max_consecutive_errors failures
    then (record a { consecutive_failures = failures; breaker_open = true }, true)
    else (record a { consecutive_failures = failures }, false)

-- The guarded block of `post`: a body that cannot be serialized makes no attempt.
unfoldable pub send : Net → ℕ → Bool → ℕ → PostResult × ℕ
unfolding attempt_loop
send net retries serializable sent =
    if serializable
    then (let (result, sent') = attempt_loop net retries sent in
        elim result [ none ↦ (failed_post, sent') | some r ↦ (r, sent') ])
    else (failed_post, sent)

-- `post`: the result, the annotator, and whether `on_breaker` fired.
unfoldable pub post : Net → ℕ → ℕ → Bool → Annotator → PostResult × Annotator × Bool
unfolding send register_failure
post net retries max_consecutive_errors serializable a =
    if a.breaker_open
    then (record failed_post { skipped = true }, a, false)
    else (let (result, sent) = send net retries serializable a.sent in
        let a' : Annotator = record a {
          sent = sent;
          duration = a.duration + (net.clock sent - net.clock a.sent);
        } in
        let (failed, tripped) = register_failure max_consecutive_errors a' in
        if result.ok
        then (result, record a' { consecutive_failures = 0 }, false)
        else (result, failed, tripped))

-- `consume_duration`
unfoldable pub consume_duration : Annotator → ℕ × Annotator
consume_duration a = (a.duration, record a { duration = 0 })
