-- ===== src/Util/SendAosMessage.antt =====
-- src/util/send-aos-message.ts: messages to an AO process and dry runs of it, each retried while the
-- error says 500. The calls of the package @permaweb/aoconnect are the parameter `Ao`.
pub mod Quiet
pub mod Retries
use operator_registry_contro.Prelude.{
  ℕ, zero, suc, ◌+◌, ◌*◌, ◌^◌, Bool, Option, none, some, List, [], ◌∷◌, ◌++◌, Text, text, index_of,
  is_some, if◌then◌else◌, Result, ok, err, Action, ◌>>=◌, pure,
}
use operator_registry_contro.World.{World, Error, service_error, undefined_error, AoMessage, Call}

-- A result of an AO process: its `Error`, and the `Data` of each of its `Messages`.
pub record AoResult : Type 0 where
  pub error : Option Text
  pub messages : Option (List Text)

pub record Ao (E : Type 0) : Type 0 where
  pub message : AoMessage → Call E Text
  pub result : Text → Text → Call E AoResult
  pub dryrun : AoMessage → Call E AoResult

-- `error.message.includes('500')`
pub is_transient : Text → Bool
is_transient message = is_some (index_of (text "500") message)

-- `throw lastError`
pub last_thrown : Option Text → Error
last_thrown none = undefined_error
last_thrown (some message) = service_error message

pub backoff : ℕ → ℕ
backoff attempts = 2 ^ attempts * 2000

module _ {E A : Type 0} (attempt : Action (World E) Text A) where
  -- what follows the `try` block, where `again` goes on with the loop
  pub after_attempt :
      ℕ → (Option Text → Action (World E) Error A) → Result Text A → Action (World E) Error A
  after_attempt attempts again (ok a) w = (ok a, w)
  after_attempt attempts again (err message) w =
      if is_transient message
      then again (some message) (record w { slept = w.slept ++ backoff attempts ∷ [] })
      else (err (service_error message), w)

  -- `while (attempts < retries)`, where `left` is `retries - attempts`
  pub retry_loop : ℕ → ℕ → Option Text → Action (World E) Error A
  unfolding after_attempt
  retry_loop zero attempts last w = (err (last_thrown last), w)
  retry_loop (suc left) attempts last w =
      after_attempt attempts (retry_loop left (suc attempts)) (attempt w).0 (attempt w).1

module _ {E : Type 0} (ao : Ao E) where
  -- a call that leaves no trace but in the outside
  pub call : {A : Type 0} → Call E A → Action (World E) Text A
  call c w = let (r, e) = c w.env in (r, record w { env = e })

  -- a message that was accepted is sent, whatever happens to its result
  pub log_sent : AoMessage → Result Text Text → World E → World E
  log_sent m (ok id) w = record w { sent = w.sent ++ m ∷ [] }
  log_sent m (err message) w = w

  pub ao_message : AoMessage → Action (World E) Text Text
  unfolding call log_sent
  ao_message m w = let (r, w') = call (ao.message m) w in (r, log_sent m r w')

  pub message_attempt : AoMessage → Action (World E) Text (Text × AoResult)
  unfolding ao_message call
  message_attempt m = do
    message_id ← ao_message m
    result ← call (ao.result message_id m.process_id)
    pure (message_id, result)

  unfoldable pub send_aos_message : AoMessage → ℕ → Action (World E) Error (Text × AoResult)
  unfolding retry_loop message_attempt
  send_aos_message m retries = retry_loop (message_attempt m) retries 0 none

  unfoldable pub send_aos_dry_run : AoMessage → ℕ → Action (World E) Error AoResult
  unfolding retry_loop call
  send_aos_dry_run m retries = retry_loop (call (ao.dryrun m)) retries 0 none
