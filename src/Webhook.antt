-- ===== src/Webhook.antt =====
-- internal/webhook/webhook.go: what a platform's handler does for the receiver. The request is what the handlers read
-- of it; a header that is missing is empty.
pub mod Receiver
pub mod Github
mod Tests
use kibitz.Prelude.{Bool, Option, List, Bytes, Result}
use kibitz.Event.{ReviewEvent, Problem}

pub record Request : Type 0 where
  pub is_post : Bool
  pub headers : Bytes → Bytes

pub data VerifyError : Type 0 where
  err_missing_signature err_invalid_signature err_no_secrets : VerifyError

-- A payload that could not be parsed, or the problems of the event that it became.
pub data NormalizeError : Type 0 where
  malformed_payload : NormalizeError
  not_valid : List Problem → NormalizeError

pub record Handler : Type 0 where
  pub verify : Request → Bytes → Option VerifyError
  pub normalize : Request → Bytes → Result NormalizeError (Option ReviewEvent)
