-- ===== src/Manager/Frames.antt =====
-- The frames that the manager sends on /chat (manager/src/main.rs). A constructor stands for the
-- `type` of a frame and holds its other fields; an error frame omits the fields that are `none`.
use llm_chat.Prelude.{ℕ, Text, Bool, Option, List, ℤ}
use llm_chat.Json.{Json}

-- `OwnUsage` and `OwnDaily`: a user's own totals, and one day of them.
pub record OwnUsage : Type 0 where
  pub requests : ℕ
  pub chars_in : ℕ
  pub chars_out : ℕ
  pub files : ℕ
  pub file_bytes : ℤ
  pub last_used : Option Text

pub record OwnDaily : Type 0 where
  pub day : Text
  pub requests : ℕ
  pub chars_in : ℕ
  pub chars_out : ℕ
  pub files : ℕ
  pub file_bytes : ℤ

pub data Frame : Type 0 where
  initialized : (sid : Text) (backend_port : ℕ) (connection_id time_out : Text) → Frame
  ack : (id : Text) (seq : ℕ) (time_in : Text) → Frame
  a : (id : Text) (seq : ℕ) (text time_in time_out : Text) (latency_ms : ℤ) → Frame
  err : (id : Option Text) (seq : Option ℕ) (text : Text) (time_in time_out : Option Text) → Frame
  usage : (user_id user_name : Text) (total : OwnUsage) (daily : List OwnDaily) → Frame
  dir : (entries : Json) (truncated : Bool) → Frame
