-- ===== src/Core/Message.antt =====
-- crates/psst-core/src/message.rs: what decides whether a retry is the same logical send.
use psst.Prelude.{
  ◌≡◌, ◌↔◌, String, Bool, true, false, ◌&&◌, Option, none, some, arith, ◌==◌, eq_iff,
}
use psst.Core.Id.{SquadId, MembershipId, MessageId}
use psst.Core.Value.{MessageBody, CorrelationId}

pub data MessagePriority : Type 0 where
  normal high : MessagePriority

abbrev pub priority_eq : MessagePriority → MessagePriority → Bool
priority_eq normal normal = true
priority_eq high high = true
priority_eq normal high = false
priority_eq high normal = false

abbrev pub opt_eq : Option String → Option String → Bool
opt_eq none none = true
opt_eq (some a) (some b) = a == b
opt_eq none (some _) = false
opt_eq (some _) none = false

pub opt_eq_iff : (a b : Option String) → (opt_eq a b ≡ true) ↔ (a ≡ b)
opt_eq_iff none none = ground arith
opt_eq_iff none (some b) = ground arith
opt_eq_iff (some a) none = ground arith
opt_eq_iff (some a) (some b) = ground (arith, eq_iff a b)

pub record MessageSemantics : Type 0 where
  pub squad : SquadId
  pub sender : MembershipId
  pub recipient : MembershipId
  pub body : MessageBody
  pub priority : MessagePriority
  pub reply_to : Option MessageId
  pub correlation_id : Option CorrelationId

-- The derived equality.
unfoldable pub matches_retry : MessageSemantics → MessageSemantics → Bool
matches_retry a b =
    a.squad == b.squad
    && a.sender == b.sender
    && a.recipient == b.recipient
    && a.body == b.body
    && priority_eq a.priority b.priority
    && opt_eq a.reply_to b.reply_to
    && opt_eq a.correlation_id b.correlation_id

-- Two sends match exactly when every semantic field agrees.
pub matches_retry_iff : (a b : MessageSemantics) → (matches_retry a b ≡ true) ↔ (a ≡ b)
unfolding matches_retry
matches_retry_iff a b = ground (
  arith,
  eq_iff a.squad b.squad,
  eq_iff a.sender b.sender,
  eq_iff a.recipient b.recipient,
  eq_iff a.body b.body,
  opt_eq_iff a.reply_to b.reply_to,
  opt_eq_iff a.correlation_id b.correlation_id,
)
