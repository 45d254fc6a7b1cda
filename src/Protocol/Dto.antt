-- ===== src/Protocol/Dto.antt =====
-- crates/psst-protocol/src/dto.rs: the types on the wire that other parts of the model use.
pub data MessagePriorityDto : Type 0 where
  normal high : MessagePriorityDto
