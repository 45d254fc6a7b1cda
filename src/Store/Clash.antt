-- ===== src/Store/Clash.antt =====
-- The UNIQUE constraints of crates/psst-store/migrations, as the pairs of rows that they forbid.
use psst.Prelude.{Bool, ◌&&◌, is_none, ◌==◌}
use psst.Store.Schema.{SquadRecord, AgentRow, MembershipRow, InstanceRow, MessageRow}

abbrev pub squad_id : SquadRecord → SquadRecord → Bool
squad_id a b = a.id == b.id

abbrev pub squad_name : SquadRecord → SquadRecord → Bool
squad_name a b = a.name == b.name

abbrev pub agent_id : AgentRow → AgentRow → Bool
agent_id a b = a.id == b.id

abbrev pub membership_id : MembershipRow → MembershipRow → Bool
membership_id a b = a.id == b.id

-- The index `memberships_active_name`.
abbrev pub active_name : MembershipRow → MembershipRow → Bool
active_name a b =
    is_none a.left_at
    && is_none b.left_at
    && (a.squad_id == b.squad_id && a.normalized_name == b.normalized_name)

abbrev pub instance_id : InstanceRow → InstanceRow → Bool
instance_id a b = a.id == b.id

-- The index `instances_unclosed_owner`.
abbrev pub unclosed_owner : InstanceRow → InstanceRow → Bool
unclosed_owner a b =
    is_none a.closed_at && is_none b.closed_at && a.membership_id == b.membership_id

abbrev pub message_id : MessageRow → MessageRow → Bool
message_id a b = a.id == b.id

-- The index `messages_dedupe`.
abbrev pub dedupe : MessageRow → MessageRow → Bool
dedupe a b =
    a.semantics.squad == b.semantics.squad
    && (a.semantics.sender == b.semantics.sender && a.dedupe_key == b.dedupe_key)
