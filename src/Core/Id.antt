-- ===== src/Core/Id.antt =====
-- crates/psst-core/src/id.rs: opaque identifiers, a kind's prefix and a suffix of lower-case letters,
-- digits and dashes. An identifier is held as the text that it wraps.
pub mod Kinds
use psst.Prelude.{
  ℕ, String, Bool, not, ◌||◌, List, [], ◌∷◌, ◌++◌, none, some, ltb, eqb, all, if◌then◌else◌,
}
use psst.Prelude.Texts.{
  chars, encode_all, len, is_empty, is_ascii_lowercase, is_ascii_digit, strip_prefix,
}
use psst.Core.Error.{Result, ok, err, InvalidValue, new_invalid}

abbrev pub SquadId : Type 0
SquadId = String

abbrev pub AgentId : Type 0
AgentId = String

abbrev pub MembershipId : Type 0
MembershipId = String

abbrev pub InstanceId : Type 0
InstanceId = String

abbrev pub MessageId : Type 0
MessageId = String

abbrev pub is_id_byte : ℕ → Bool
is_id_byte byte = is_ascii_lowercase byte || is_ascii_digit byte || eqb byte b'-'

-- What the constructor does with the text behind the prefix.
unfoldable pub id_with_suffix : String → String → List ℕ → Result InvalidValue String
id_with_suffix name value suffix =
    if is_empty suffix || ltb 128 (len value)
    then err (new_invalid name "has an invalid length")
    else if not (all is_id_byte (encode_all suffix))
    then err (new_invalid name "contains invalid characters")
    else ok value

-- The constructor that the macro `opaque_id!` writes.
unfoldable pub opaque_id : String → String → String → Result InvalidValue String
unfolding id_with_suffix
opaque_id name prefix value = elim (strip_prefix (chars prefix ++ b'_' ∷ []) (chars value)) [
  | none ↦ err (new_invalid name "has the wrong prefix")
  | some suffix ↦ id_with_suffix name value suffix
]

unfoldable pub squad_id : String → Result InvalidValue SquadId
unfolding opaque_id
squad_id = opaque_id "SquadId" "sqd"

unfoldable pub agent_id : String → Result InvalidValue AgentId
unfolding opaque_id
agent_id = opaque_id "AgentId" "agt"

unfoldable pub membership_id : String → Result InvalidValue MembershipId
unfolding opaque_id
membership_id = opaque_id "MembershipId" "mem"

unfoldable pub instance_id : String → Result InvalidValue InstanceId
unfolding opaque_id
instance_id = opaque_id "InstanceId" "ins"

unfoldable pub message_id : String → Result InvalidValue MessageId
unfolding opaque_id
message_id = opaque_id "MessageId" "msg"
