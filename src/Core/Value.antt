-- ===== src/Core/Value.antt =====
-- crates/psst-core/src/value.rs: texts that are valid by construction. A validated newtype is held as
-- the text that it wraps, and `new` is its only constructor.
pub mod Accepted
use psst.Prelude.{
  ℕ, ◌*◌, String, Bool, not, ◌&&◌, ◌||◌, ltb, eqb, all, any, is_some_and, if◌then◌else◌,
}
use psst.Prelude.Texts.{
  chars, as_bytes, len, is_empty, is_control, trim, is_ascii_lowercase, is_ascii_digit,
  is_ascii_alphanumeric, first, last, codes_eq,
}
use psst.Core.Error.{Result, ok, err, InvalidValue, new_invalid}

abbrev pub SquadName : Type 0
SquadName = String

abbrev pub MemberName : Type 0
MemberName = String

abbrev pub Mission : Type 0
Mission = String

abbrev pub Role : Type 0
Role = String

abbrev pub DedupeKey : Type 0
DedupeKey = String

abbrev pub CorrelationId : Type 0
CorrelationId = String

abbrev pub MessageBody : Type 0
MessageBody = String

-- The constructor that the macro `text_value!` writes.
unfoldable pub text_value :
    String → ℕ → (String → Bool) → String → String → Result InvalidValue String
text_value field max validator reason value =
    if is_empty (as_bytes value)
    then err (new_invalid field "must not be empty")
    else if ltb max (len value)
    then err (new_invalid field "is too large")
    else if not (validator value)
    then err (new_invalid field reason)
    else ok value

unfoldable pub valid_squad_name : String → Bool
valid_squad_name value =
    let bytes = as_bytes value in
    is_some_and (first bytes) is_ascii_alphanumeric
    && is_some_and (last bytes) is_ascii_alphanumeric
    && all (λ b. is_ascii_lowercase b || is_ascii_digit b || eqb b b'-') bytes

unfoldable pub valid_member_name : String → Bool
valid_member_name value =
    let bytes = as_bytes value in
    is_some_and (first bytes) is_ascii_alphanumeric
    && is_some_and (last bytes) is_ascii_alphanumeric
    && all
        (λ b. is_ascii_lowercase b || is_ascii_digit b || (eqb b b'-' || eqb b b'_' || eqb b b'.'))
        bytes

unfoldable pub trimmed_nonempty : String → Bool
trimmed_nonempty value =
    codes_eq (trim (chars value)) (chars value) && not (is_empty (trim (chars value)))

unfoldable pub printable : String → Bool
unfolding trimmed_nonempty
printable value = trimmed_nonempty value && not (any is_control (chars value))

unfoldable pub squad_name : String → Result InvalidValue SquadName
unfolding text_value
squad_name = text_value "squad_name" 64 valid_squad_name "must be a lowercase ASCII routing name"

unfoldable pub member_name : String → Result InvalidValue MemberName
unfolding text_value
member_name = text_value "member_name" 64 valid_member_name "must be a lowercase ASCII routing name"

unfoldable pub mission : String → Result InvalidValue Mission
unfolding text_value
mission = text_value "mission" 4096 trimmed_nonempty "must not have surrounding whitespace"

unfoldable pub role : String → Result InvalidValue Role
unfolding text_value
role = text_value "role" 256 trimmed_nonempty "must not have surrounding whitespace"

unfoldable pub dedupe_key : String → Result InvalidValue DedupeKey
unfolding text_value
dedupe_key =
    text_value "dedupe_key" 256 printable
      "must contain printable text without surrounding whitespace"

unfoldable pub correlation_id : String → Result InvalidValue CorrelationId
unfolding text_value
correlation_id =
    text_value "correlation_id" 256 printable
      "must contain printable text without surrounding whitespace"

abbrev pub max_body_bytes : ℕ
max_body_bytes = 64 * 1024

-- `MessageBody::new`.
unfoldable pub message_body : String → Result InvalidValue MessageBody
message_body value =
    if is_empty (as_bytes value)
    then err (new_invalid "message_body" "must not be empty")
    else if ltb max_body_bytes (len value)
    then err (new_invalid "message_body" "is too large")
    else ok value
