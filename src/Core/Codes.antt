-- ===== src/Core/Codes.antt =====
-- The wire names of crates/psst-core/src/error.rs.
use psst.Prelude.{◌≡◌, refl, sym, ap, ◌∙◌, Option, some, List, [], ◌∷◌, String, find_row, ◌==◌}
use psst.Core.Error.{ErrorCode, as_str}

abbrev every_code : List ErrorCode
every_code =
    ErrorCode.invalid_request ∷ ErrorCode.not_found ∷ ErrorCode.squad_archived
    ∷ ErrorCode.not_member ∷ ErrorCode.name_in_use ∷ ErrorCode.lease_expired
    ∷ ErrorCode.recipient_not_found ∷ ErrorCode.idempotency_conflict ∷ ErrorCode.payload_too_large
    ∷ ErrorCode.rate_limited ∷ ErrorCode.database_busy ∷ ErrorCode.internal_error
    ∷ ErrorCode.invalid_state_transition ∷ []

-- The code that a wire name stands for.
unfoldable code_named : String → Option ErrorCode
unfolding as_str find_row
code_named s = find_row (λ c. as_str c == s) every_code

code_named-as_str : (c : ErrorCode) → code_named (as_str c) ≡ some c
unfolding code_named
code_named-as_str ErrorCode.invalid_request = refl
code_named-as_str ErrorCode.not_found = refl
code_named-as_str ErrorCode.squad_archived = refl
code_named-as_str ErrorCode.not_member = refl
code_named-as_str ErrorCode.name_in_use = refl
code_named-as_str ErrorCode.lease_expired = refl
code_named-as_str ErrorCode.recipient_not_found = refl
code_named-as_str ErrorCode.idempotency_conflict = refl
code_named-as_str ErrorCode.payload_too_large = refl
code_named-as_str ErrorCode.rate_limited = refl
code_named-as_str ErrorCode.database_busy = refl
code_named-as_str ErrorCode.internal_error = refl
code_named-as_str ErrorCode.invalid_state_transition = refl

some-injective : (a b : ErrorCode) → ◌≡◌ {A = Option ErrorCode} (some a) (some b) → a ≡ b
some-injective a b h = cc

-- No two error codes have one wire name, so a client that matches on the name tells every code apart.
as_str-injective : (a b : ErrorCode) → as_str a ≡ as_str b → a ≡ b
as_str-injective a b h =
    some-injective a b (sym (code_named-as_str a) ∙ ap code_named h ∙ code_named-as_str b)
