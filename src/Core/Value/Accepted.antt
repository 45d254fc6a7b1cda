-- ===== src/Core/Value/Accepted.antt =====
-- What the constructors of crates/psst-core/src/value.rs accept.
use psst.Prelude.{
  ℕ, ◌≡◌, ◌≤◌, ◌↔◌, refl, String, Bool, true, false, ◌||◌, List, [], ◌∷◌, all, arith, eqb,
}
use psst.Prelude.Texts.{as_bytes, len, is_empty, is_ascii_lowercase, is_ascii_digit}
use psst.Core.Error.{ok}
use psst.Core.Value.{
  text_value, valid_squad_name, valid_member_name, squad_name, member_name, message_body,
}

text_value-ok :
    (field : String) (max : ℕ) (validator : String → Bool) (reason value v : String)
    → (text_value field max validator reason value ≡ ok v) ↔ (
        (v ≡ value)
        × ((is_empty (as_bytes value) ≡ false) × ((len value ≤ max) × (validator value ≡ true))))
unfolding text_value
text_value-ok field max validator reason value v = ground arith

member_bytes :
    (bs : List ℕ)
    → all (λ b. is_ascii_lowercase b || is_ascii_digit b || eqb b b'-') bs ≡ true
    → all
        (λ b. is_ascii_lowercase b || is_ascii_digit b || (eqb b b'-' || eqb b b'_' || eqb b b'.'))
        bs
      ≡ true
member_bytes [] h = refl
member_bytes (b ∷ bs) h = ground (arith, member_bytes bs)

valid_squad_name-valid_member_name :
    (value : String) → valid_squad_name value ≡ true → valid_member_name value ≡ true
unfolding valid_squad_name valid_member_name
valid_squad_name-valid_member_name value h = ground (arith, member_bytes (as_bytes value))

-- Every squad name is a member name: a text that `SquadName::new` accepts, `MemberName::new` accepts as
-- it is.
squad_name-member_name : (value v : String) → squad_name value ≡ ok v → member_name value ≡ ok value
unfolding squad_name member_name
squad_name-member_name value v h = ground (
  arith,
  valid_squad_name-valid_member_name value,
  text_value-ok "squad_name" 64 valid_squad_name "must be a lowercase ASCII routing name" value v,
  text_value-ok "member_name" 64 valid_member_name "must be a lowercase ASCII routing name" value
      value,
)

-- A message body is accepted exactly if it has 1 to 65536 bytes of UTF-8, and it is kept as it is.
message_body_iff :
    (value v : String)
    → (message_body value ≡ ok v)
      ↔ ((v ≡ value) × ((is_empty (as_bytes value) ≡ false) × (len value ≤ 65536)))
unfolding message_body
message_body_iff value v = ground arith
