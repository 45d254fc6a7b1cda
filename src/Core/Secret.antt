-- ===== src/Core/Secret.antt =====
-- crates/psst-core/src/secret.rs: resume tokens, held as the text that they wrap. The base64url alphabet
-- without padding is that of the `base64` crate: `encode` and `decode` are arguments.
use psst.Prelude.{ℕ, String, not, ◌||◌, Option, none, some, List, eqb, length, if◌then◌else◌, ◌==◌}
use psst.Prelude.Texts.{len}
use psst.Core.Error.{Result, ok, err, InvalidValue, new_invalid}

abbrev pub token_bytes : ℕ
token_bytes = 32

abbrev pub token_encoded_length : ℕ
token_encoded_length = 43

module _ (encode : List ℕ → String) (decode : String → Option (List ℕ)) where
  abbrev canonical : String → Option (List ℕ) → Result InvalidValue String
  canonical value none =
      err (new_invalid "resume_token" "must be canonical base64url without padding")
  canonical value (some decoded) =
      if not (eqb (length decoded) token_bytes) || not (encode decoded == value)
      then err (new_invalid "resume_token" "must be a canonical 256-bit token")
      else ok value

  -- `ResumeToken::from_encoded`.
  unfoldable pub from_encoded : String → Result InvalidValue String
  unfolding len
  from_encoded value =
      if not (eqb (len value) token_encoded_length)
      then err (new_invalid "resume_token" "must be a canonical 256-bit token")
      else canonical value (decode value)

  -- `ResumeToken::generate`: the random bytes are absent if the operating system's generator fails.
  unfoldable pub generate : Option (List ℕ) → Option String
  generate none = none
  generate (some bytes) = some (encode bytes)
