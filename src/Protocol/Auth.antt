-- ===== src/Protocol/Auth.antt =====
-- crates/psst-protocol/src/auth.rs: the session credential and its headers. A header value is held as
-- its text; which texts `HeaderValue::from_str` of the `http` crate accepts is an argument, as is the
-- base64 codec of the resume token.
pub mod Credentials
use Prim.Native.String.{◌++◌ as ◌<>◌}
use psst.Prelude.{
  ℕ, ◌+◌, String, Bool, true, false, not, ◌||◌, Option, none, some, List, any, ltb, eqb,
  if◌then◌else◌,
}
use psst.Prelude.Texts.{len, as_bytes}
use psst.Prelude.Split.{count_char, split_once, strip_text}
use psst.Core.Error.{Result, ok, err, ◌>>=◌, InvalidValue, new_invalid, map_err}
use psst.Core.Id.{InstanceId, instance_id}
use psst.Core.Secret.{from_encoded}
use psst.Store.Instance.{ResumeToken}

abbrev pub bearer_prefix : String
bearer_prefix = "Bearer "

abbrev pub max_credential_length : ℕ
max_credential_length = 172

abbrev pub invalid_credential : InvalidValue
invalid_credential = new_invalid "authorization" "is not a valid session credential"

pub record SessionCredential : Type 0 where
  pub instance_id : InstanceId
  pub resume_token : ResumeToken

-- `SessionCredential::encoded`.
unfoldable pub encoded : SessionCredential → String
encoded c = c.instance_id <> "." <> c.resume_token

module _ (from_str : String → Bool) where
  -- `SessionCredential::authorization_header`.
  unfoldable pub authorization_header : SessionCredential → Result InvalidValue String
  unfolding encoded
  authorization_header c =
      if from_str (bearer_prefix <> encoded c)
      then ok (bearer_prefix <> encoded c)
      else err invalid_credential

  -- `IssuedSessionHeaders::new`: the value of the credential header.
  unfoldable pub issued_session_header : SessionCredential → Result InvalidValue String
  unfolding encoded
  issued_session_header c = if from_str (encoded c) then ok (encoded c) else err invalid_credential

module _ (encode : List ℕ → String) (decode : String → Option (List ℕ)) where
  abbrev parts : Option (String × String) → Result InvalidValue SessionCredential
  parts none = err invalid_credential
  parts (some (instance_, token)) = do
    i ← map_err (λ _. invalid_credential) (instance_id instance_)
    t ← map_err (λ _. invalid_credential) (from_encoded encode decode token)
    ok (record { instance_id = i; resume_token = t })

  -- `SessionCredential::parse_session_value`.
  unfoldable pub parse_session_value : String → Result InvalidValue SessionCredential
  unfolding len count_char split_once instance_id from_encoded
  parse_session_value value =
      if eqb (len value) 0
        || ltb max_credential_length (len value)
        || not (eqb (count_char b'.' value) 1)
      then err invalid_credential
      else parts (split_once b'.' value)

  abbrev stripped : Option String → Result InvalidValue SessionCredential
  stripped none = err invalid_credential
  stripped (some rest) = parse_session_value rest

  -- `SessionCredential::parse_authorization`.
  unfoldable pub parse_authorization : String → Result InvalidValue SessionCredential
  unfolding parse_session_value strip_text
  parse_authorization value =
      if ltb (len bearer_prefix + max_credential_length) (len value)
      then err invalid_credential
      else stripped (strip_text bearer_prefix value)
