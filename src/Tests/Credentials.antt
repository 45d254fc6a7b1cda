-- ===== src/Tests/Credentials.antt =====
-- A session credential of crates/psst-protocol/src/auth.rs, written and read.
use Prim.Native.String.{◌++◌ as ◌<>◌}
use psst.Prelude.{ℕ, zero, suc, ◌≡◌, ◌↔◌, refl, String, Option, some, List, [], ◌∷◌, true, all}
use psst.Prelude.Texts.{as_bytes, strip_prefix, is_empty}
use psst.Core.Error.{ok}
use psst.Protocol.Auth.{SessionCredential, bearer_prefix, encoded, parse_authorization}
use psst.Protocol.Auth.Credentials.{IsValid, is_url_safe, parse_authorization_iff}

-- The codec at the token of thirty-two zeros.
abbrev pub encode : List ℕ → String
encode bytes = "AAAAAAAAAAAAAAAAAAAAAAAAAAAAAAAAAAAAAAAAAAA"

abbrev zeros : ℕ → List ℕ
zeros zero = []
zeros (suc n) = 0 ∷ zeros n

abbrev pub decode : String → Option (List ℕ)
decode value = some (zeros 32)

encode-safe : (bytes : List ℕ) → all is_url_safe (as_bytes (encode bytes)) ≡ true
unfolding as_bytes
encode-safe bytes = refl

abbrev credential : SessionCredential
credential = record { instance_id = "ins_7f"; resume_token = encode [] }

parse_authorization_iff_example :
    (parse_authorization encode decode "Bearer ins_7f.AAAAAAAAAAAAAAAAAAAAAAAAAAAAAAAAAAAAAAAAAAA"
      ≡ ok credential)
    ↔ (("Bearer ins_7f.AAAAAAAAAAAAAAAAAAAAAAAAAAAAAAAAAAAAAAAAAAA"
          ≡ bearer_prefix <> encoded credential)
        × IsValid encode decode encode-safe credential)
parse_authorization_iff_example =
    parse_authorization_iff encode decode encode-safe
      "Bearer ins_7f.AAAAAAAAAAAAAAAAAAAAAAAAAAAAAAAAAAAAAAAAAAA" credential

reads :
    parse_authorization encode decode "Bearer ins_7f.AAAAAAAAAAAAAAAAAAAAAAAAAAAAAAAAAAAAAAAAAAA"
    ≡ ok credential
unfolding parse_authorization strip_prefix is_empty
reads = refl
