-- ===== src/Application/Profile.antt =====
-- crates/psst-application/src/profile.rs: the binding of a profile to a membership. `canonical_relay_origin`
-- of config.rs, which parses an origin by the `url` crate, is an argument.
use psst.Prelude.{ℕ, String, Bool, not, ◌||◌, eqb, ltb, all, ◌==◌, if◌then◌else◌}
use psst.Prelude.Texts.{as_bytes, len, is_ascii_alphanumeric}
use psst.Core.Error.{Result, ok, err, ◌>>=◌, ◌>>◌}
use psst.Core.Value.{squad_name}
use psst.Core.Id.{squad_id, membership_id}

pub data ConfigError : Type 0 where
  read parse : ConfigError
  invalid : String → ConfigError
  platform_paths : ConfigError

abbrev pub profile_version : ℕ
profile_version = 1

pub record ProfileBinding : Type 0 where
  pub version : ℕ
  pub profile : String
  pub relay_origin : String
  pub squad_name : String
  pub squad_id : String
  pub member_id : String

-- `config::validate_profile_name`.
unfoldable pub validate_profile_name : String → Result ConfigError (Unit {0})
unfolding len as_bytes
validate_profile_name v =
    if eqb (len v) 0
      || ltb 64 (len v)
      || not (all (λ b. is_ascii_alphanumeric b || (eqb b b'-' || eqb b b'_')) (as_bytes v))
    then err (invalid "profile")
    else ok tt

abbrev is_err {ℓ κ} : {E : Type κ} {A : Type ℓ} → Result E A → Bool
is_err (ok _) = Bool.false
is_err (err _) = Bool.true

module _ (canonical_relay_origin : String → Result ConfigError String) where
  -- `ProfileBinding::validate`.
  unfoldable pub validate_binding : ProfileBinding → Result ConfigError (Unit {0})
  unfolding validate_profile_name squad_name squad_id membership_id
  validate_binding b =
      if not (eqb b.version profile_version) then err (invalid "profile binding version") else do
        validate_profile_name b.profile
        canonical ← canonical_relay_origin b.relay_origin
        if not (canonical == b.relay_origin)
              || is_err (squad_name b.squad_name)
              || is_err (squad_id b.squad_id)
              || is_err (membership_id b.member_id)
            then err (invalid "profile binding")
            else ok tt

  -- `ProfileBinding::new`.
  unfoldable pub new_binding :
      String → String → String → String → String → Result ConfigError ProfileBinding
  unfolding validate_binding
  new_binding profile relay_origin squad id member = do
    canonical ← canonical_relay_origin relay_origin
    let value : ProfileBinding = record {
      version = profile_version;
      profile = profile;
      relay_origin = canonical;
      squad_name = squad;
      squad_id = id;
      member_id = member;
    }
    validate_binding value
    ok value
