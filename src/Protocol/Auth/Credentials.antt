-- ===== src/Protocol/Auth/Credentials.antt =====
-- Writing and reading the session credential of crates/psst-protocol/src/auth.rs.
use Prim.Native.Char.{Char}
use Prim.Native.String.{◌++◌ as ◌<>◌}
use text.Mathlib.TextLemmas.{nil-append, cons-append}
use psst.Prelude.{
  ℕ, ◌+◌, ◌≤◌, ◌≡◌, ◌↔◌, refl, sym, ap, subst, ◌∙◌, String, Bool, true, false, ◌||◌, Option, none,
  some, List, [], ◌∷◌, ◌++◌, all, ltb, eqb, arith, Option-cases, inl, inr, eq_iff,
}
use psst.Prelude.Texts.{chars, len, as_bytes, encode_all, strip_prefix, is_ascii_alphanumeric}
use psst.Prelude.Split.{
  count_char, split_once, strip_text, count_code, count_char-chars, count_code-append,
  count_code-all, count_char-append, len-append, split_once-append, split_once-parts,
  strip_text-append, strip_text-parts,
}
use psst.Core.Error.{ok}
use psst.Core.Id.{opaque_id, id_with_suffix, instance_id, is_id_byte}
use psst.Core.Id.Kinds.{strip_prefix-append}
use psst.Core.Secret.{from_encoded}
use psst.Protocol.Auth.{
  SessionCredential, bearer_prefix, max_credential_length, encoded, parts, parse_session_value,
  parse_authorization,
}

suffix-lem :
    (name value id : String) (suffix : List ℕ)
    → id_with_suffix name value suffix ≡ ok id
    → (id ≡ value) × (len value ≤ 128) × (all is_id_byte (encode_all suffix) ≡ true)
unfolding id_with_suffix
suffix-lem name value id suffix h = ground arith

instance_id-lem :
    (value id : String)
    → instance_id value ≡ ok id
    → (id ≡ value) × (len value ≤ 128) × (count_char b'.' value ≡ 0)
unfolding instance_id opaque_id
instance_id-lem value id h =
    elim (Option-cases (strip_prefix (chars "ins" ++ b'_' ∷ []) (chars value))) [
      | inl e ↦ absurd (ground arith)
      | inr (suffix, e) ↦
          let g : id_with_suffix "InstanceId" value suffix ≡ ok id = ground arith in
          let (same, short, clean) = suffix-lem "InstanceId" value id suffix g in
          let dotless = count_code-all is_id_byte b'.' suffix (omega arith) refl clean in
          let whole = strip_prefix-append (chars "ins" ++ b'_' ∷ []) (chars value) suffix e in
          (
            same,
            short,
            count_char-chars b'.' value
                ∙ ap (count_code b'.') whole
                ∙ count_code-append b'.' (chars "ins" ++ b'_' ∷ []) suffix
                ∙ omega (arith, dotless),
          )
    ]

dot : Char
dot = "."

len-dot : (t : String) → len (String.◌∷◌ dot t) ≡ len t + 1
unfolding dot len
len-dot t = omega arith

joined : SessionCredential → String
joined c = c.instance_id <> String.◌∷◌ dot c.resume_token

encoded-joined : (c : SessionCredential) → encoded c ≡ joined c
unfolding encoded joined dot
encoded-joined c =
    ap (λ (s : String). c.instance_id <> s)
      (cons-append dot String.[] c.resume_token ∙ ap (String.◌∷◌ dot) (nil-append c.resume_token))

joined-lem :
    (c : SessionCredential)
    → count_char b'.' c.instance_id ≡ 0
    → count_char b'.' c.resume_token ≡ 0
    → (len (joined c) ≡ len c.instance_id + (len c.resume_token + 1))
      × (count_char b'.' (joined c) ≡ 1)
      × (split_once b'.' (joined c) ≡ some (c.instance_id, c.resume_token))
unfolding joined dot count_char
joined-lem c hi ht = (
  len-append c.instance_id _ ∙ ap (λ (n : ℕ). len c.instance_id + n) (len-dot c.resume_token),
  count_char-append b'.' c.instance_id _ ∙ omega (arith, hi, ht),
  split_once-append dot c.instance_id c.resume_token hi,
)

-- The alphabet of base64url.
abbrev pub is_url_safe : ℕ → Bool
is_url_safe b = is_ascii_alphanumeric b || (eqb b b'-' || eqb b b'_')

module _ (encode : List ℕ → String) (decode : String → Option (List ℕ))
    (url_safe : (bytes : List ℕ) → all is_url_safe (as_bytes (encode bytes)) ≡ true) where
  token-canonical :
      (value token : String)
      → from_encoded encode decode value ≡ ok token
      → (token ≡ value) × (len value ≡ 43) × ((bytes : List ℕ) × (encode bytes ≡ value))
  unfolding from_encoded
  token-canonical value token h = elim (Option-cases (decode value)) [
    | inl e ↦ absurd (ground arith)
    | inr (bytes, e) ↦
        (ground arith, ground arith, (bytes, ground (arith, eq_iff (encode bytes) value)))
  ]

  from_encoded-lem :
      (value token : String)
      → from_encoded encode decode value ≡ ok token
      → (token ≡ value) × (len value ≡ 43) × (count_char b'.' value ≡ 0)
  unfolding as_bytes
  from_encoded-lem value token h =
      let (same, long, (bytes, e)) = token-canonical value token h in
      let clean : all is_url_safe (encode_all (chars value)) ≡ true =
        subst (λ (t : String). all is_url_safe (encode_all (chars t)) ≡ true) e (url_safe bytes) in
      (
        same,
        long,
        count_char-chars b'.' value
            ∙ count_code-all is_url_safe b'.' (chars value) (omega arith) refl clean,
      )

  -- A credential whose two parts their constructors accept.
  pub record IsValid (c : SessionCredential) : Type 0 where
    pub instance_ : instance_id c.instance_id ≡ ok c.instance_id
    pub token : from_encoded encode decode c.resume_token ≡ ok c.resume_token

  -- The credential fits the bound on the header.
  encoded-lem :
      (c : SessionCredential)
      → IsValid c
      → (eqb (len (encoded c)) 0 ≡ false)
        × (len (encoded c) ≤ 172)
        × (count_char b'.' (encoded c) ≡ 1)
        × (split_once b'.' (encoded c) ≡ some (c.instance_id, c.resume_token))
  encoded-lem c v =
      let (_, short, no_dot) = instance_id-lem c.instance_id c.instance_id v.instance_ in
      let (_, long, none_in) = from_encoded-lem c.resume_token c.resume_token v.token in
      let (size, once, cut) = joined-lem c no_dot none_in in
      rw (encoded-joined c) (ground arith, omega arith, once, cut)

  parse_session_value-encoded :
      (c : SessionCredential) → IsValid c → parse_session_value encode decode (encoded c) ≡ ok c
  unfolding parse_session_value
  parse_session_value-encoded c v =
      let (some_text, short, once, cut) = encoded-lem c v in
      rw (cut, v.instance_, v.token) (ground arith)

  parts-made :
      (i t : String) (c : SessionCredential)
      → parts encode decode (some (i, t)) ≡ ok c
      → (instance_id i ≡ ok c.instance_id) × (from_encoded encode decode t ≡ ok c.resume_token)
  parts-made i t c h = ground arith

  parts-lem :
      (value : String) (o : Option (String × String)) (c : SessionCredential)
      → split_once b'.' value ≡ o
      → parts encode decode o ≡ ok c
      → (value ≡ joined c) × IsValid c
  unfolding joined dot
  parts-lem value none c e h = absurd (cc)
  parts-lem value (some (i, t)) c e h =
      let (named, secret) = parts-made i t c h in
      let (same_id, _, _) = instance_id-lem i c.instance_id named in
      let (same_token, _, _) = from_encoded-lem t c.resume_token secret in
      (
        split_once-parts dot value i t e
            ∙ ap (λ (s : String). s <> String.◌∷◌ dot t) (sym same_id)
            ∙ ap (λ (s : String). c.instance_id <> String.◌∷◌ dot s) (sym same_token),
        record {
          instance_ = ap instance_id same_id ∙ named;
          token = ap (from_encoded encode decode) same_token ∙ secret;
        },
      )

  encoded-parse_session_value :
      (value : String) (c : SessionCredential)
      → parse_session_value encode decode value ≡ ok c
      → (value ≡ encoded c) × IsValid c
  unfolding parse_session_value
  encoded-parse_session_value value c h =
      let (shown, v) = parts-lem value (split_once b'.' value) c refl (ground arith) in
      (shown ∙ sym (encoded-joined c), v)

  bearer-fits :
      (c : SessionCredential)
      → IsValid c
      → ltb (len bearer_prefix + max_credential_length) (len (bearer_prefix <> encoded c)) ≡ false
  bearer-fits c v =
      let (_, short, _, _) = encoded-lem c v in
      rw (len-append bearer_prefix (encoded c)) (ground arith)

  -- With a codec that writes only letters, digits, dashes and underscores, as base64url does: a text is
  -- read by `parse_authorization` as a credential exactly if it is `Bearer ` and the encoding of that
  -- credential, whose two parts their constructors accept. So every such credential, also the longest,
  -- is read back from its encoding, and from no other text.
  pub parse_authorization_iff :
      (value : String) (c : SessionCredential)
      → (parse_authorization encode decode value ≡ ok c)
        ↔ ((value ≡ bearer_prefix <> encoded c) × IsValid c)
  unfolding parse_authorization
  parse_authorization_iff value c = (
    λ h. elim (Option-cases (strip_text bearer_prefix value)) [
      | inl e ↦ absurd (ground arith)
      | inr (rest, e) ↦
          let read : parse_session_value encode decode rest ≡ ok c = ground arith in
          let (shown, v) = encoded-parse_session_value rest c read in
          (
            strip_text-parts bearer_prefix value rest e
                ∙ ap (λ (s : String). bearer_prefix <> s) shown,
            v,
          )
    ],
    λ (shown, v).
        rw
          (
            shown,
            bearer-fits c v,
            strip_text-append bearer_prefix (encoded c),
            parse_session_value-encoded c v,
          )
          refl,
  )
