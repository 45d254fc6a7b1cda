-- ===== src/Core/Id/Kinds.antt =====
-- The kinds of identifiers of crates/psst-core/src/id.rs.
use psst.Prelude.{
  ℕ, ◌≡◌, refl, sym, ap, ◌∙◌, String, Option, some, List, [], ◌∷◌, ◌++◌, arith, Option-cases, inl,
  inr, is_some, find_row,
}
use psst.Prelude.Texts.{chars, strip_prefix}
use psst.Core.Error.{Result, ok, InvalidValue}
use psst.Core.Id.{opaque_id, squad_id, agent_id, membership_id, instance_id, message_id}

pub data Kind : Type 0 where
  squad agent membership instance_ message : Kind

-- The constructor of a kind.
abbrev pub new_of : Kind → String → Result InvalidValue String
new_of squad = squad_id
new_of agent = agent_id
new_of membership = membership_id
new_of instance_ = instance_id
new_of message = message_id

abbrev prefix_of : Kind → String
prefix_of squad = "sqd"
prefix_of agent = "agt"
prefix_of membership = "mem"
prefix_of instance_ = "ins"
prefix_of message = "msg"

abbrev tag_of : Kind → List ℕ
tag_of k = chars (prefix_of k) ++ b'_' ∷ []

pub strip_prefix-append : (p cs s : List ℕ) → strip_prefix p cs ≡ some s → cs ≡ p ++ s
unfolding strip_prefix
strip_prefix-append [] cs s h = ground arith
strip_prefix-append (p ∷ ps) [] s h = absurd (cc)
strip_prefix-append (p ∷ ps) (c ∷ cs) s h = ground (arith, strip_prefix-append ps cs s)

opaque_id-tagged :
    (name prefix value id : String)
    → opaque_id name prefix value ≡ ok id
    → (suffix : List ℕ) × (chars value ≡ (chars prefix ++ b'_' ∷ []) ++ suffix)
unfolding opaque_id
opaque_id-tagged name prefix value id h =
    elim (Option-cases (strip_prefix (chars prefix ++ b'_' ∷ []) (chars value))) [
      | inl e ↦ absurd (ground arith)
      | inr (s, e) ↦ (s, strip_prefix-append (chars prefix ++ b'_' ∷ []) (chars value) s e)
    ]

new_of-tagged :
    (k : Kind) (value id : String)
    → new_of k value ≡ ok id
    → (suffix : List ℕ) × (chars value ≡ tag_of k ++ suffix)
unfolding squad_id agent_id membership_id instance_id message_id
new_of-tagged squad value id h = opaque_id-tagged "SquadId" "sqd" value id h
new_of-tagged agent value id h = opaque_id-tagged "AgentId" "agt" value id h
new_of-tagged membership value id h = opaque_id-tagged "MembershipId" "mem" value id h
new_of-tagged instance_ value id h = opaque_id-tagged "InstanceId" "ins" value id h
new_of-tagged message value id h = opaque_id-tagged "MessageId" "msg" value id h

-- The kind that a text starts as.
unfoldable kind_named : List ℕ → Option Kind
unfolding strip_prefix find_row
kind_named cs =
    find_row (λ k. is_some (strip_prefix (tag_of k) cs))
      (squad ∷ agent ∷ membership ∷ instance_ ∷ message ∷ [])

kind_named-tag : (k : Kind) (suffix : List ℕ) → kind_named (tag_of k ++ suffix) ≡ some k
unfolding kind_named
kind_named-tag squad suffix = refl
kind_named-tag agent suffix = refl
kind_named-tag membership suffix = refl
kind_named-tag instance_ suffix = refl
kind_named-tag message suffix = refl

some-injective : (a b : Kind) → ◌≡◌ {A = Option Kind} (some a) (some b) → a ≡ b
some-injective a b h = cc

new_of-kind_named :
    (k : Kind) (value id : String) → new_of k value ≡ ok id → kind_named (chars value) ≡ some k
new_of-kind_named k value id h =
    let (suffix, e) = new_of-tagged k value id h in ap kind_named e ∙ kind_named-tag k suffix

-- No text is an identifier of two kinds: a value that the constructors of two kinds accept is of one
-- kind, so an id cannot stand where another kind is read.
new_of-one_kind :
    (k l : Kind) (value a b : String) → new_of k value ≡ ok a → new_of l value ≡ ok b → k ≡ l
new_of-one_kind k l value a b hk hl =
    some-injective k l (sym (new_of-kind_named k value a hk) ∙ new_of-kind_named l value b hl)
