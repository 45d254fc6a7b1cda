-- ===== src/Tests/Values.antt =====
-- The values of crates/psst-core/src at concrete inputs.
use psst.Prelude.{◌≡◌, ◌↔◌, ◌≤◌, ◌<◌, ◌+◌, ◌⊎◌, refl, none, String}
use psst.Prelude.Int.{i64_max}
use psst.Prelude.Texts.{as_bytes, first, last, encode_all, len, strip_prefix, is_empty}
use psst.Core.Error.{ok}
use psst.Core.Time.{UnixMillis, as_millis, from_secs}
use psst.Core.Id.{agent_id}
use psst.Core.Id.Kinds.{Kind, new_of}
use psst.Core.State.{at, renew_lease}
use psst.Core.State.Leases.{renew_lease-at}
use psst.Core.Value.{valid_squad_name, squad_name}

abbrev renewed : UnixMillis
renewed = 31000

renew_lease-at_example : (renew_lease (at none 5000 1000) 5000 1000 (from_secs 30) ≡ ok renewed) ↔ (
    (1000 < 5000)
    × (1000 + as_millis (from_secs 30) ≤ i64_max)
    × (5000 ≤ renewed)
    × (1000 + as_millis (from_secs 30) ≤ renewed)
    × ((renewed ≡ 5000) ⊎ (renewed ≡ 1000 + as_millis (from_secs 30))))
renew_lease-at_example = renew_lease-at 5000 1000 (from_secs 30) renewed

agent_accepted : new_of Kind.agent "agt_a-1" ≡ ok "agt_a-1"
unfolding agent_id len strip_prefix is_empty encode_all
agent_accepted = refl

squad_name_accepted : squad_name "team-1" ≡ ok "team-1"
unfolding squad_name valid_squad_name len as_bytes is_empty first last
squad_name_accepted = refl

abbrev text : String
text = "hello"
