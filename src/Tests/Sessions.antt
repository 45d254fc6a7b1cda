-- ===== src/Tests/Sessions.antt =====
-- Credentials of the small squad: authority, sends, heartbeats, claims and resumptions.
use psst.Prelude.{
  ◌≡◌, ◌⊎◌, ◌↔◌, ◌+◌, refl, false, Option, none, some, [], ◌∷◌, true, find_row, exists_row,
  select_rows, length, min, ◌≤◌, ◌==◌,
}
use psst.Prelude.Texts.{as_bytes, codes_eq, is_empty, trim, len}
use psst.Core.Error.{ok, err}
use psst.Core.Time.{as_millis, checked_add}
use psst.Core.State.{AgentMode, Availability, AvailabilitySource, observe, renew_lease, at}
use psst.Store.Error.{not_found}
use psst.Store.Schema.{Db, InstanceRow}
use psst.Store.Exec.{reliable}
use psst.Store.Insert.{add_instance}
use psst.Store.Instance.{
  ResumeToken, ClaimInstance, HeartbeatInstance, ClaimOutcome, default_policy, instance_row,
  instance_record, claim_instance, heartbeat_instance, update_observed,
}
use psst.Store.Instance.Heartbeat.{Beat, heartbeat_instance-Beat}
use psst.Store.Instance.Ownership.{claim_instance-first}
use psst.Store.Session.{AuthenticatedSession, Identity, authenticate_historical, authorize_current}
use psst.Store.Session.Authority.{
  Authority, Credential, authorize_current_iff, authenticate_historical-conceals,
}
use psst.Store.Session.Sends.{authenticated_send-authorized}
use psst.Core.Message.{MessagePriority}
use psst.Store.Inbox.{is_pending}
use psst.Store.Inbox.Page.{IsPrefix}
use psst.Store.Session.Mail.{authenticated_pending-own}
use psst.Store.Session.Delivery.{sent_under, authenticated_send_by_name-honest}
use psst.Store.Mailbox.{
  SendByName, SendOutcome, authenticated_send, authenticated_pending, authenticated_send_by_name,
}
use psst.Store.Resume.{SessionContext, authenticated_resume}
use psst.Store.Resume.Succession.{Succession, authenticated_resume-Succession}
use psst.Tests.{
  digest, people, team, alice, old_instance, alice_instance, request, sent_record, after_send,
  session,
}

abbrev alice_identity : Identity
alice_identity = record {
  membership = "mem_alice";
  squad = "sqd_team";
  mode = AgentMode.cooperative;
  expiry = 30200;
  last_seen = 200;
  created_at = 200;
}

authorize_current_iff_example :
    (authorize_current digest session people ≡ (ok alice_identity, people))
    ↔ Authority digest session people alice_identity
authorize_current_iff_example = authorize_current_iff digest session people alice_identity

-- A session of an instance that nobody knows.
abbrev stranger : AuthenticatedSession
stranger = record session { instance_id = "ins_nobody" }

stranger_refused : (authenticate_historical digest stranger people).0 ≡ err not_found
unfolding authenticate_historical find_row
stranger_refused = refl

authenticate_historical-conceals_example : not_found ≡ not_found
authenticate_historical-conceals_example =
    authenticate_historical-conceals digest stranger people not_found stranger_refused

sent_by_session :
    authenticated_send digest reliable session request people ≡ (ok sent_record, after_send)
unfolding authenticated_send find_row exists_row codes_eq as_bytes
sent_by_session = refl

authenticated_send-authorized_example :
    (identity : Identity) × Credential digest session people identity
    × (("mem_alice" ≡ identity.membership) × ("sqd_team" ≡ identity.squad))
    × ((after_send ≡ people) ⊎ ((i : Identity) × Authority digest session people i))
authenticated_send-authorized_example =
    authenticated_send-authorized digest reliable session request people after_send sent_record
      sent_by_session

abbrev beat : HeartbeatInstance
beat = record {
  id = "ins_alice";
  resume_token = "secret";
  availability = Availability.busy;
  availability_source = AvailabilitySource.tool_activity;
  now = 10000;
  lease_policy = default_policy;
}

abbrev beaten : InstanceRow
beaten = record alice_instance {
  availability = Availability.busy;
  availability_source = AvailabilitySource.tool_activity;
  availability_observed_at = 10000;
  lease_expires_at = 40000;
  last_seen_at = 10000;
}

abbrev after_beat : Db
after_beat = record people { instances = old_instance ∷ beaten ∷ [] }

beat_answered :
    heartbeat_instance digest reliable beat people
    ≡ (ok (instance_record digest beaten default_policy), after_beat)
unfolding heartbeat_instance update_observed find_row exists_row codes_eq as_bytes checked_add
    observe renew_lease at
beat_answered = refl

heartbeat_instance-Beat_example :
    Beat digest beat people after_beat (instance_record digest beaten default_policy)
heartbeat_instance-Beat_example =
    heartbeat_instance-Beat digest reliable beat people after_beat
      (instance_record digest beaten default_policy) beat_answered

-- What the operating system's generator answers.
abbrev generated : Option ResumeToken
generated = some "other"

abbrev claim : ClaimInstance
claim = record {
  id = "ins_bob";
  membership_id = "mem_bob";
  mode = AgentMode.scheduled;
  client_kind = "claude";
  hostname = none;
  availability = Availability.unknown;
  availability_source = AvailabilitySource.unknown;
  now = 1000;
  lease_policy = default_policy;
}

abbrev bob_instance : InstanceRow
bob_instance = instance_row digest claim "other" 31000

abbrev bob_claimed : ClaimOutcome
bob_claimed = record {
  instance_record = instance_record digest bob_instance default_policy;
  resume_token = "other";
}

abbrev after_claim : Db
after_claim = add_instance bob_instance people

claimed : claim_instance digest reliable generated claim people ≡ (ok bob_claimed, after_claim)
unfolding claim_instance find_row exists_row checked_add observe is_empty trim
claimed = refl

claim_instance-first_example :
    ((exists_row (λ i. i.membership_id == "mem_bob") people.instances ≡ false)
      × (generated ≡ some "other"))
    × (after_claim
        ≡ add_instance
            (instance_row digest claim "other" (1000 + as_millis default_policy.lease_duration))
            people)
claim_instance-first_example =
    claim_instance-first digest reliable generated claim people after_claim bob_claimed claimed

-- After alice's lease has run out.
abbrev return_claim : ClaimInstance
return_claim = record claim { id = "ins_back"; membership_id = "mem_alice"; now = 50000 }

abbrev back_instance : InstanceRow
back_instance = instance_row digest return_claim "secret" 80000

abbrev back : SessionContext
back = record {
  membership = alice.membership;
  squad = team;
  instance_record = instance_record digest back_instance default_policy;
}

abbrev after_return : Db
after_return = add_instance back_instance (record people {
  instances = old_instance ∷ record alice_instance { closed_at = some 50000 } ∷ [];
})

returned :
    authenticated_resume digest reliable "ins_alice" "secret" return_claim "team" people
    ≡ (ok back, after_return)
unfolding authenticated_resume find_row exists_row codes_eq as_bytes checked_add observe is_empty
    trim
returned = refl

authenticated_resume-Succession_example :
    Succession digest "ins_alice" "secret" return_claim "team" people after_return
authenticated_resume-Succession_example =
    authenticated_resume-Succession digest reliable "ins_alice" "secret" return_claim "team" people
      after_return back returned

-- What bob reads.
abbrev bob_row : InstanceRow
bob_row = record bob_instance { lease_expires_at = 31000 }

abbrev bob_session : AuthenticatedSession
bob_session = record { instance_id = "ins_bob"; resume_token = "other"; now = 2000 }

abbrev bob_reads : Db
bob_reads = record after_send { instances = bob_row ∷ [] }

read_by_session :
    authenticated_pending digest reliable bob_session 10 bob_reads
    ≡ (ok (sent_record ∷ []), bob_reads)
unfolding authenticated_pending find_row exists_row select_rows codes_eq as_bytes len
read_by_session = refl

authenticated_pending-own_example :
    (identity : Identity) × Authority digest bob_session bob_reads identity
    × ((bob_reads ≡ bob_reads)
        × (IsPrefix
              (sent_record ∷ [])
              (select_rows (is_pending identity.membership) bob_reads.messages)
            × (length (sent_record ∷ []) ≤ min 10 100)))
authenticated_pending-own_example =
    authenticated_pending-own digest reliable bob_session 10 bob_reads bob_reads (sent_record ∷ [])
      read_by_session

abbrev pub by_name : SendByName
by_name = record {
  id = "msg_1";
  recipient = "bob";
  recipient_membership_id = some "mem_bob";
  body = "hello";
  priority = MessagePriority.normal;
  dedupe_key = "key";
  reply_to = none;
  correlation_id = none;
}

abbrev early : AuthenticatedSession
early = record session { now = 300 }

abbrev pub delivered : SendOutcome
delivered = record {
  message = record {
    message = sent_record;
    squad = "team";
    sender = "alice";
    recipient = "bob";
    acknowledged_at = none;
  };
  idempotent_replay = false;
}

sent_by_name :
    authenticated_send_by_name digest reliable early by_name people ≡ (ok delivered, after_send)
unfolding authenticated_send_by_name find_row exists_row codes_eq as_bytes
sent_by_name = refl

authenticated_send_by_name-honest_example :
    (identity : Identity) × Credential digest early people identity
    × (((exists_row (sent_under digest identity "key") people.messages ≡ true)
          × ((after_send ≡ people) × (false ≡ true)))
        ⊎ ((exists_row (sent_under digest identity "key") people.messages ≡ false)
            × (Authority digest early people identity
                × ((exists_row (sent_under digest identity "key") after_send.messages ≡ true)
                    × (false ≡ false)))))
authenticated_send_by_name-honest_example =
    authenticated_send_by_name-honest digest reliable early by_name people after_send delivered
      sent_by_name
