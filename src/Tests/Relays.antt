-- ===== src/Tests/Relays.antt =====
-- A worker of crates/psst-relay/src/lib.rs that takes a few commands, and a send that wakes a poll.
use psst.Prelude.{
  Option, String, none, select_rows, first_by, inl, ◌≡◌, refl, true, false, some, List, [], ◌∷◌,
  All, find_row, exists_row,
}
use psst.Prelude.Texts.{as_bytes, codes_eq, strip_prefix, is_empty}
use psst.Core.Error.{Result, ok}
use psst.Protocol.Error.{ApiErrorCode}
use psst.Relay.Inbox.{InboxQuery, Meets, changed, deadline, inbox}
use psst.Relay.Inbox.Ends.{Ended, ends, inbox-Ended}
use psst.Tests.Credentials.{encode, decode}
use psst.Store.Exec.{reliable}
use psst.Store.History.{run}
use psst.Store.Mailbox.{
  SendByName, InboxPage, authenticated_send_by_name, authenticated_pending_page,
}
use psst.Store.History.Arrivals.{has_mail}
use psst.Relay.Registry.{
  Event, NotificationSubscription, subscribes, bounded, has_changed, happen_all, no_waiters,
}
use psst.Relay.Command.{Credential, StoreCommand}
use psst.Relay.Worker.{Circumstance, Relay, Received, Reply, handle, work, session}
use psst.Relay.Worker.Histories.{operations_of, work-run}
use psst.Relay.World.{World, Change, takes, polls, relay_of, changes}
use psst.Relay.World.Waking.{Waits}
use psst.Relay.World.Polls.{started_on, poll_wakes}
use psst.Relay.Worker.Woken.{send_wakes}
use psst.Tests.{digest, people}
use psst.Tests.Sessions.{by_name, delivered}

abbrev at_300 : Circumstance
at_300 = record { now = 300; io = reliable; token = some "token"; healthy = true }

abbrev alice_credential : Credential
alice_credential = record { instance_id = "ins_alice"; resume_token = "secret" }

abbrev both_polls : List Event
both_polls = subscribes "mem_bob" ∷ subscribes "mem_alice" ∷ []

abbrev relay : Relay
relay = record { db = people; notifications = (happen_all both_polls no_waiters).registry }

abbrev sending : StoreCommand
sending = StoreCommand.send alice_credential by_name

-- The queue holds a list, a send, and a leave that the shutdown cancels.
abbrev queue : List Received
queue =
    record { command = StoreCommand.list_squads; shutdown = false; circumstance = at_300 }
    ∷ record { command = sending; shutdown = false; circumstance = at_300 }
    ∷ record {
      command = StoreCommand.leave alice_credential "team";
      shutdown = true;
      circumstance = at_300;
    }
    ∷ []

work-run_example : (work digest queue relay).1.db ≡ run digest (operations_of queue) people
work-run_example = work-run digest queue relay

abbrev relay_after : Relay
relay_after = (handle digest at_300 sending relay).1

handled : handle digest at_300 sending relay ≡ (Reply.sent (ok delivered), relay_after)
unfolding handle authenticated_send_by_name find_row exists_row codes_eq as_bytes
handled = refl

send_wakes_example :
    All
      (λ x. x.key ≡ "mem_bob" → has_changed relay_after.notifications x ≡ some true)
      (happen_all both_polls no_waiters).live
    × (authenticated_send_by_name digest reliable (session alice_credential 300) by_name people
        ≡ (ok delivered, relay_after.db))
send_wakes_example =
    send_wakes digest both_polls at_300 alice_credential by_name people relay_after delivered
      handled

-- A note of the member to itself.
abbrev note : SendByName
note = record by_name { recipient = "alice"; recipient_membership_id = some "mem_alice" }

abbrev poll : NotificationSubscription
poll = record { key = "mem_alice"; channel = 0; seen = 0 }

abbrev subscribing : List Change
subscribing = polls (subscribes "mem_alice") ∷ []

abbrev noting : List Change
noting = takes at_300 (StoreCommand.send alice_credential note) ∷ []

abbrev checking : List Change
checking = takes at_300 (StoreCommand.pending alice_credential 10) ∷ noting

abbrev subscribed : World
subscribed = changes digest subscribing (started_on people)

abbrev empty_page : InboxPage
empty_page = record {
  messages = [];
  pending_count = 0;
  highest_priority = none;
  oldest_message_id = none;
  recipient_membership = "mem_alice";
}

nothing_yet :
    (handle digest at_300 (StoreCommand.pending alice_credential 10) (relay_of subscribed)).0
    ≡ Reply.page (ok empty_page)
unfolding handle changes authenticated_pending_page find_row exists_row select_rows first_by
    codes_eq as_bytes
nothing_yet = refl

waiting : Waits digest poll checking subscribed
unfolding changes bounded authenticated_pending_page find_row exists_row select_rows codes_eq
    as_bytes
waiting = (inl refl, (inl refl, inl refl))

mail_now : has_mail "mem_alice" (changes digest checking subscribed).db ≡ true
unfolding changes authenticated_pending_page authenticated_send_by_name find_row exists_row
    select_rows codes_eq as_bytes
mail_now = refl

poll_wakes_example :
    has_changed (changes digest checking subscribed).waiters.registry poll ≡ some true
poll_wakes_example =
    poll_wakes digest people subscribing noting at_300 alice_credential 10 empty_page poll
      nothing_yet refl refl waiting mail_now

abbrev headers : List (Option String)
headers = some "Bearer ins_7f.AAAAAAAAAAAAAAAAAAAAAAAAAAAAAAAAAAAAAAAAAAA" ∷ []

abbrev asking : InboxQuery
asking = record { limit = 10; wait_seconds = 5 }

-- A poll that is woken for nothing and then comes to its deadline.
abbrev meets : Meets
meets = record {
  preflight = ok empty_page;
  subscribes = true;
  second = ok empty_page;
  waits = changed (ok empty_page) ∷ deadline ∷ [];
}

comes_to_an_end : exists_row ends meets.waits ≡ true
unfolding exists_row
comes_to_an_end = refl

inbox-Ended_example :
    (r : Result ApiErrorCode InboxPage) × (inbox encode decode headers asking meets ≡ some r)
    × Ended asking meets r
inbox-Ended_example = inbox-Ended encode decode headers asking meets comes_to_an_end

answers_empty : inbox encode decode headers asking meets ≡ some (ok empty_page)
unfolding inbox strip_prefix is_empty
answers_empty = refl
