-- ===== src/Relay/Inbox/Ends.antt =====
-- How the inbox handler of crates/psst-relay/src/lib.rs ends.
use psst.Prelude.{
  ℕ, ◌≡◌, ◌⊎◌, inl, inr, refl, sym, ap, ◌∙◌, ◌≤◌, String, Bool, true, false, not, ◌&&◌, ◌||◌,
  Option, some, List, [], ◌∷◌, exists_row, Bool-cases, ltb, leb, arith,
}
use psst.Core.Error.{Result, ok, err, Result-cases}
use psst.Store.Mailbox.{InboxPage}
use psst.Protocol.Error.{ApiErrorCode}
use psst.Relay.Inbox.{
  InboxQuery, Dispatched, Wait, shutdown, deadline, closed, changed, Meets, is_empty, unless_mail,
  wait_for_mail, second_by, preflight_by, inbox, credential,
}

-- A wait that ends the loop.
abbrev pub ends : Wait → Bool
ends (changed (ok page)) = false
ends _ = true

abbrev pub is_deadline : Wait → Bool
is_deadline deadline = true
is_deadline _ = false

-- The worker answered the page to a wait.
abbrev pub Told : InboxPage → List Wait → Type 0
Told page [] = ⊥
Told page (w ∷ rest) = (w ≡ changed (ok page)) ⊎ Told page rest

-- An end of the loop: with a page that it had or was told, and with an empty one only at the deadline.
pub record LoopEnd (waits : List Wait) (start : InboxPage) (r : Result ApiErrorCode InboxPage)
    : Type 0 where
  pub told : (page : InboxPage) → r ≡ ok page → (page ≡ start) ⊎ Told page waits
  pub empty :
      (page : InboxPage) → r ≡ ok page → is_empty page ≡ true → exists_row is_deadline waits ≡ true

mail-LoopEnd :
    (waits : List Wait) (page : InboxPage) (later : Option (Result ApiErrorCode InboxPage))
    → (is_empty page ≡ true → (r : _) × (later ≡ some r) × LoopEnd waits page r)
    → (r : _) × (unless_mail page later ≡ some r) × LoopEnd waits page r
mail-LoopEnd waits page later h = elim (Bool-cases (is_empty page)) [
  | inl none_yet ↦ let (r, e, k) = h none_yet in (r, ground arith, k)
  | inr mail ↦ (
    ok page,
    ground arith,
    record { told = λ p e. inl (cc); empty = λ p e n. absurd (ground arith) },
  )
]

err-LoopEnd : (waits : List Wait) (page : InboxPage) (e : ApiErrorCode) → LoopEnd waits page (err e)
err-LoopEnd waits page e = record { told = λ p h. absurd (cc); empty = λ p h n. absurd (cc) }

Told-later :
    (next p : InboxPage) (rest : List Wait)
    → (p ≡ next) ⊎ Told p rest
    → Told p (changed (ok next) ∷ rest)
Told-later next p rest (inl same) = inl (ap (λ (x : InboxPage). changed (ok x)) (sym same))
Told-later next p rest (inr later) = inr later

wait_for_mail-LoopEnd :
    (waits : List Wait) (page : InboxPage)
    → exists_row ends waits ≡ true
    → (r : Result ApiErrorCode InboxPage) × (wait_for_mail waits page ≡ some r)
      × LoopEnd waits page r
unfolding wait_for_mail exists_row
wait_for_mail-LoopEnd [] page h = absurd (cc)
wait_for_mail-LoopEnd (shutdown ∷ rest) page h =
    mail-LoopEnd _ page _ (λ _. (_, refl, err-LoopEnd _ page _))
wait_for_mail-LoopEnd (deadline ∷ rest) page h =
    (ok page, refl, record { told = λ p e. inl (cc); empty = λ p e n. refl })
wait_for_mail-LoopEnd (closed ∷ rest) page h =
    mail-LoopEnd _ page _ (λ _. (_, refl, err-LoopEnd _ page _))
wait_for_mail-LoopEnd (changed (err e) ∷ rest) page h =
    mail-LoopEnd _ page _ (λ _. (_, refl, err-LoopEnd _ page _))
wait_for_mail-LoopEnd (changed (ok next) ∷ rest) page h = mail-LoopEnd _ page _ (λ _.
    let (r, e, k) = wait_for_mail-LoopEnd rest next h in
    (
      r,
      e,
      record {
        told = λ p q. inr (Told-later next p rest (k.told p q));
        empty = λ p q n. k.empty p q n;
      },
    ))

-- The worker answered the page to the handler.
abbrev pub Given : InboxPage → Meets → Type 0
Given page m = (m.preflight ≡ ok page) ⊎ ((m.second ≡ ok page) ⊎ Told page m.waits)

-- An end of the handler.
pub record Ended (query : InboxQuery) (m : Meets) (r : Result ApiErrorCode InboxPage) : Type 0 where
  pub asked :
      (page : InboxPage)
      → r ≡ ok page
      → (1 ≤ query.limit) × (query.limit ≤ 100) × (query.wait_seconds ≤ 30)
  pub given : (page : InboxPage) → r ≡ ok page → Given page m
  pub empty :
      (page : InboxPage)
      → r ≡ ok page
      → is_empty page ≡ true
      → (query.wait_seconds ≡ 0) ⊎ (exists_row is_deadline m.waits ≡ true)

err-Ended : (query : InboxQuery) (m : Meets) (e : ApiErrorCode) → Ended query m (err e)
err-Ended query m e = record {
  asked = λ p h. absurd (cc);
  given = λ p h. absurd (cc);
  empty = λ p h n. absurd (cc);
}

abbrev Bounded : InboxQuery → Type 0
Bounded query = (1 ≤ query.limit) × (query.limit ≤ 100) × (query.wait_seconds ≤ 30)

second-Ended :
    (query : InboxQuery) (m : Meets) (d : Dispatched)
    → Bounded query
    → m.second ≡ d
    → exists_row ends m.waits ≡ true
    → (r : Result ApiErrorCode InboxPage) × (second_by d m.waits ≡ some r) × Ended query m r
second-Ended query m (err e) b h n = (_, refl, err-Ended query m _)
second-Ended query m (ok page) b h n =
    let (r, answer, k) = wait_for_mail-LoopEnd m.waits page n in
    (
      r,
      answer,
      record {
        asked = λ p q. b;
        given = λ p q. elim (k.told p q) [
          | inl same ↦ inr (inl (h ∙ ap (λ (x : InboxPage). ok x) (sym same)))
          | inr later ↦ inr (inr later)
        ];
        empty = λ p q none_yet. inr (k.empty p q none_yet);
      },
    )

same_page : (a b : InboxPage) → ◌≡◌ {A = Result ApiErrorCode InboxPage} (ok a) (ok b) → a ≡ b
same_page a b h = cc

preflight-Ended :
    (query : InboxQuery) (m : Meets) (d : Dispatched)
    → Bounded query
    → m.preflight ≡ d
    → exists_row ends m.waits ≡ true
    → (r : Result ApiErrorCode InboxPage) × (preflight_by d query m ≡ some r) × Ended query m r
preflight-Ended query m (err e) b h n = (_, refl, err-Ended query m _)
preflight-Ended query m (ok page) b h n =
    elim (Bool-cases (is_empty page && ltb 0 query.wait_seconds)) [
      | inl waits ↦ elim (Bool-cases m.subscribes) [
        | inl free ↦
            let (r, answer, k) = second-Ended query m m.second b refl n in
            let same : preflight_by (ok page) query m ≡ second_by m.second m.waits = ground arith in
            (r, same ∙ answer, k)
        | inr full ↦ (err ApiErrorCode.rate_limited, rw (waits, full) refl, err-Ended query m _)
      ]
      | inr answers ↦ (
        ok page,
        rw answers refl,
        record {
          asked = λ p q. b;
          given = λ p q. inl (h ∙ ap (λ (x : InboxPage). ok x) (same_page page p q));
          empty = λ p q none_yet. inl (ground arith);
        },
      )
    ]

module _ (encode : List ℕ → String) (decode : String → Option (List ℕ)) where
  -- If one of its waits ends with a shutdown, the deadline, a closed channel or an error of the worker,
  -- the inbox handler answers. If it answers with a page, the limit is 1 to 100 and the wait at most 30
  -- seconds, the page is one that the worker has answered to it, and it is empty only if no wait was
  -- asked for or the deadline has come.
  pub inbox-Ended :
      (headers : List (Option String)) (query : InboxQuery) (m : Meets)
      → exists_row ends m.waits ≡ true
      → (r : Result ApiErrorCode InboxPage) × (inbox encode decode headers query m ≡ some r)
        × Ended query m r
  unfolding inbox
  inbox-Ended headers query m n =
      elim (Bool-cases
        (not (leb 1 query.limit && leb query.limit 100) || ltb 30 query.wait_seconds)) [
          | inl out ↦ (err ApiErrorCode.invalid_request, rw out refl, err-Ended query m _)
          | inr within ↦ elim (Result-cases (credential encode decode headers)) [
            | inl (e, refused) ↦ (err e, rw (within, refused) refl, err-Ended query m e)
            | inr (c, given) ↦
                let b : Bounded query = ground arith in
                let (r, answer, k) = preflight-Ended query m m.preflight b refl n in
                (r, rw (within, given) answer, k)
          ]
        ]
