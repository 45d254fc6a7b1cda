-- ===== src/Store/Inbox/Page.antt =====
-- The page that crates/psst-store/src/inbox.rs answers: its order, its bounds and its progress.
use psst.Prelude.{
  ℕ, ◌≡◌, ◌≤◌, ◌<◌, ◌+◌, ◌*◌, refl, ap, sym, subst, true, false, List, [], ◌∷◌, ◌++◌, min, zero,
  suc, All-take, select_rows-All, ≤-or-<, length-map, length-append, map-append, append_assoc, drop,
  take-drop, ◌∙◌, map, arith, length, take, length-take-le, All, select_rows, ◌⊎◌, inl, inr,
}
use psst.Core.Error.{ok, err, Result-cases}
use psst.Store.Error.{RepositoryError}
use psst.Store.Schema.{Db, MessageRecord, MessageRow}
use psst.Store.Message.{hash_matches}
use psst.Store.Inbox.{
  InboxQuery, conservative_serialized_size, is_pending, fill, pending_inbox, max_inbox_output_bytes,
  max_inbox_messages, over_budget, add_both,
}

-- The estimate of the array of some messages, behind `separator` bytes.
abbrev pub array_size : ℕ → List MessageRecord → ℕ
array_size separator [] = 0
array_size separator (m ∷ ms) = separator + conservative_serialized_size m + array_size 1 ms

-- The first messages of some rows.
abbrev pub IsPrefix : List MessageRecord → List MessageRow → Type 0
IsPrefix ms rows = (rest : List MessageRecord) × (map (λ r. r.message) rows ≡ ms ++ rest)

module _ (sha256 : List ℕ → List ℕ) where
  within_budget :
      (estimated separator item : ℕ)
      → over_budget (add_both estimated separator item) ≡ false
      → estimated + separator + item ≤ max_inbox_output_bytes
  within_budget estimated separator item h = ground arith

  abbrev item : MessageRow → ℕ
  item r = conservative_serialized_size r.message

  -- The page is full at a row, or takes it and goes on.
  pub record Took (estimated separator : ℕ) (r : MessageRow) (rows : List MessageRow)
      (ms : List MessageRecord) : Type 0 where
    pub others : List MessageRecord
    pub shown : ms ≡ r.message ∷ others
    pub fits : estimated + separator + item r ≤ max_inbox_output_bytes
    pub next : fill sha256 (estimated + separator + item r) 1 rows ≡ ok others

  full_or_err :
      (estimated separator : ℕ) (r : MessageRow) (rows : List MessageRow) (ms : List MessageRecord)
      (e : RepositoryError)
      → fill sha256 (estimated + separator + item r) 1 rows ≡ err e
      → fill sha256 estimated separator (r ∷ rows) ≡ ok ms
      → ms ≡ []
  unfolding fill
  full_or_err estimated separator r rows ms e q h = ground arith

  full_or_taken :
      (estimated separator : ℕ) (r : MessageRow) (rows : List MessageRow)
      (ms others : List MessageRecord)
      → fill sha256 (estimated + separator + item r) 1 rows ≡ ok others
      → fill sha256 estimated separator (r ∷ rows) ≡ ok ms
      → (ms ≡ [])
        ⊎ ((ms ≡ r.message ∷ others) × (estimated + separator + item r ≤ max_inbox_output_bytes))
  unfolding fill
  full_or_taken estimated separator r rows ms others q h = ground arith

  fill-step :
      (estimated separator : ℕ) (r : MessageRow) (rows : List MessageRow) (ms : List MessageRecord)
      → fill sha256 estimated separator (r ∷ rows) ≡ ok ms
      → (ms ≡ []) ⊎ Took estimated separator r rows ms
  fill-step estimated separator r rows ms h =
      elim (Result-cases (fill sha256 (estimated + separator + item r) 1 rows)) [
        | inl (e, q) ↦ inl (full_or_err estimated separator r rows ms e q h)
        | inr (others, q) ↦ elim (full_or_taken estimated separator r rows ms others q h) [
          | inl n ↦ inl n
          | inr (shown, fits) ↦
              inr (record { others = others; shown = shown; fits = fits; next = q })
        ]
      ]

  fill-prefix :
      (estimated separator : ℕ) (rows : List MessageRow) (ms : List MessageRecord)
      → fill sha256 estimated separator rows ≡ ok ms
      → IsPrefix ms rows
  unfolding fill
  fill-prefix estimated separator [] ms h = ([], ground arith)
  fill-prefix estimated separator (r ∷ rows) ms h =
      elim (fill-step estimated separator r rows ms h) [
        | inl n ↦ (map (λ r. r.message) (r ∷ rows), rw n)
        | inr t ↦
            let (rest, e) = fill-prefix (estimated + separator + item r) 1 rows t.others t.next in
            (rest, rw (t.shown, e))
      ]

  fill-size :
      (estimated separator : ℕ) (rows : List MessageRow) (ms : List MessageRecord)
      → estimated ≤ max_inbox_output_bytes
      → fill sha256 estimated separator rows ≡ ok ms
      → estimated + array_size separator ms ≤ max_inbox_output_bytes
  unfolding fill
  fill-size estimated separator [] ms e h = let n : ms ≡ [] = ground arith in rw n (omega arith)
  fill-size estimated separator (r ∷ rows) ms e h =
      elim (fill-step estimated separator r rows ms h) [
        | inl n ↦ rw n (omega arith)
        | inr t ↦
            let ih = fill-size (estimated + separator + item r) 1 rows t.others t.fits t.next in
            rw t.shown (omega (arith, ih))
      ]

  pending_inbox-read :
      (q : InboxQuery) (db after : Db) (ms : List MessageRecord)
      → pending_inbox sha256 q db ≡ (ok ms, after)
      → ((1 ≤ q.limit) × (q.limit ≤ max_inbox_messages))
        × ((after ≡ db)
            × (fill sha256 2 0 (take q.limit (select_rows (is_pending q.recipient) db.messages))
                ≡ ok ms))
  unfolding pending_inbox
  pending_inbox-read q db after ms h = ground arith

  fill-taken :
      (estimated separator : ℕ) (r : MessageRow) (rows : List MessageRow)
      (others : List MessageRecord)
      → hash_matches sha256 r ≡ true
      → fill sha256 (estimated + separator + item r) 1 rows ≡ ok others
      → estimated + separator + item r ≤ max_inbox_output_bytes
      → fill sha256 estimated separator (r ∷ rows) ≡ ok (r.message ∷ others)
  unfolding fill
  fill-taken estimated separator r rows others i q h = ground arith

  fill-full :
      (estimated separator : ℕ) (r : MessageRow) (rows : List MessageRow)
      (others : List MessageRecord)
      → hash_matches sha256 r ≡ true
      → fill sha256 (estimated + separator + item r) 1 rows ≡ ok others
      → max_inbox_output_bytes < estimated + separator + item r
      → fill sha256 estimated separator (r ∷ rows) ≡ ok []
  unfolding fill
  fill-full estimated separator r rows others i q h = ground arith

  -- Rows whose bodies are intact are always answered.
  fill-intact :
      (estimated separator : ℕ) (rows : List MessageRow)
      → All (λ r. hash_matches sha256 r ≡ true) rows
      → (ms : List MessageRecord) × (fill sha256 estimated separator rows ≡ ok ms)
  unfolding fill
  fill-intact estimated separator [] h = ([], refl)
  fill-intact estimated separator (r ∷ rows) h =
      let size = estimated + separator + item r in
      let (others, q) = fill-intact size 1 rows h.1 in
      elim (≤-or-< size max_inbox_output_bytes) [
        | inl fits ↦ (r.message ∷ others, fill-taken estimated separator r rows others h.0 q fits)
        | inr over ↦ ([], fill-full estimated separator r rows others h.0 q over)
      ]

  IsPrefix-length :
      (ms : List MessageRecord) (rows : List MessageRow)
      → IsPrefix ms rows
      → length ms ≤ length rows
  IsPrefix-length ms rows (rest, e) =
      let l : length (map (λ r. r.message) rows) ≡ length (ms ++ rest) = ap length e in
      omega (arith, length-map (λ r. r.message) rows, length-append ms rest)

  IsPrefix-take :
      (n : ℕ) (ms : List MessageRecord) (rows : List MessageRow)
      → IsPrefix ms (take n rows)
      → IsPrefix ms rows
  IsPrefix-take n ms rows (rest, e) =
      let f : MessageRow → MessageRecord = λ r. r.message in
      (
        rest ++ map f (drop n rows),
        ap (map f) (sym (take-drop n rows))
            ∙ map-append f (take n rows) (drop n rows)
            ∙ ap (λ l. l ++ map f (drop n rows)) e
            ∙ append_assoc ms rest (map f (drop n rows)),
      )

  -- A page that the pending inbox answers holds the first unacknowledged messages of the recipient,
  -- in stored order and with none left out, at most as many as asked for and at most 100; its estimate
  -- as a JSON array is at most 1 MiB; and the database is as it was.
  pub pending_inbox-page :
      (q : InboxQuery) (db after : Db) (ms : List MessageRecord)
      → pending_inbox sha256 q db ≡ (ok ms, after)
      → ((after ≡ db) × IsPrefix ms (select_rows (is_pending q.recipient) db.messages))
        × ((length ms ≤ min q.limit 100) × (2 + array_size 0 ms ≤ 1024 * 1024))
  pending_inbox-page q db after ms h =
      let rows = select_rows (is_pending q.recipient) db.messages in
      let (limits, (same, filled)) = pending_inbox-read q db after ms h in
      let first = fill-prefix 2 0 (take q.limit rows) ms filled in
      let bound = IsPrefix-length ms (take q.limit rows) first in
      let cut = length-take-le q.limit rows in
      (
        (same, IsPrefix-take q.limit ms rows first),
        (omega arith, fill-size 2 0 (take q.limit rows) ms (omega arith) filled),
      )

  answered :
      (q : InboxQuery) (db : Db) (ms : List MessageRecord)
      → 1 ≤ q.limit
      → q.limit ≤ max_inbox_messages
      → fill sha256 2 0 (take q.limit (select_rows (is_pending q.recipient) db.messages)) ≡ ok ms
      → pending_inbox sha256 q db ≡ (ok ms, db)
  unfolding pending_inbox
  answered q db ms l u h = ground arith

  first_taken :
      (n : ℕ) (r : MessageRow) (rows : List MessageRow)
      → 1 ≤ n
      → 2 + item r ≤ 1024 * 1024
      → All (λ r. hash_matches sha256 r ≡ true) (r ∷ rows)
      → (others : List MessageRecord) × (fill sha256 2 0 (take n (r ∷ rows))
          ≡ ok (r.message ∷ others))
  first_taken zero r rows l fits h = absurd (omega arith)
  first_taken (suc n) r rows l fits h =
      let (others, q) = fill-intact (2 + 0 + item r) 1 (take n rows) (All-take _ n rows h.1) in
      (others, fill-taken 2 0 r (take n rows) others h.0 q (omega arith))

  -- Where the bodies of the table are intact, the pending inbox answers every request for 1 to 100
  -- messages, and changes nothing.
  pub pending_inbox-answers :
      (q : InboxQuery) (db : Db)
      → All (λ r. hash_matches sha256 r ≡ true) db.messages
      → 1 ≤ q.limit
      → q.limit ≤ 100
      → (ms : List MessageRecord) × (pending_inbox sha256 q db ≡ (ok ms, db))
  pending_inbox-answers q db h l u =
      let rows = select_rows (is_pending q.recipient) db.messages in
      let (ms, e) =
        fill-intact 2 0 (take q.limit rows)
          (All-take _ q.limit rows (select_rows-All _ (is_pending q.recipient) db.messages h)) in
      (ms, answered q db ms l u e)

  -- Progress: where the bodies are intact and the estimate of the oldest pending message fits 1 MiB
  -- alone, every page starts with that message.
  pub pending_inbox-progress :
      (q : InboxQuery) (db : Db) (r : MessageRow) (rows : List MessageRow)
      → All (λ r. hash_matches sha256 r ≡ true) db.messages
      → 1 ≤ q.limit
      → q.limit ≤ 100
      → select_rows (is_pending q.recipient) db.messages ≡ r ∷ rows
      → 2 + conservative_serialized_size r.message ≤ 1024 * 1024
      → (others : List MessageRecord) × (pending_inbox sha256 q db ≡ (ok (r.message ∷ others), db))
  pending_inbox-progress q db r rows h l u e fits =
      let intact =
        subst (All (λ r. hash_matches sha256 r ≡ true)) e
          (select_rows-All _ (is_pending q.recipient) db.messages h) in
      let (others, f) = first_taken q.limit r rows l fits intact in
      (
        others,
        answered q db (r.message ∷ others) l u
            (subst (λ p. fill sha256 2 0 (take q.limit p) ≡ ok (r.message ∷ others)) (sym e) f),
      )
