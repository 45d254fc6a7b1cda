-- ===== src/Store/Inbox/Checks.antt =====
-- The ids of an acknowledgement in crates/psst-store/src/inbox.rs, checked one by one.
use psst.Prelude.{
  ◌≡◌, refl, subst, ◌∙◌, Bool, true, false, ◌||◌, List, [], ◌∷◌, ◌++◌, arith, any, any-append,
  all-append, &&_left, &&_right, &&_rest, exists_row, eq_iff, Bool-cases, inl, inr, ◌==◌,
}
use psst.Core.Error.{ok, err}
use psst.Core.Id.{MembershipId, MessageId}
use psst.Store.Error.{RepositoryError}
use psst.Store.Schema.{Db, MessageRow}
use psst.Store.Inbox.{is_owned, check_owned}
use psst.Store.Inbox.Updates.{is_asked, owns_all}

-- The distinct ids are those of the request.
pub record Checked (recipient : MembershipId) (distinct ids : List MessageId) (db : Db)
    : Type 0 where
  pub result : List MessageId
  pub answer : check_owned recipient distinct ids db ≡ ok result
  pub asked :
      (m : MessageRow)
      → is_asked recipient result m ≡ (is_asked recipient distinct m || is_asked recipient ids m)

module _ (recipient : MembershipId) where
  -- An id that was seen asks for nothing new.
  seen_asked :
      (distinct : List MessageId) (id : MessageId) (m : MessageRow)
      → any (λ d. d == id) distinct ≡ true
      → is_owned recipient id m ≡ true
      → is_asked recipient distinct m ≡ true
  seen_asked [] id m h o = absurd (cc)
  seen_asked (d ∷ ds) id m h o =
      ground (arith, seen_asked ds id m, eq_iff d id, eq_iff m.id id, eq_iff m.id d)

  seen_owned :
      (distinct : List MessageId) (id : MessageId) (db : Db)
      → owns_all recipient distinct db ≡ true
      → any (λ d. d == id) distinct ≡ true
      → exists_row (is_owned recipient id) db.messages ≡ true
  seen_owned [] id db h s = absurd (cc)
  seen_owned (d ∷ ds) id db h s = elim (Bool-cases (d == id)) [
    | inl e ↦
        subst (λ x. exists_row (is_owned recipient x) db.messages ≡ true) ((eq_iff d id).0 e)
          (&&_left _ _ h)
    | inr e ↦ seen_owned ds id db (&&_right _ _ h) (ground arith)
  ]

  check_seen :
      (distinct ids : List MessageId) (id : MessageId) (db : Db)
      → any (λ d. d == id) distinct ≡ true
      → check_owned recipient distinct (id ∷ ids) db ≡ check_owned recipient distinct ids db
  unfolding check_owned
  check_seen distinct ids id db h = ground arith

  check_fresh :
      (distinct ids : List MessageId) (id : MessageId) (db : Db)
      → any (λ d. d == id) distinct ≡ false
      → exists_row (is_owned recipient id) db.messages ≡ true
      → check_owned recipient distinct (id ∷ ids) db
        ≡ check_owned recipient (distinct ++ id ∷ []) ids db
  unfolding check_owned
  check_fresh distinct ids id db h o = ground arith

  check_foreign :
      (distinct ids : List MessageId) (id : MessageId) (db : Db)
      → any (λ d. d == id) distinct ≡ false
      → exists_row (is_owned recipient id) db.messages ≡ false
      → check_owned recipient distinct (id ∷ ids) db ≡ err RepositoryError.not_found
  unfolding check_owned
  check_foreign distinct ids id db h o = ground arith

  seen_Checked :
      (distinct ids : List MessageId) (id : MessageId) (db : Db)
      → any (λ d. d == id) distinct ≡ true
      → Checked recipient distinct ids db
      → Checked recipient distinct (id ∷ ids) db
  seen_Checked distinct ids id db s c = record {
    result = c.result;
    answer = check_seen distinct ids id db s ∙ c.answer;
    asked = λ m. ground (arith, c.asked m, seen_asked distinct id m);
  }

  fresh_Checked :
      (distinct ids : List MessageId) (id : MessageId) (db : Db)
      → any (λ d. d == id) distinct ≡ false
      → exists_row (is_owned recipient id) db.messages ≡ true
      → Checked recipient (distinct ++ id ∷ []) ids db
      → Checked recipient distinct (id ∷ ids) db
  fresh_Checked distinct ids id db f o c = record {
    result = c.result;
    answer = check_fresh distinct ids id db f o ∙ c.answer;
    asked =
        λ m. ground (arith, c.asked m, any-append (λ x. is_owned recipient x m) distinct (id ∷ []));
  }

  pub check_owned-Checked :
      (distinct ids : List MessageId) (db : Db)
      → owns_all recipient ids db ≡ true
      → Checked recipient distinct ids db
  unfolding check_owned
  check_owned-Checked distinct [] db h = record {
    result = distinct;
    answer = refl;
    asked = λ m. ground arith;
  }
  check_owned-Checked distinct (id ∷ ids) db h =
      let first : Bool = exists_row (is_owned recipient id) db.messages in
      let rest : owns_all recipient ids db ≡ true = &&_right first (owns_all recipient ids db) h in
      elim (Bool-cases (any (λ d. d == id) distinct)) [
        | inl s ↦ seen_Checked distinct ids id db s (check_owned-Checked distinct ids db rest)
        | inr f ↦
            fresh_Checked distinct ids id db f (&&_left first (owns_all recipient ids db) h)
              (check_owned-Checked (distinct ++ id ∷ []) ids db rest)
      ]

  -- One id that is not the recipient's refuses the request.
  pub check_owned-refused :
      (distinct ids : List MessageId) (db : Db)
      → owns_all recipient distinct db ≡ true
      → owns_all recipient ids db ≡ false
      → check_owned recipient distinct ids db ≡ err RepositoryError.not_found
  unfolding check_owned
  check_owned-refused distinct [] db o h = absurd (cc)
  check_owned-refused distinct (id ∷ ids) db o h = elim (Bool-cases (any (λ d. d == id) distinct)) [
    | inl s ↦
        check_seen distinct ids id db s
        ∙ check_owned-refused distinct ids db o (&&_rest _ _ (seen_owned distinct id db o s) h)
    | inr f ↦ elim (Bool-cases (exists_row (is_owned recipient id) db.messages)) [
      | inr n ↦ check_foreign distinct ids id db f n
      | inl w ↦
          check_fresh distinct ids id db f w
          ∙ check_owned-refused (distinct ++ id ∷ []) ids db
              (ground (
                arith,
                all-append (λ x. exists_row (is_owned recipient x) db.messages) distinct (id ∷ []),
              ))
              (&&_rest _ _ w h)
    ]
  ]
