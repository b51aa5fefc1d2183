-- ===== src/Deposit/Credits.antt =====
-- What the matching of one payment has credited.
use Prim.Native.String.{◌++◌ as text_append}
use stablecoin_gateway.Prelude.{
  ℕ, ◌+◌, String, ◌≡◌, refl, sym, ap, ◌∙◌, true, ◌&&◌, ◌||◌, some, ◌∷◌, arith, ◌⊎◌, ok, ltb, leb,
  ◌==◌, max_int64, Outcome-cases, Option-cases, Bool-cases, inl, inr, count_where, update_where,
}
use stablecoin_gateway.Ledger.Booking.{Books, post_in_transaction-Books}
use stablecoin_gateway.Ledger.Repository.{Account, PostResult, post_in_transaction}
use stablecoin_gateway.Outbox.Enqueue.{PendingEvent, enqueue_in_transaction}
use stablecoin_gateway.Indexer.Cursor.{ChainEvent}
use stablecoin_gateway.Deposit.Tables.{
  Intent, paid, partially_paid, overpaid, Database, IntentStatus,
}
use stablecoin_gateway.Deposit.Recording.{
  matched_event, Recorded, Quiet, record_review-Quiet, record_match-Matched, carried-Quiet,
  update_one_kept,
}
use stablecoin_gateway.Deposit.Posting.{
  MatchResult, Environment, record_review, record_match, update_intent_amount, is_uncredited,
  credited_row, mark_intent_credited, custody_account, available_account, find_posting_accounts,
  credit_transaction, post_credit, enqueue_deposit_confirmed, write_credit, credit_exact_payment,
  apply_matched_payment,
}

module _ (env : Environment) (now : ℕ) (e : ChainEvent) (address_id : String) (i : Intent)
    (amount : ℕ) where
  -- The credit of an intent: the payments add up to exactly the expected amount, a positive `int64`;
  -- the ledger transaction debits the custody account and credits the available one; the one row of
  -- the intent had no credit before; and one event is added.
  pub record Credits (r : MatchResult) (db d : Database) : Type 0 where
    pub custody : Account
    pub available : Account
    pub posted : PostResult
    pub event : PendingEvent
    pub exact : i.received_amount + amount ≡ i.expected_amount
    pub bounded : leb (i.received_amount + amount) max_int64 ≡ true
    pub custody_is : custody_account i db.journal ≡ some custody
    pub available_is : available_account i db.journal ≡ some available
    pub booked :
        Books env.digest
          (record {
            id = env.journal_id;
            requester_type = "system";
            requester_id = "deposit";
            idempotency_key = text_append "credit:" i.id;
            reference_type = "deposit";
            reference_id = i.id;
            debited = custody.id;
            credited = available.id;
            asset_id = i.asset_id;
            amount = i.received_amount + amount;
          })
          db.journal
          d.journal
          posted
    pub recorded : d.matches ≡ matched_event e address_id i.id amount ∷ db.matches
    pub one_row : count_where (is_uncredited i.id) db.intents ≡ 1
    pub updated :
        d.intents
        ≡ update_where
            (is_uncredited i.id)
            (λ x. record x {
              received_amount = i.received_amount + amount;
              status = paid;
              ledger_transaction_id = some posted.transaction_id;
              credited_amount = some (i.received_amount + amount);
              credited_at = some now;
              updated_at = now;
            })
            db.intents
    pub announced : d.outbox ≡ event ∷ db.outbox
    pub topic : event.topic ≡ "deposit.confirmed"
    pub credited : r.credited ≡ true

  abbrev pub received : ℕ
  received = i.received_amount + amount

  post_credit-Posted :
      (custody available : Account) (db d : Database) (posted : PostResult)
      → post_credit env now
          (credit_transaction env.journal_id i received custody.id available.id)
          db
        ≡ (ok posted, d)
      → (post_in_transaction env.digest
            (credit_transaction env.journal_id i received custody.id available.id)
            db.journal
          ≡ (ok posted, d.journal))
        × (d.intents ≡ db.intents)
        × (d.outbox ≡ db.outbox)
        × (d.matches ≡ db.matches)
  unfolding post_credit
  post_credit-Posted custody available db d posted h =
      elim (Outcome-cases (
        post_in_transaction env.digest
          (credit_transaction env.journal_id i received custody.id available.id) db.journal)) [
            | inr (x, j, refused) ↦ absurd (ground arith)
            | inl (p, j, done) ↦ (ground arith, ground arith, ground arith, ground arith)
          ]

  mark_intent_credited-Marked :
      (journal_id : String) (db d : Database)
      → mark_intent_credited now i.id received journal_id db ≡ (ok tt, d)
      → (count_where (is_uncredited i.id) db.intents ≡ 1)
        × (d ≡ record db {
          intents =
              update_where (is_uncredited i.id) (credited_row now received journal_id) db.intents;
        })
  unfolding mark_intent_credited
  mark_intent_credited-Marked journal_id db d h = update_one_kept _ _ _ db d h

  pub record Announces (db d : Database) : Type 0 where
    pub event : PendingEvent
    pub added : d.outbox ≡ event ∷ db.outbox
    pub journal : d.journal ≡ db.journal
    pub intents : d.intents ≡ db.intents
    pub matches : d.matches ≡ db.matches
    pub topic : event.topic ≡ "deposit.confirmed"

  enqueue_deposit_confirmed-Announces :
      (journal_id : String) (db d : Database)
      → enqueue_deposit_confirmed env now i received journal_id db ≡ (ok tt, d)
      → Announces db d
  unfolding enqueue_deposit_confirmed enqueue_in_transaction
  enqueue_deposit_confirmed-Announces journal_id db d h = record {
    event = record {
      id = env.event_id;
      topic = "deposit.confirmed";
      aggregate_type = "deposit";
      aggregate_id = i.id;
      payload = env.encode (record {
        deposit_intent_id = i.id;
        merchant_id = i.merchant_id;
        merchant_reference = i.merchant_reference;
        asset_id = i.asset_id;
        amount = received;
        ledger_transaction_id = journal_id;
      });
    };
    added = ground arith;
    journal = ground arith;
    intents = ground arith;
    matches = ground arith;
    topic = refl;
  }

  posting_accounts :
      (custody available : Account) (db : Database)
      → find_posting_accounts i db.journal ≡ some (custody, available)
      → (custody_account i db.journal ≡ some custody)
        × (available_account i db.journal ≡ some available)
  unfolding find_posting_accounts
  posting_accounts custody available db h = elim (Option-cases (custody_account i db.journal)) [
    | inl missing ↦ absurd (ground arith)
    | inr (a, first) ↦ elim (Option-cases (available_account i db.journal)) [
      | inl missing ↦ absurd (ground arith)
      | inr (b, second) ↦ (ground arith, ground arith)
    ]
  ]

  write_credit-Credits :
      (custody available : Account) (db d : Database) (r : MatchResult)
      → received ≡ i.expected_amount
      → leb received max_int64 ≡ true
      → find_posting_accounts i db.journal ≡ some (custody, available)
      → write_credit env now e address_id i amount received (custody, available) db ≡ (ok r, d)
      → Credits r db d
  unfolding write_credit
  write_credit-Credits custody available db d r exact bounded accounts h =
      elim (Outcome-cases (
        post_credit env now (credit_transaction env.journal_id i received custody.id available.id)
          db)) [
            | inr (x, d1, refused) ↦ absurd (ground arith)
            | inl (posted, d1, done1) ↦
                elim (Outcome-cases
                  (mark_intent_credited now i.id received posted.transaction_id d1)) [
                    | inr (x, d2, refused) ↦ absurd (ground arith)
                    | inl (u, d2, done2) ↦
                        elim (Outcome-cases
                          (record_match e address_id i.id amount paid received d2)) [
                            | inr (x, d3, refused) ↦ absurd (ground arith)
                            | inl (m, d3, done3) ↦
                                elim (Outcome-cases (
                                  enqueue_deposit_confirmed env now i received posted.transaction_id
                                    d3)) [
                                      | inr (x, d4, refused) ↦ absurd (ground arith)
                                      | inl (v, d4, done4) ↦
                                          let p =
                                            post_credit-Posted custody available db d1 posted
                                              done1 in
                                          let marked =
                                            mark_intent_credited-Marked posted.transaction_id d1 d2
                                              done2 in
                                          let matched =
                                            record_match-Matched e address_id i.id amount paid
                                              received d2 d3 m done3 in
                                          let told =
                                            enqueue_deposit_confirmed-Announces
                                              posted.transaction_id d3 d4 done4 in
                                          let same : d4 ≡ d = ground arith in
                                          let journal : d.journal ≡ d1.journal =
                                            ap (λ x. x.journal) (sym same)
                                            ∙ told.journal
                                            ∙ ap (λ x. x.journal) matched.0
                                            ∙ ap (λ x. x.journal) marked.1 in
                                          let row =
                                            credited_row now received posted.transaction_id in
                                          record {
                                            custody = custody;
                                            available = available;
                                            posted = posted;
                                            event = told.event;
                                            exact = exact;
                                            bounded = bounded;
                                            custody_is =
                                                (posting_accounts custody available db accounts).0;
                                            available_is =
                                                (posting_accounts custody available db accounts).1;
                                            booked =
                                                post_in_transaction-Books env.digest _ db.journal
                                                  d.journal posted
                                                  (p.0 ∙ ap (λ j. (ok posted, j)) (sym journal));
                                            recorded =
                                                ap (λ x. x.matches) (sym same)
                                                ∙ told.matches
                                                ∙ ap (λ x. x.matches) matched.0
                                                ∙ ap
                                                    (λ x.
                                                      matched_event e address_id i.id amount
                                                      ∷ x.matches)
                                                    marked.1
                                                ∙ ap
                                                    (λ x.
                                                      matched_event e address_id i.id amount ∷ x)
                                                    p.3;
                                            one_row =
                                                sym (ap (count_where (is_uncredited i.id)) p.1)
                                                ∙ marked.0;
                                            updated =
                                                ap (λ x. x.intents) (sym same)
                                                ∙ told.intents
                                                ∙ ap (λ x. x.intents) matched.0
                                                ∙ ap (λ x. x.intents) marked.1
                                                ∙ ap (update_where (is_uncredited i.id) row) p.1;
                                            announced =
                                                ap (λ x. x.outbox) (sym same)
                                                ∙ told.added
                                                ∙ ap (◌∷◌ told.event) (
                                                    ap (λ x. x.outbox) matched.0
                                                    ∙ ap (λ x. x.outbox) marked.1
                                                    ∙ p.2);
                                            topic = told.topic;
                                            credited = ground arith;
                                          }
                                    ]
                          ]
                  ]
          ]

  credit_exact_payment-Credits :
      (db d : Database) (r : MatchResult)
      → received ≡ i.expected_amount
      → credit_exact_payment env now e address_id i amount received db ≡ (ok r, d)
      → Quiet e address_id amount r db d ⊎ Credits r db d
  unfolding credit_exact_payment
  credit_exact_payment-Credits db d r exact h =
      elim (Bool-cases (ltb 0 received && leb received max_int64)) [
        | inr outside ↦
            elim (Outcome-cases
              (record_review e address_id (some i.id) amount "amount_out_of_range" db)) [
                | inr (x, m, refused) ↦ absurd (ground arith)
                | inl (q, m, done) ↦
                    let quiet =
                      record_review-Quiet e address_id (some i.id) amount "amount_out_of_range" db m
                        q done in
                    inl (
                      carried-Quiet e address_id amount q r db db m d refl refl refl (ground arith)
                        (ground arith) quiet)
              ]
        | inl inside ↦ elim (Option-cases (find_posting_accounts i db.journal)) [
          | inr ((custody, available), accounts) ↦ inr (
              write_credit-Credits custody available db d r exact (ground arith) accounts
                (ground arith))
          | inl missing ↦
              elim (Outcome-cases
                (record_review e address_id (some i.id) amount "ledger_account_unavailable" db)) [
                  | inr (x, m, refused) ↦ absurd (ground arith)
                  | inl (q, m, done) ↦
                      let quiet =
                        record_review-Quiet e address_id (some i.id) amount
                          "ledger_account_unavailable" db m q done in
                      inl (
                        carried-Quiet e address_id amount q r db db m d refl refl refl
                          (ground arith) (ground arith) quiet)
                ]
        ]
      ]

  update_intent_amount_kept :
      (total : ℕ) (status : IntentStatus) (db d : Database)
      → update_intent_amount now i.id total status db ≡ (ok tt, d)
      → (d.journal ≡ db.journal) × (d.outbox ≡ db.outbox) × (d.matches ≡ db.matches)
  unfolding update_intent_amount
  update_intent_amount_kept total status db d h =
      let kept = update_one_kept _ _ _ db d h in
      (ap (λ x. x.journal) kept.1, ap (λ x. x.outbox) kept.1, ap (λ x. x.matches) kept.1)

  -- A payment that is applied moves no money, or credits the intent.
  pub apply_matched_payment-Credits :
      (db d : Database) (r : MatchResult)
      → apply_matched_payment env now e address_id i amount db ≡ (ok r, d)
      → Quiet e address_id amount r db d ⊎ Credits r db d
  unfolding apply_matched_payment
  apply_matched_payment-Credits db d r h =
      elim (Bool-cases (amount == 0 || i.expected_amount == 0)) [
        | inl unsound ↦ absurd (ground arith)
        | inr sound ↦ elim (Bool-cases (ltb received i.expected_amount)) [
          | inl less ↦
              elim (Outcome-cases (update_intent_amount now i.id received partially_paid db)) [
                | inr (x, m, refused) ↦ absurd (ground arith)
                | inl (u, m, done) ↦
                    let kept = update_intent_amount_kept received partially_paid db m done in
                    let matched =
                      record_match-Matched e address_id i.id amount partially_paid received m d r
                        (ground arith) in
                    inl (
                      carried-Quiet e address_id amount r r db m d d kept.0 kept.1 kept.2 refl refl
                        (
                          matched.1,
                          ap (λ x. x.journal) matched.0,
                          ap (λ x. x.outbox) matched.0,
                          Recorded.matched i.id (ap (λ x. x.matches) matched.0),
                        ))
              ]
          | inr enough ↦ elim (Bool-cases (received == i.expected_amount)) [
            | inl exact ↦ credit_exact_payment-Credits db d r (ground arith) (ground arith)
            | inr other ↦
                elim (Outcome-cases (update_intent_amount now i.id received overpaid db)) [
                  | inr (x, m, refused) ↦ absurd (ground arith)
                  | inl (u, m, done) ↦
                      let kept = update_intent_amount_kept received overpaid db m done in
                      elim (Outcome-cases
                        (record_review e address_id (some i.id) amount "overpaid" m)) [
                          | inr (x, m2, refused) ↦ absurd (ground arith)
                          | inl (q, m2, told) ↦
                              let quiet =
                                record_review-Quiet e address_id (some i.id) amount "overpaid" m m2
                                  q told in
                              inl (
                                carried-Quiet e address_id amount q r db m m2 d kept.0 kept.1 kept.2
                                  (ground arith) (ground arith) quiet)
                        ]
                ]
          ]
        ]
      ]
