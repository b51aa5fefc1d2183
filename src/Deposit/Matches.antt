-- ===== src/Deposit/Matches.antt =====
-- The ends of the matching of the next payment.
use mathlib.Core.Path.{subst}
use stablecoin_gateway.Prelude.{
  ℕ, String, ◌≡◌, refl, sym, Bool, true, false, ◌||◌, Option, none, some, arith, ◌⊎◌, Result, ok,
  err, text_eq, ltb, ◌==◌, Outcome-cases, Option-cases, Bool-cases, inl, inr, any, count_where,
}
use stablecoin_gateway.Indexer.Cursor.{ChainEvent}
use stablecoin_gateway.Deposit.Tables.{Intent, Database, Error}
use stablecoin_gateway.Deposit.Posting.{MatchResult, Environment, record_review}
use stablecoin_gateway.Deposit.Matcher.{
  Candidate, first_candidate, is_open_job, is_later_job, close_screening_job, intent_of,
  event_amount, id_of, risk_reason, match_in_time, match_intent, match_allowed, isolate,
  match_candidate, match_next,
}
use stablecoin_gateway.Deposit.Recording.{Quiet, record_review-Quiet}
use stablecoin_gateway.Deposit.Credits.{Credits, apply_matched_payment-Credits}

module _ (env : Environment) (now : ℕ) where
  -- A credit, and what had to hold of the event and of the intent.
  pub record Pays (x : Candidate) (i : Intent) (r : MatchResult) (db d : Database) : Type 0 where
    pub at : ℕ
    pub block_time : x.event.block_time ≡ some at
    pub not_before : ltb at i.created_at ≡ false
    pub not_after : ltb i.expires_at at ≡ false
    pub asset_active : x.asset.is_active ≡ true
    pub merchant_active : x.merchant.is_active ≡ true
    pub address_active : x.address.is_active ≡ true
    pub credits : Credits env now x.event x.address.id i (event_amount x.event) r db d

  match_in_time-Pays :
      (x : Candidate) (i : Intent) (db d : Database) (r : MatchResult) (time : Option ℕ)
      → x.event.block_time ≡ time
      → x.asset.is_active ≡ true
      → x.merchant.is_active ≡ true
      → x.address.is_active ≡ true
      → match_in_time env now x i time db ≡ (ok r, d)
      → Quiet x.event x.address.id (event_amount x.event) r db d ⊎ Pays x i r db d
  unfolding match_in_time
  match_in_time-Pays x i db d r none e a m b h = inl (
      record_review-Quiet x.event x.address.id (some i.id) (event_amount x.event)
        "missing_block_time" db d r h)
  match_in_time-Pays x i db d r (some at) e a m b h = elim (Bool-cases (ltb at i.created_at)) [
    | inl early ↦ inl (
        record_review-Quiet x.event x.address.id (some i.id) (event_amount x.event) "before_intent"
          db d r (ground arith))
    | inr not_before ↦ elim (Bool-cases (ltb i.expires_at at)) [
      | inl late ↦ inl (
          record_review-Quiet x.event x.address.id (some i.id) (event_amount x.event) "after_expiry"
            db d r (ground arith))
      | inr not_after ↦
          elim (apply_matched_payment-Credits env now x.event x.address.id i (event_amount x.event)
            db d r (ground arith)) [
              | inl quiet ↦ inl quiet
              | inr credits ↦ inr (record {
                at = at;
                block_time = e;
                not_before = not_before;
                not_after = not_after;
                asset_active = a;
                merchant_active = m;
                address_active = b;
                credits = credits;
              })
            ]
    ]
  ]

  match_intent-Pays :
      (x : Candidate) (i : Intent) (db d : Database) (r : MatchResult)
      → match_intent env now x (some i) db ≡ (ok r, d)
      → Quiet x.event x.address.id (event_amount x.event) r db d ⊎ Pays x i r db d
  unfolding match_intent
  match_intent-Pays x i db d r h = elim (Bool-cases x.asset.is_active) [
    | inr disabled ↦ inl (
        record_review-Quiet x.event x.address.id (some i.id) (event_amount x.event) "asset_disabled"
          db d r (ground arith))
    | inl a ↦ elim (Bool-cases x.merchant.is_active) [
      | inr inactive ↦ inl (
          record_review-Quiet x.event x.address.id (some i.id) (event_amount x.event)
            "merchant_inactive" db d r (ground arith))
      | inl m ↦ elim (Bool-cases x.address.is_active) [
        | inr retired ↦ inl (
            record_review-Quiet x.event x.address.id (some i.id) (event_amount x.event)
              "address_retired" db d r (ground arith))
        | inl b ↦ match_in_time-Pays x i db d r x.event.block_time refl a m b (ground arith)
      ]
    ]
  ]

  close_screening_job_kept :
      (id : String) (db d : Database)
      → close_screening_job now id db ≡ (ok tt, d)
      → (d ≡ record db { jobs = d.jobs }) × (count_where (is_open_job id) db.jobs ≡ 1)
  unfolding close_screening_job
  close_screening_job_kept id db d h = elim (Bool-cases (any (is_later_job now id) db.jobs)) [
    | inl later ↦ absurd (ground arith)
    | inr earlier ↦ elim (Bool-cases (count_where (is_open_job id) db.jobs == 1)) [
      | inl one ↦ (ground arith, ground arith)
      | inr other ↦ absurd (ground arith)
    ]
  ]

  -- The ends of `MatchNext`: refused, no event to match, a match that moves no money, and a credit.
  pub data MatchEnd (locked : ChainEvent → Bool) (db : Database)
      : Result Error MatchResult × Database → Type 0 where
    refused : (x : Error) → MatchEnd locked db (err x, db)
    idle :
        (r : MatchResult)
        → first_candidate locked now db db.events ≡ none
        → r.processed ≡ false
        → MatchEnd locked db (ok r, db)
    quiet :
        (x : Candidate) (r : MatchResult) (d : Database)
        → first_candidate locked now db db.events ≡ some x
        → Quiet x.event x.address.id (event_amount x.event) r db d
        → MatchEnd locked db (ok r, d)
    credited :
        (x : Candidate) (i : Intent) (r : MatchResult) (m d : Database)
        → first_candidate locked now db db.events ≡ some x
        → intent_of db x ≡ some i
        → text_eq x.answer.decision "allow" ≡ true
        → Pays x i r db m
        → d ≡ record m { jobs = d.jobs }
        → count_where (is_open_job x.job.id) m.jobs ≡ 1
        → MatchEnd locked db (ok r, d)

  module _ (locked : ChainEvent → Bool) (db : Database) where
    allowed_end :
        (x : Candidate) (d : Database) (r : MatchResult)
        → first_candidate locked now db db.events ≡ some x
        → text_eq x.answer.decision "allow" ≡ true
        → match_allowed env now x db ≡ (ok r, d)
        → MatchEnd locked db (ok r, d)
    unfolding match_allowed match_intent
    allowed_end x d r first allows h =
        elim (Outcome-cases (match_intent env now x (intent_of db x) db)) [
          | inr (y, m, refusal) ↦ absurd (ground arith)
          | inl (q, m, done) ↦ elim (Outcome-cases (close_screening_job now x.job.id m)) [
            | inr (y, n, refusal) ↦ absurd (ground arith)
            | inl (u, n, closed) ↦
                let kept = close_screening_job_kept x.job.id m n closed in
                let same : n ≡ d = ground arith in
                let answer : q ≡ r = ground arith in
                elim (Option-cases (intent_of db x)) [
                  | inl missing ↦
                      let reviewed =
                        record_review-Quiet x.event x.address.id none (event_amount x.event)
                          "no_intent" db m q (ground arith) in
                      quiet x r d first (rw (sym same, sym answer, kept.0) reviewed)
                  | inr (i, found) ↦ elim (match_intent-Pays x i db m q (ground arith)) [
                    | inl still ↦ quiet x r d first (rw (sym same, sym answer, kept.0) still)
                    | inr pays ↦
                        credited x i r m d first found allows (rw (sym answer) pays)
                          (rw (sym same) kept.0) kept.1
                  ]
                ]
          ]
        ]

    isolated_end :
        (x : Candidate) (d : Database) (r : MatchResult)
        → first_candidate locked now db db.events ≡ some x
        → isolate env now x db ≡ (ok r, d)
        → MatchEnd locked db (ok r, d)
    unfolding isolate
    isolated_end x d r first h =
        elim (Outcome-cases (
          record_review x.event x.address.id (id_of (intent_of db x)) (event_amount x.event)
            (risk_reason x.answer.decision) db)) [
              | inr (y, m, refusal) ↦ absurd (ground arith)
              | inl (q, m, done) ↦ elim (Outcome-cases (close_screening_job now x.job.id m)) [
                | inr (y, n, refusal) ↦ absurd (ground arith)
                | inl (u, n, closed) ↦
                    let kept = close_screening_job_kept x.job.id m n closed in
                    let same : n ≡ d = ground arith in
                    let answer : q ≡ r = ground arith in
                    let reviewed =
                      record_review-Quiet x.event x.address.id (id_of (intent_of db x))
                        (event_amount x.event) (risk_reason x.answer.decision) db m q done in
                    quiet x r d first (rw (sym same, sym answer, kept.0) reviewed)
              ]
            ]

    candidate_end :
        (d : Database) (r : MatchResult)
        → match_candidate env now (first_candidate locked now db db.events) db ≡ (ok r, d)
        → MatchEnd locked db (ok r, d)
    unfolding match_candidate
    candidate_end d r h = elim (Option-cases (first_candidate locked now db db.events)) [
      | inl nothing ↦
          let same : d ≡ db = ground arith in
          let untaken : r.processed ≡ false = ground arith in
          subst (λ z. MatchEnd locked db (ok r, z)) (sym same) (idle r nothing untaken)
      | inr (x, first) ↦
          elim (Bool-cases
            (text_eq x.answer.decision "deny" || text_eq x.answer.decision "review")) [
              | inl risky ↦ isolated_end x d r first (ground arith)
              | inr fine ↦ elim (Bool-cases (text_eq x.answer.decision "allow")) [
                | inr other ↦ absurd (ground arith)
                | inl allows ↦ allowed_end x d r first allows (ground arith)
              ]
            ]
    ]

    -- `MatchNext` fails and changes nothing, or has no event to match and changes nothing, or adds
    -- one match row for the first unmatched event without moving money, or adds that row and credits a
    -- deposit. A credit is of the first unmatched event, which the screening has allowed, by the
    -- intent of its address, in the time of the intent and with asset, merchant and address active;
    -- the payments add up to exactly the expected amount; the journal gains a debit of that amount on the
    -- custody account and a credit on the merchant's available account, or is left as an earlier posting of the
    -- same request, under the same key or reference, has made it; the intent had no credit before; and one
    -- event is added to the outbox.
    pub match_next_ends : MatchEnd locked db (match_next env now locked db)
    unfolding match_next
    match_next_ends =
        elim (Outcome-cases
          (match_candidate env now (first_candidate locked now db db.events) db)) [
            | inr (x, d, refusal) ↦
                let ends : match_next env now locked db ≡ (err x, db) = ground arith in
                subst (MatchEnd locked db) (sym ends) (refused x)
            | inl (r, d, done) ↦
                let ends : match_next env now locked db ≡ (ok r, d) = ground arith in
                subst (MatchEnd locked db) (sym ends) (candidate_end d r done)
          ]
