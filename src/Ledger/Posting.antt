-- ===== src/Ledger/Posting.antt =====
-- What posting does to the journal.
use stablecoin_gateway.Prelude.{
  ℕ, suc, ◌+◌, String, ◌≡◌, refl, ◌||◌, ◌&&◌, inl, inr, Bool, false, List, [], ◌∷◌, arith,
  Bool-cases, if◌then◌else◌, text_eq, trim_space, ok, All, any, update_where_none, count_where,
}
use stablecoin_gateway.Ledger.Transaction.{Entry, Transaction}
use stablecoin_gateway.Ledger.Balance.{IsKnown, debits, credits, IsEntry}
use stablecoin_gateway.Ledger.Repository.{
  DatabaseSide, d, c, draft, Payload, JournalTransaction, JournalEntry, Journal, conflicts,
  entry_row, is_account_of, insert_entries, is_draft_of, mark_posted, set_posted, draft_row,
}

abbrev pub amount_on : DatabaseSide → DatabaseSide → ℕ → ℕ
amount_on d d n = n
amount_on c c n = n
amount_on _ _ n = 0

-- The sum of one side of the journal over an asset.
abbrev pub journal_total : DatabaseSide → String → List JournalEntry → ℕ
journal_total s a [] = 0
journal_total s a (e ∷ es) =
    (if text_eq (trim_space e.asset_id) a then amount_on s e.side e.amount else 0)
    + journal_total s a es

pub entry_row-total :
    (id : String) (line : ℕ) (e : Entry) (a : String)
    → IsKnown e.side
    → (journal_total d a (entry_row id line e ∷ []) ≡ debits a (e ∷ []))
      × (journal_total c a (entry_row id line e ∷ []) ≡ credits a (e ∷ []))
unfolding entry_row
entry_row-total id line e a k = ground arith

-- The entries of a transaction add its debits and its credits to the journal's totals.
pub insert_entries-total :
    (id : String) (line : ℕ) (es : List Entry) (j k : Journal) (a : String)
    → All IsEntry es
    → insert_entries id line es j ≡ (ok tt, k)
    → (journal_total d a k.entries ≡ journal_total d a j.entries + debits a es)
      × (journal_total c a k.entries ≡ journal_total c a j.entries + credits a es)
      × (k.transactions ≡ j.transactions)
unfolding insert_entries
insert_entries-total id line [] j k a s h = ground arith
insert_entries-total id line (e ∷ es) j k a s h =
    elim (Bool-cases (any (is_account_of e) j.accounts)) [
      | inl known ↦
          let rest =
            insert_entries-total id (suc line) es
              (record j { entries = entry_row id line e ∷ j.entries }) k a s.1 (ground arith) in
          let row = entry_row-total id line e a s.0.known in ground (arith, rest, row)
      | inr missing ↦ absurd (ground arith)
    ]

-- Two rows of `journal_transactions` that its constraints do not allow together.
abbrev pub clashes : JournalTransaction → JournalTransaction → Bool
clashes r s =
    text_eq s.id r.id
    || (text_eq s.requester_type r.requester_type && text_eq s.requester_id r.requester_id)
      && text_eq s.idempotency_key r.idempotency_key
    || (text_eq s.requester_type r.requester_type && text_eq s.requester_id r.requester_id)
      && text_eq s.reference_type r.reference_type
      && text_eq s.reference_id r.reference_id

abbrev pub IsUnique : List JournalTransaction → Type 0
IsUnique [] = Unit
IsUnique (r ∷ rs) = (any (clashes r) rs ≡ false) × IsUnique rs

-- No two rows share an identity, a key or a reference; no draft is left; each asset is in balance.
pub record IsSound (j : Journal) : Type 0 where
  pub unique : IsUnique j.transactions
  pub settled : All (λ r. r.status ≡ draft → ⊥) j.transactions
  pub balanced : (a : String) → journal_total d a j.entries ≡ journal_total c a j.entries

pub no_draft_of :
    (t : Transaction) (rs : List JournalTransaction)
    → any (conflicts t) rs ≡ false
    → count_where (is_draft_of t.id) rs ≡ 0
no_draft_of t [] h = refl
no_draft_of t (r ∷ rs) h = ground (arith, no_draft_of t rs)

module _ (digest : Payload → String) where
  abbrev pub posted_row : Transaction → JournalTransaction
  posted_row t = mark_posted (draft_row digest t)

  pub set_posted_new :
      (t : Transaction) (j : Journal)
      → any (conflicts t) j.transactions ≡ false
      → (k : Journal) → k.transactions ≡ draft_row digest t ∷ j.transactions
      → set_posted t.id k ≡ (ok tt, record k { transactions = posted_row t ∷ j.transactions })
  unfolding set_posted draft_row
  set_posted_new t j fresh k e =
      let none_left = no_draft_of t j.transactions fresh in
      let kept = update_where_none (is_draft_of t.id) mark_posted j.transactions none_left in
      rw e (ground (arith, none_left, kept))
