-- ===== src/Payout/Decisions.antt =====
-- When the execution worker moves money, and which transactions it hands to the node.
use stablecoin_gateway.Prelude.{
  ℕ, ◌≤◌, String, ◌≡◌, refl, ◌∙◌, Bool, true, false, none, some, arith, ◌⊎◌, inl, inr, ℤ, leb,
  Result, ok, err, Outcome-cases, Option-cases, Bool-cases,
}
use stablecoin_gateway.Tron.Types.{Header, TransactionStatus, TransactionState}
use stablecoin_gateway.Payout.State.{Database, Error}
use stablecoin_gateway.Payout.Execution.{
  BroadcastClaim, ConfirmationClaim, begin_confirmation, release_confirmation,
}
use stablecoin_gateway.Payout.Finalization.{
  Environment, complete_confirmation_success, complete_confirmation_failure,
}
use stablecoin_gateway.Payout.Worker.{
  BroadcastResult, Node, World, WorkerError, Round, queued, joined, unless_done, send, rebroadcast,
  confirm_missing, confirm_state, confirm,
}

release_confirmation-journal :
    (now : ℕ) (f : ConfirmationClaim) (delay : ℤ) (code : String) (db : Database)
    → (release_confirmation now f delay code db).1.journal ≡ db.journal
unfolding release_confirmation
release_confirmation-journal now f delay code db =
    elim (Outcome-cases (release_confirmation now f delay code db)) [
      | inl (u, db', h) ↦ ground arith
      | inr (x, db', h) ↦ ground arith
    ]

begin_confirmation-journal :
    (now : ℕ) (b : BroadcastClaim) (result code : String) (db : Database)
    → (begin_confirmation now b result code db).1.journal ≡ db.journal
unfolding begin_confirmation
begin_confirmation-journal now b result code db =
    elim (Outcome-cases (begin_confirmation now b result code db)) [
      | inl (u, db', h) ↦ ground arith
      | inr (x, db', h) ↦ ground arith
    ]

queued-database :
    {A : Type 0} (o : Result Error A × Database) (w : World)
    → ((queued o w).1.database ≡ o.1) × ((queued o w).1.sent ≡ w.sent)
queued-database (ok a, db) w = (refl, refl)
queued-database (err e, db) w = (refl, refl)

-- The observations of the node that settle a payout, and those that release its frozen balance.
abbrev pub Settles : Node → ConfirmationClaim → Type 0
Settles node f =
    (s : TransactionState) × (node.transaction f.transaction.id ≡ some s)
    × (s.solidified ≡ true)
    × (s.status ≡ TransactionStatus.succeeded)

abbrev pub Fails : Node → ConfirmationClaim → Type 0
Fails node f =
    (s : TransactionState) × (node.transaction f.transaction.id ≡ some s)
    × (s.solidified ≡ true)
    × (s.status ≡ TransactionStatus.failed)

abbrev pub Expires : Node → ConfirmationClaim → Type 0
Expires node f =
    (s : TransactionState) × (head : Header) × (at : ℕ) × (node.transaction f.transaction.id
      ≡ some s)
    × (s.status ≡ TransactionStatus.not_found)
    × (node.solidified_head ≡ some head)
    × (head.timestamp ≡ some at)
    × (f.expires_at ≤ at)

module _ (env : Environment) (node : Node) (now : ℕ) (interval : ℤ) (f : ConfirmationClaim)
    (w : World) where
  -- A round that moved no money.
  abbrev pub IsIdle : Round → Type 0
  IsIdle r = r.1.database.journal ≡ w.database.journal

  -- How a round that confirms a payout ends.
  abbrev pub Decision : Round → Type 0
  Decision r =
      IsIdle r
      ⊎ Settles node f × (r ≡ queued (complete_confirmation_success env now f w.database) w)
      ⊎ Fails node f
        × (r ≡ queued (complete_confirmation_failure env now f "execution_failed" w.database) w)
      ⊎ Expires node f
        × (r ≡ queued (complete_confirmation_failure env now f "expired_not_found" w.database) w)

  release-IsIdle_at :
      (code : String) (v : World)
      → v.database.journal ≡ w.database.journal
      → IsIdle (queued (release_confirmation now f interval code v.database) v)
  release-IsIdle_at code v e =
      rw (queued-database (release_confirmation now f interval code v.database) v).0
        (release_confirmation-journal now f interval code v.database ∙ e)

  release-IsIdle :
      (code : String) → IsIdle (queued (release_confirmation now f interval code w.database) w)
  release-IsIdle code = release-IsIdle_at code w refl

  joined-IsIdle : (x : WorkerError) (r : Round) → IsIdle r → IsIdle (joined x r)
  joined-IsIdle x (none, v) h = h
  joined-IsIdle x (some y, v) h = h

  unless_done-IsIdle : (b : BroadcastResult) (r : Round) → IsIdle r → IsIdle (unless_done b r)
  unless_done-IsIdle BroadcastResult.accepted r h = h
  unless_done-IsIdle BroadcastResult.invalid (none, v) h = h
  unless_done-IsIdle BroadcastResult.invalid (some x, v) h = h
  unless_done-IsIdle BroadcastResult.lost (none, v) h = h
  unless_done-IsIdle BroadcastResult.lost (some x, v) h = h

  rebroadcast-IsIdle : IsIdle (rebroadcast env node now interval f w)
  unfolding rebroadcast
  rebroadcast-IsIdle =
      unless_done-IsIdle (node.broadcast f.transaction) _
        (release-IsIdle_at _ (send f.transaction w) refl)

  confirm_missing_decides :
      (s : TransactionState)
      → node.transaction f.transaction.id ≡ some s
      → s.status ≡ TransactionStatus.not_found
      → Decision (confirm_missing env node now interval f w)
  unfolding confirm_missing
  confirm_missing_decides s e missing = elim (Option-cases node.solidified_head) [
    | inl no_head ↦
        rw (no_head, confirm_missing) (inl (joined-IsIdle _ _ (release-IsIdle "node_error")))
    | inr (head, got) ↦ elim (Option-cases head.timestamp) [
      | inl zero_time ↦ rw (got, zero_time, confirm_missing) (inl rebroadcast-IsIdle)
      | inr (at, timed) ↦ elim (Bool-cases (leb f.expires_at at)) [
        | inl past ↦
            inr (inr (inr ((s, head, at, e, missing, got, timed, ground arith), ground arith)))
        | inr early ↦ rw (got, timed, early, confirm_missing) (inl rebroadcast-IsIdle)
      ]
    ]
  ]

  confirm_state_decides :
      (s : TransactionState) (status : TransactionStatus) (solidified : Bool)
      → node.transaction f.transaction.id ≡ some s
      → s.status ≡ status
      → s.solidified ≡ solidified
      → Decision (confirm_state env node now interval f status solidified w)
  unfolding confirm_state
  confirm_state_decides s TransactionStatus.succeeded true e se so =
      inr (inl ((s, e, so, se), refl))
  confirm_state_decides s TransactionStatus.succeeded false e se so = inl (release-IsIdle "")
  confirm_state_decides s TransactionStatus.failed true e se so =
      inr (inr (inl ((s, e, so, se), refl)))
  confirm_state_decides s TransactionStatus.failed false e se so = inl (release-IsIdle "")
  confirm_state_decides s TransactionStatus.not_found true e se so = confirm_missing_decides s e se
  confirm_state_decides s TransactionStatus.not_found false e se so = confirm_missing_decides s e se
  confirm_state_decides s TransactionStatus.pending true e se so = inl (release-IsIdle "")
  confirm_state_decides s TransactionStatus.pending false e se so = inl (release-IsIdle "")

  -- A round that confirms a payout leaves the ledger alone, unless it settles the payout after the
  -- node has shown its transaction solidified and succeeded, fails it after the node has shown it
  -- solidified and failed, or fails it after the node did not know the transaction and the
  -- timestamp of the solidified head had reached the transaction's expiry.
  pub confirm_decides : Decision (confirm env node now interval f w)
  unfolding confirm
  confirm_decides = elim (Option-cases (node.transaction f.transaction.id)) [
    | inl e ↦ rw (e, confirm) (inl (joined-IsIdle _ _ (release-IsIdle "node_error")))
    | inr (s, e) ↦
        let same : confirm env node now interval f w
            ≡ confirm_state env node now interval f s.status s.solidified w =
          ground arith in
        rw same (confirm_state_decides s s.status s.solidified e refl refl)
  ]
