-- ===== src/Outbox/Publication.antt =====
-- What is published is not published again, and what fails is retried later.
use urth.Prelude.{map-All, weaken-All}
use urth.Prelude.{
  ℕ, String, Bool, true, false, ◌≡◌, refl, inl, inr, [], ◌∷◌, All, arith, Bool-cases, Time,
  Duration, add_time,
}
use urth.Outbox.{
  OutboxEntry, OutboxTable, is_due, leased, update_where, claim_entries, mark_published,
  mark_failed, has_id, is_null,
}
use urth.Outbox.Leases.{update_where-All, due_entries-All}

-- The operations of the store, in any order, by any relays.
pub data StoreStep : OutboxTable → OutboxTable → Type 0 where
  claims :
      (relay_id : String) (limit : ℕ) (lease : Duration) (now : Time) (table : OutboxTable)
      → StoreStep table (claim_entries relay_id limit lease now table).0
  publishes :
      (id : ℕ) (at : Time) (sequence : ℕ) (table : OutboxTable)
      → StoreStep table (mark_published id at sequence table).0
  fails :
      (id : ℕ) (text : String) (not_before now : Time) (table : OutboxTable)
      → StoreStep table (mark_failed id text not_before now table).0

pub data StoreSteps (from_ : OutboxTable) : OutboxTable → Type 0 where
  no_write : StoreSteps from_ from_
  and_then : (t u : OutboxTable) → StoreSteps from_ t → StoreStep t u → StoreSteps from_ u

-- Every row with the number is published.
abbrev pub AllPublished : ℕ → OutboxTable → Type 0
AllPublished id table = All (λ e. has_id id e ≡ true → is_null e.published_at ≡ false) table

update_where-keeps {κ} :
    (P : OutboxEntry → Type κ) (test : OutboxEntry → Bool) (change : OutboxEntry → OutboxEntry)
    (table : OutboxTable)
    → ((e : OutboxEntry) → P e → P (change e))
    → All P table
    → All P (update_where test change table)
update_where-keeps P test change [] f h = tt
update_where-keeps P test change (e ∷ es) f (p, h) = elim (Bool-cases (test e)) [
  | inl hit ↦ rw hit (f e p, update_where-keeps P test change es f h)
  | inr other ↦ rw other (p, update_where-keeps P test change es f h)
]

StoreStep-AllPublished :
    (id : ℕ) (t u : OutboxTable) → StoreStep t u → AllPublished id t → AllPublished id u
unfolding claim_entries mark_published mark_failed
StoreStep-AllPublished id t u (claims r limit lease now _) h =
    update_where-keeps (λ e. has_id id e ≡ true → is_null e.published_at ≡ false) _ _ t (λ e p. p) h
StoreStep-AllPublished id t u (publishes i at sequence _) h =
    update_where-keeps (λ e. has_id id e ≡ true → is_null e.published_at ≡ false) _ _ t
      (λ e p same. refl) h
StoreStep-AllPublished id t u (fails i text later now _) h =
    update_where-keeps (λ e. has_id id e ≡ true → is_null e.published_at ≡ false) _ _ t (λ e p. p) h

StoreSteps-AllPublished :
    (id : ℕ) (t u : OutboxTable) → StoreSteps t u → AllPublished id t → AllPublished id u
StoreSteps-AllPublished id t u no_write h = h
StoreSteps-AllPublished id t u (and_then v _ steps step) h =
    StoreStep-AllPublished id v u step (StoreSteps-AllPublished id t v steps h)

mark_published-AllPublished :
    (id : ℕ) (at : Time) (sequence : ℕ) (table : OutboxTable)
    → AllPublished id (mark_published id at sequence table).0
unfolding mark_published
mark_published-AllPublished id at sequence table =
    update_where-All (λ e. has_id id e ≡ true → is_null e.published_at ≡ false) (has_id id) _ table
      (λ e hit same. refl) (λ e other same. absurd (ground arith))

-- An entry that was marked as published is never claimed again, whatever operations on the store
-- come in between.
pub mark_published-final :
    (id : ℕ) (at : Time) (sequence : ℕ) (table later : OutboxTable) (relay_id : String) (limit : ℕ)
    (lease : Duration) (now : Time)
    → StoreSteps (mark_published id at sequence table).0 later
    → All (λ e. has_id id e ≡ false) (claim_entries relay_id limit lease now later).1
unfolding claim_entries is_due
mark_published-final id at sequence table later relay_id limit lease now steps =
    let published =
      StoreSteps-AllPublished id _ later steps (mark_published-AllPublished id at sequence table) in
    map-All (λ e. has_id id e ≡ false) (leased relay_id (add_time now lease) now) _
      (weaken-All
        (λ e. (has_id id e ≡ true → is_null e.published_at ≡ false) × (is_due now e ≡ true))
        (λ e. has_id id e ≡ false) _ (λ e h. ground (arith, h.0, h.1))
        (due_entries-All (λ e. has_id id e ≡ true → is_null e.published_at ≡ false) limit now later
          published))
