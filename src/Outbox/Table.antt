-- ===== src/Outbox/Table.antt =====
-- The table `dispatch_outbox` and the operations of its store. A statement of the store applies to
-- the rows that its conditions select; a database that fails is not modelled.
use urth.Prelude.{sort_stable}
use urth.Prelude.{
  ℕ, suc, String, Bool, true, false, ◌&&◌, ◌||◌, Option, none, some, List, [], ◌∷◌, map, length,
  take, where_, leb, ltb, ◌==◌, if◌then◌else◌, Time, Duration, add_time,
}

abbrev pub dispatch_outbox_entry_version : ℕ
dispatch_outbox_entry_version = 1

pub record OutboxEntry : Type 0 where
  pub id : ℕ
  pub schema_version : ℕ
  pub event_uid : String
  pub result_uid : String
  pub result_version : ℕ
  pub scenario_name : String
  pub runner_uid : String
  pub created_at : Time
  pub updated_at : Time
  pub published_at : Option Time
  pub published_seq : ℕ
  pub retired_at : Option Time
  pub retired_reason : String
  pub not_before : Time
  pub attempts : ℕ
  pub last_error : String
  pub claimed_by : String
  pub claim_expires_at : Option Time

abbrev pub OutboxTable : Type 0
OutboxTable = List OutboxEntry

abbrev pub is_null {ℓ} : {A : Type ℓ} → Option A → Bool
is_null none = true
is_null (some _) = false

-- `column IS NULL OR column <= now`.
abbrev pub is_lapsed : Option Time → Time → Bool
is_lapsed none now = true
is_lapsed (some t) now = leb t now

-- The conditions of `Claim`.
unfoldable pub is_due : Time → OutboxEntry → Bool
is_due now e =
    is_null e.published_at
    && (is_null e.retired_at && (leb e.not_before now && is_lapsed e.claim_expires_at now))

abbrev pub is_id_of : ℕ → List OutboxEntry → Bool
is_id_of id [] = false
is_id_of id (e ∷ es) = e.id == id || is_id_of id es

-- `ORDER BY not_before ASC, id ASC`.
abbrev pub due_first : OutboxEntry → OutboxEntry → Bool
due_first a b = ltb a.not_before b.not_before || (a.not_before == b.not_before && ltb a.id b.id)

abbrev pub leased : String → Time → Time → OutboxEntry → OutboxEntry
leased relay_id expiry now e = record e {
  claimed_by = relay_id;
  claim_expires_at = some expiry;
  attempts = suc e.attempts;
  updated_at = now;
}

-- An update of the rows that a test selects.
abbrev pub update_where :
    (OutboxEntry → Bool) → (OutboxEntry → OutboxEntry) → OutboxTable → OutboxTable
update_where test change [] = []
update_where test change (e ∷ es) =
    let rest = update_where test change es in if test e then change e ∷ rest else e ∷ rest

-- The entries that a claim selects; a limit that is not positive is 0.
abbrev pub due_entries : ℕ → Time → OutboxTable → List OutboxEntry
due_entries limit now table = take limit (sort_stable due_first (where_ (is_due now) table))

-- `Claim`: one transaction.
unfoldable pub claim_entries :
    String → ℕ → Duration → Time → OutboxTable → OutboxTable × List OutboxEntry
claim_entries relay_id limit lease now table =
    let due = due_entries limit now table in
    let expiry = add_time now lease in
    (
      update_where (λ e. is_id_of e.id due) (leased relay_id expiry now) table,
      map (leased relay_id expiry now) due,
    )

abbrev pub has_id : ℕ → OutboxEntry → Bool
has_id id e = e.id == id

-- `MarkPublished`; false where the row is not there.
unfoldable pub mark_published : ℕ → Time → ℕ → OutboxTable → OutboxTable × Bool
mark_published id at sequence table = (
  update_where (has_id id)
      (λ e. record e {
        published_at = some at;
        published_seq = sequence;
        claimed_by = "";
        claim_expires_at = none;
        last_error = "";
        updated_at = at;
      })
      table,
  ltb 0 (length (where_ (has_id id) table)),
)

-- `MarkFailed`, with the text of the cause truncated already; false where the row is not there.
unfoldable pub mark_failed : ℕ → String → Time → Time → OutboxTable → OutboxTable × Bool
mark_failed id text not_before now table = (
  update_where (has_id id)
      (λ e. record e {
        last_error = text;
        not_before = not_before;
        claimed_by = "";
        claim_expires_at = none;
        updated_at = now;
      })
      table,
  ltb 0 (length (where_ (has_id id) table)),
)
