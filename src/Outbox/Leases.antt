-- ===== src/Outbox/Leases.antt =====
-- Who may publish an entry, and that what is published stays so.
use urth.Prelude.{sort_stable, sort_stable-All, take-All, where-both, weaken-All}
use urth.Prelude.{
  ℕ, ◌+◌, ◌<◌, String, Bool, true, false, ◌||◌, ◌≡◌, ◌≢◌, ◌⊎◌, refl, sym, ap, ◌∙◌, inl, inr, some,
  List, [], ◌∷◌, map, All, ◌==◌, arith, Bool-cases, Time, Duration, pos, where_,
}
use urth.Outbox.{
  OutboxEntry, OutboxTable, is_due, is_id_of, due_first, due_entries, leased, update_where,
  claim_entries, has_id, is_null, mark_published, mark_failed,
}

-- What every row has that a test keeps out, and every changed row gets, every row has afterwards.
pub update_where-All {κ} :
    (P : OutboxEntry → Type κ) (test : OutboxEntry → Bool) (change : OutboxEntry → OutboxEntry)
    (table : OutboxTable)
    → ((e : OutboxEntry) → test e ≡ true → P (change e))
    → ((e : OutboxEntry) → test e ≡ false → P e)
    → All P (update_where test change table)
update_where-All P test change [] h k = tt
update_where-All P test change (e ∷ es) h k = elim (Bool-cases (test e)) [
  | inl hit ↦ rw hit (h e hit, update_where-All P test change es h k)
  | inr other ↦ rw other (k e other, update_where-All P test change es h k)
]

-- What every row has, every changed row can get, and every row that is not changed can keep.
pub update_where-changes {κ κ'} :
    (P : OutboxEntry → Type κ) (Q : OutboxEntry → Type κ') (test : OutboxEntry → Bool)
    (change : OutboxEntry → OutboxEntry) (table : OutboxTable)
    → ((e : OutboxEntry) → test e ≡ true → P e → Q (change e))
    → ((e : OutboxEntry) → test e ≡ false → P e → Q e)
    → All P table
    → All Q (update_where test change table)
update_where-changes P Q test change [] f g h = tt
update_where-changes P Q test change (e ∷ es) f g (p, h) = elim (Bool-cases (test e)) [
  | inl hit ↦ rw hit (f e hit p, update_where-changes P Q test change es f g h)
  | inr other ↦ rw other (g e other p, update_where-changes P Q test change es f g h)
]

pub due_entries-All {κ} :
    (P : OutboxEntry → Type κ) (limit : ℕ) (now : Time) (table : OutboxTable)
    → All P table
    → All (λ e. P e × (is_due now e ≡ true)) (due_entries limit now table)
due_entries-All P limit now table h =
    take-All (λ e. P e × (is_due now e ≡ true)) limit
      (sort_stable due_first (where_ (is_due now) table))
      (sort_stable-All (λ e. P e × (is_due now e ≡ true)) due_first (where_ (is_due now) table)
        (where-both P (is_due now) table h))

-- The operations of the store by any relays, in any order, that leave the lease of an entry alone:
-- claims before its end, publications, and failures of other entries.
pub data LeaseStep (id : ℕ) (expiry : Time) : OutboxTable → OutboxTable → Type 0 where
  claims :
      (relay_id : String) (limit : ℕ) (lease : Duration) (now : Time) (table : OutboxTable)
      → now < expiry
      → LeaseStep id expiry table (claim_entries relay_id limit lease now table).0
  publishes :
      (other : ℕ) (at : Time) (sequence : ℕ) (table : OutboxTable)
      → LeaseStep id expiry table (mark_published other at sequence table).0
  fails :
      (other : ℕ) (text : String) (not_before now : Time) (table : OutboxTable)
      → other ≢ id
      → LeaseStep id expiry table (mark_failed other text not_before now table).0

pub data LeaseSteps (id : ℕ) (expiry : Time) (from_ : OutboxTable) : OutboxTable → Type 0 where
  no_write : LeaseSteps id expiry from_ from_
  and_then :
      (t u : OutboxTable)
      → LeaseSteps id expiry from_ t
      → LeaseStep id expiry t u
      → LeaseSteps id expiry from_ u

-- Every row with the number is leased until the time, or published.
abbrev IsHeld : ℕ → Time → OutboxEntry → Type 0
IsHeld id expiry e =
    has_id id e ≡ true → (e.claim_expires_at ≡ some expiry) ⊎ (is_null e.published_at ≡ false)

not_due :
    (id : ℕ) (expiry now : Time) (e : OutboxEntry)
    → now < expiry
    → IsHeld id expiry e
    → is_due now e ≡ true
    → has_id id e ≡ false
unfolding is_due
not_due id expiry now e early held is_next = elim (Bool-cases (has_id id e)) [
  | inr other ↦ other
  | inl same ↦ elim (held same) [
    | inl leased_ ↦ absurd (ground (arith, leased_, is_next))
    | inr gone ↦ absurd (ground (arith, gone, is_next))
  ]
]

-- No claim before the end of the lease takes a held entry.
due_entries-others :
    (id limit : ℕ) (expiry now : Time) (table : OutboxTable)
    → now < expiry
    → All (IsHeld id expiry) table
    → All (λ e. has_id id e ≡ false) (due_entries limit now table)
due_entries-others id limit expiry now table early h =
    weaken-All (λ e. IsHeld id expiry e × (is_due now e ≡ true)) _ _
      (λ e k. not_due id expiry now e early k.0 k.1)
      (due_entries-All (IsHeld id expiry) limit now table h)

is_id_of-others :
    (id : ℕ) (es : List OutboxEntry) → All (λ e. has_id id e ≡ false) es → is_id_of id es ≡ false
is_id_of-others id [] h = refl
is_id_of-others id (e ∷ es) (k, h) = ground (arith, k, is_id_of-others id es h)

no_row :
    (id : ℕ) (e : OutboxEntry) (due : List OutboxEntry) (b c : Bool)
    → is_id_of e.id due ≡ b
    → is_id_of id due ≡ c
    → has_id id e ≡ true
    → b ≡ c
no_row id e due b c h k same =
    let one : e.id ≡ id = ground arith in sym h ∙ (ap (λ i. is_id_of i due) one ∙ k)

LeaseStep-IsHeld :
    (id : ℕ) (expiry : Time) (t u : OutboxTable)
    → LeaseStep id expiry t u
    → All (IsHeld id expiry) t
    → All (IsHeld id expiry) u
unfolding claim_entries mark_published mark_failed
LeaseStep-IsHeld id expiry t u (claims relay_id limit lease now _ early) h =
    let others = is_id_of-others id _ (due_entries-others id limit expiry now t early h) in
    update_where-changes (IsHeld id expiry) (IsHeld id expiry) _ _ t
      (λ e hit k same. absurd (ground (arith, no_row id e _ true false hit others same)))
      (λ e miss k. k) h
LeaseStep-IsHeld id expiry t u (publishes other at sequence _) h =
    update_where-changes (IsHeld id expiry) (IsHeld id expiry) _ _ t (λ e hit k same. inr refl)
      (λ e miss k. k) h
LeaseStep-IsHeld id expiry t u (fails other text not_before now _ differ) h =
    update_where-changes (IsHeld id expiry) (IsHeld id expiry) _ _ t
      (λ e hit k same. absurd (ground (arith, differ))) (λ e miss k. k) h

LeaseSteps-IsHeld :
    (id : ℕ) (expiry : Time) (t u : OutboxTable)
    → LeaseSteps id expiry t u
    → All (IsHeld id expiry) t
    → All (IsHeld id expiry) u
LeaseSteps-IsHeld id expiry t u no_write h = h
LeaseSteps-IsHeld id expiry t u (and_then v _ steps step) h =
    LeaseStep-IsHeld id expiry v u step (LeaseSteps-IsHeld id expiry t v steps h)

is_id_of-leased :
    (relay_id : String) (expiry now : Time) (id : ℕ) (es : List OutboxEntry)
    → is_id_of id (map (leased relay_id expiry now) es) ≡ is_id_of id es
is_id_of-leased relay_id expiry now id [] = refl
is_id_of-leased relay_id expiry now id (e ∷ es) =
    ap (λ b. e.id == id || b) (is_id_of-leased relay_id expiry now id es)

claim_entries-IsHeld :
    (relay_id : String) (limit lease : ℕ) (now : Time) (table : OutboxTable) (id : ℕ)
    → is_id_of id (claim_entries relay_id limit (pos lease) now table).1 ≡ true
    → All (IsHeld id (now + lease)) (claim_entries relay_id limit (pos lease) now table).0
unfolding claim_entries
claim_entries-IsHeld relay_id limit lease now table id taken =
    let due = due_entries limit now table in
    let mine = sym (is_id_of-leased relay_id _ now id due) ∙ taken in
    update_where-All (IsHeld id (now + lease)) (λ e. is_id_of e.id due) _ table
      (λ e hit same. inl (ground arith))
      (λ e miss same. absurd (ground (arith, no_row id e due false true miss mine same)))

-- An entry that one relay claims is given to no relay before its lease runs out, through whatever
-- claims, publications and failures of other entries come in between, as long as it is not itself
-- marked as failed, which ends its lease.
pub claim_entries-exclusive :
    (relay1 relay2 : String) (limit1 limit2 lease1 : ℕ) (lease2 : Duration) (now1 now2 : Time)
    (table later : OutboxTable) (id : ℕ)
    → is_id_of id (claim_entries relay1 limit1 (pos lease1) now1 table).1 ≡ true
    → LeaseSteps id (now1 + lease1) (claim_entries relay1 limit1 (pos lease1) now1 table).0 later
    → now2 < now1 + lease1
    → is_id_of id (claim_entries relay2 limit2 lease2 now2 later).1 ≡ false
unfolding claim_entries
claim_entries-exclusive relay1 relay2 limit1 limit2 lease1 lease2 now1 now2 table later id taken
      steps early =
    let held =
      LeaseSteps-IsHeld id (now1 + lease1) _ later steps
        (claim_entries-IsHeld relay1 limit1 lease1 now1 table id taken) in
    is_id_of-leased relay2 _ now2 id (due_entries limit2 now2 later)
    ∙ is_id_of-others id _ (due_entries-others id limit2 (now1 + lease1) now2 later early held)
