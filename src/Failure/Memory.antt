-- ===== src/Failure/Memory.antt =====
-- A table of failures in memory with room for one row, and inserts of runs into the store in
-- memory, on which the results about the interfaces can be run.
use urth.Prelude.{
  ℕ, suc, String, Bool, false, ◌≡◌, ◌≢◌, refl, inl, inr, Option, none, some, ◌=ₛ◌, ◌==◌,
  if◌then◌else◌, Option-cases, eq_iff, eq_refl, arith,
}
use mathlib.Core.Option.{some-injective}
use mathlib.Core.Path.{subst}
use urth.Types.{Result}
use urth.Store.{Write, rejected, applied}
use urth.Store.Memory.{Tables, memory, result_at, read, read-Reads}
use urth.Store.Creation.{Creation, assigned}
use urth.Failure.{DispatchFailure, FailureTable, stored_failure}

unfoldable pub row_where :
    (DispatchFailure → Bool) → Option DispatchFailure → Option DispatchFailure
row_where test none = none
row_where test (some e) = if test e then some e else none

abbrev pub registered : DispatchFailure → DispatchFailure
registered e = record e { uid = "f-1"; version = 1 }

unfoldable pub insert_row :
    Option DispatchFailure → DispatchFailure → Option (Option DispatchFailure × DispatchFailure)
insert_row none e = some (some (registered e), registered e)
insert_row (some f) e = none

unfoldable pub update_row :
    Option DispatchFailure → DispatchFailure → ℕ → Option DispatchFailure × Write
update_row none e v = (none, rejected)
update_row (some r) e v =
    if r.uid =ₛ e.uid
    then (if r.version == v
        then (some (stored_failure r e (suc v)), applied (suc v))
        else (some r, rejected))
    else (some r, rejected)

pub insert_row-named :
    (t : Option DispatchFailure) (e : DispatchFailure)
    (made : Option DispatchFailure × DispatchFailure)
    → insert_row t e ≡ some made
    → (row_where (λ f. f.name =ₛ e.name) t ≡ none)
      × (row_where (λ f. f.name =ₛ e.name) made.0 ≡ some made.1)
      × (made.1 ≡ record e { uid = made.1.uid; version = made.1.version })
unfolding insert_row row_where
insert_row-named none e made h =
    let same = some-injective _ _ h in
    (
      refl,
      subst (λ m. row_where (λ f. f.name =ₛ e.name) m.0 ≡ some m.1) same
          (ground (arith, eq_refl e.name)),
      subst (λ m. m.1 ≡ record e { uid = m.1.uid; version = m.1.version }) same refl,
    )
insert_row-named (some f) e made h = absurd (ground arith)

pub update_row-applied :
    (t : Option DispatchFailure) (e : DispatchFailure) (v v' : ℕ)
    → (update_row t e v).1 ≡ applied v'
    → (r : DispatchFailure) × (row_where (λ f. f.uid =ₛ e.uid) t ≡ some r)
      × (r.version ≡ v)
      × (v' ≡ suc v)
      × (row_where (λ f. f.uid =ₛ e.uid) (update_row t e v).0 ≡ some (stored_failure r e (suc v)))
unfolding update_row row_where
update_row-applied none e v v' h = absurd (ground arith)
update_row-applied (some r) e v v' h = (r, ground arith, ground arith, ground arith, ground arith)

abbrev pub one_row : FailureTable
one_row = record {
  Table = Option DispatchFailure;
  named = λ t name. row_where (λ f. f.name =ₛ name) t;
  failure_row = λ t uid. row_where (λ f. f.uid =ₛ uid) t;
  get_by_name = λ t name. read false (row_where (λ f. f.name =ₛ name) t);
  create = insert_row;
  update = update_row;
  get_by_name_reads = λ t name. read-Reads false (row_where (λ f. f.name =ₛ name) t);
  create_named = insert_row-named;
  update_applied = update_row-applied;
}

-- The run as it is inserted under a UID.
abbrev pub inserted : String → Result → Result
inserted uid e = record e { uid = uid; version = 1; created_at = some 1 }

unfoldable pub insert_result : String → Tables → Result → Option (Tables × Result)
insert_result uid t e = elim (result_at t uid) [
  | some _ ↦ none
  | none ↦ some (
    record t { results = λ u. if u =ₛ uid then some (inserted uid e) else t.results u },
    inserted uid e,
  )
]

module _ (uid : String) (t : Tables) (e : Result) (made : Tables × Result) where
  insert_result-made :
      insert_result uid t e ≡ some made
      → (result_at t uid ≡ none)
        × ((
          record t { results = λ u. if u =ₛ uid then some (inserted uid e) else t.results u },
          inserted uid e,
        )
            ≡ made)
  unfolding insert_result
  insert_result-made h = elim (Option-cases (result_at t uid)) [
    | inr (r, row) ↦ absurd (ground arith)
    | inl row ↦ (row, some-injective _ _ (rw (row, insert_result) at h))
  ]

  pub insert_result-new : insert_result uid t e ≡ some made → result_at t made.1.uid ≡ none
  insert_result-new h =
      let (row, same) = insert_result-made h in subst (λ m. result_at t m.1.uid ≡ none) same row

  pub insert_result-row :
      insert_result uid t e ≡ some made → result_at made.0 made.1.uid ≡ some made.1
  unfolding result_at
  insert_result-row h =
      subst (λ m. result_at m.0 m.1.uid ≡ some m.1) (insert_result-made h).1
        (ground (arith, eq_refl uid))

  pub insert_result-other :
      (u : String)
      → insert_result uid t e ≡ some made
      → u ≢ made.1.uid
      → result_at made.0 u ≡ result_at t u
  unfolding result_at
  insert_result-other u h =
      subst (λ m. u ≢ m.1.uid → result_at m.0 u ≡ result_at t u) (insert_result-made h).1
        (λ other. ground (arith, eq_iff u uid, other))

  pub insert_result-keeps : insert_result uid t e ≡ some made → made.1 ≡ assigned e made.1
  insert_result-keeps h = subst (λ m. m.1 ≡ assigned e m.1) (insert_result-made h).1 refl

abbrev pub inserts : String → Creation (memory false)
inserts uid = record {
  create_result = insert_result uid;
  create_result_new = insert_result-new uid;
  create_result_row = insert_result-row uid;
  create_result_other = λ t e made u h. insert_result-other uid t e made u h;
  create_result_keeps = insert_result-keeps uid;
}
