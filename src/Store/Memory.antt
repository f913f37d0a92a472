-- ===== src/Store/Memory.antt =====
-- A store in memory, on which the results about the interface can be run: three maps. Its
-- first parameter is whether the database is down.
use urth.Prelude.{
  ℕ, suc, String, Bool, true, false, ◌≡◌, ◌≢◌, refl, sym, Option, none, some, [], ◌∷◌, ◌++◌, ◌=ₛ◌,
  ◌==◌, if◌then◌else◌, eq_iff, eq_refl, arith, ap, ◌∙◌,
}
use urth.Types.{Labels, Result, Worker, Runner}
use urth.Labels.{get_label}
use urth.Store.{
  Database, Fetch, failed, missing, found, Write, failed_write, rejected, applied, Reads, or_else,
  stored,
}

pub record Tables : Type 0 where
  pub results : String → Option Result
  pub workers : String → Option Worker
  pub runners : String → Option Runner

unfoldable pub result_at : Tables → String → Option Result
result_at t uid = elim (t.results uid) [ none ↦ none | some r ↦ some (record r { uid = uid }) ]

unfoldable pub worker_at : Tables → String → Option Worker
worker_at t uid = elim (t.workers uid) [ none ↦ none | some w ↦ some (record w { uid = uid }) ]

unfoldable pub read {ℓ} : {A : Type ℓ} → Bool → Option A → Fetch A
read true row = failed
read false none = missing
read false (some a) = found a

unfoldable pub write : Tables → Result → ℕ → Option Result → Tables × Write
write t e v none = (t, rejected)
write t e v (some r) =
    if r.version == v
    then (
      record t { results = λ u. if u =ₛ e.uid then some (stored r e (suc v)) else t.results u },
      applied (suc v),
    )
    else (t, rejected)

unfoldable pub update : Bool → Tables → Result → ℕ → Tables × Write
update down t e v = if down then (t, failed_write) else write t e v (result_at t e.uid)

pub read-Reads {ℓ} : {A : Type ℓ} (down : Bool) (row : Option A) → Reads (read down row) row
unfolding read
read-Reads true row = tt
read-Reads false none = refl
read-Reads false (some a) = refl

pub get_label-append :
    (k : String) (a b : Labels) → get_label k (a ++ b) ≡ or_else (get_label k a) (get_label k b)
unfolding get_label
get_label-append k [] b = ground arith
get_label-append k ((k', v) ∷ a) b = ground (arith, eq_iff k k', get_label-append k a b)

write_applied :
    (t : Tables) (e : Result) (v v' : ℕ) (row : Option Result)
    → (write t e v row).1 ≡ applied v'
    → (r : Result) × (row ≡ some r)
      × (r.version ≡ v)
      × (v' ≡ suc v)
      × ((write t e v row).0.results e.uid ≡ some (stored r e (suc v)))
unfolding write
write_applied t e v v' none h = absurd (ground arith)
write_applied t e v v' (some r) h =
    (r, refl, ground arith, ground arith, ground (arith, eq_refl e.uid))

pub result_at_uid :
    (t : Tables) (uid : String) (r : Result) → result_at t uid ≡ some r → r.uid ≡ uid
unfolding result_at
result_at_uid t uid r h = ground arith

result_at_of :
    (t : Tables) (uid : String) (r : Result)
    → t.results uid ≡ some r
    → r.uid ≡ uid
    → result_at t uid ≡ some r
unfolding result_at
result_at_of t uid r h own = ground arith

update_up :
    (down : Bool) (t : Tables) (e : Result) (v v' : ℕ)
    → (update down t e v).1 ≡ applied v'
    → update down t e v ≡ write t e v (result_at t e.uid)
unfolding update
update_up down t e v v' h = ground arith

pub update_applied :
    (down : Bool) (t : Tables) (e : Result) (v v' : ℕ)
    → (update down t e v).1 ≡ applied v'
    → (r : Result) × (result_at t e.uid ≡ some r)
      × (r.version ≡ v)
      × (v' ≡ suc v)
      × (result_at (update down t e v).0 e.uid ≡ some (stored r e (suc v)))
unfolding stored
update_applied down t e v v' h =
    let up = update_up down t e v v' h in
    let (r, at, version, bump, left) =
      write_applied t e v v' (result_at t e.uid) (ap (λ w. w.1) (sym up) ∙ h) in
    (
      r,
      at,
      version,
      bump,
      ap (λ w. result_at w.0 e.uid) up
          ∙ result_at_of _ e.uid (stored r e (suc v)) left (result_at_uid t e.uid r at),
    )

pub worker_at_uid :
    (t : Tables) (uid : String) (w : Worker) → worker_at t uid ≡ some w → w.uid ≡ uid
unfolding worker_at
worker_at_uid t uid w h = ground arith

pub update_other :
    (down : Bool) (t : Tables) (e : Result) (v : ℕ) (uid : String)
    → uid ≢ e.uid
    → result_at (update down t e v).0 uid ≡ result_at t uid
unfolding update write result_at
update_other down t e v uid h = ground (arith, eq_iff uid e.uid)

pub update_rejected :
    (down : Bool) (t : Tables) (e : Result) (v : ℕ) (uid : String)
    → (update down t e v).1 ≡ rejected
    → result_at (update down t e v).0 uid ≡ result_at t uid
unfolding update write
update_rejected down t e v uid h = ground arith

pub update_rejected_version :
    (down : Bool) (t : Tables) (e r : Result) (v : ℕ)
    → (update down t e v).1 ≡ rejected
    → result_at t e.uid ≡ some r
    → r.version ≢ v
unfolding update write
update_rejected_version down t e r v h row = ground arith

pub update_failed :
    (down : Bool) (t : Tables) (e : Result) (v : ℕ) (uid : String)
    → (update down t e v).1 ≡ failed_write
    → result_at (update down t e v).0 uid ≡ result_at t uid
unfolding update write
update_failed down t e v uid h = ground arith

abbrev pub memory : Bool → Database
memory down = record {
  State = Tables;
  result_row = result_at;
  worker_row = worker_at;
  runner_row = λ t uid. t.runners uid;
  get_result = λ t uid. read down (result_at t uid);
  get_worker = λ t uid. read down (worker_at t uid);
  get_runner = λ t uid. read down (t.runners uid);
  update_result = update down;
  record_contact = λ t w at via leaving. t;
  merge_labels = λ a b. b ++ a;
  get_result_reads = λ t uid. read-Reads down (result_at t uid);
  get_worker_reads = λ t uid. read-Reads down (worker_at t uid);
  get_runner_reads = λ t uid. read-Reads down (t.runners uid);
  result_row_uid = result_at_uid;
  worker_row_uid = worker_at_uid;
  update_result_applied = update_applied down;
  update_result_other = update_other down;
  update_result_rejected = update_rejected down;
  update_result_rejected_version = update_rejected_version down;
  update_result_failed = update_failed down;
  record_contact_result = λ t w at via leaving uid. refl;
  get_label_merge = λ k a b. get_label-append k b a;
}
