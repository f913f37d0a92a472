-- ===== src/Store/Creation.antt =====
-- The inserts of runs, `tx.Create(&result)`: the database assigns the UID, the version and the time
-- of creation, and takes the rest of the entry as it is.
use urth.Prelude.{String, ◌≡◌, ◌≢◌, Option, none, some}
use urth.Types.{Result}
use urth.Store.{Database}

abbrev pub assigned : Result → Result → Result
assigned entry r = record entry { uid = r.uid; version = r.version; created_at = r.created_at }

pub record Creation (db : Database) : Type 0 where
  pub create_result : db.State → Result → Option (db.State × Result)
  pub create_result_new :
      (s : db.State) (e : Result) (made : db.State × Result)
      → create_result s e ≡ some made
      → db.result_row s made.1.uid ≡ none
  pub create_result_row :
      (s : db.State) (e : Result) (made : db.State × Result)
      → create_result s e ≡ some made
      → db.result_row made.0 made.1.uid ≡ some made.1
  pub create_result_other :
      (s : db.State) (e : Result) (made : db.State × Result) (uid : String)
      → create_result s e ≡ some made
      → uid ≢ made.1.uid
      → db.result_row made.0 uid ≡ db.result_row s uid
  pub create_result_keeps :
      (s : db.State) (e : Result) (made : db.State × Result)
      → create_result s e ≡ some made
      → made.1 ≡ assigned e made.1
