-- ===== src/Worker/InFlight.antt =====
-- The runs that this process owns (worker/inflight.go), and the slots of the consume loop
-- (`consume`, `pump` in worker/consume.go).
use urth.Prelude.{
  ◌≡◌, ◌≢◌, ℕ, suc, ◌-◌, ◌<◌, String, Bool, true, false, not, List, [], ◌∷◌, ◌++◌, ◌=ₛ◌,
  if◌then◌else◌, where_, ◌||◌,
}

-- `inFlightRuns.runs`, a Go set, as the list of its elements.
abbrev pub is_held : String → List String → Bool
is_held uid [] = false
is_held uid (u ∷ runs) = u =ₛ uid || is_held uid runs

unfoldable pub acquire : String → List String → List String × Bool
acquire uid runs = if is_held uid runs then (runs, false) else (uid ∷ runs, true)

unfoldable pub release : String → List String → List String
release uid runs = where_ (λ u. not (u =ₛ uid)) runs

-- A running `handle`: it has not looked for its run yet, it has the ownership of its run, or it
-- goes without: its message cannot be read, is not for this runner, or is for a run that another
-- one owns.
pub data Handler : Type 0 where
  unread : Handler
  owning : String → Handler
  unowning : Handler

pub record ConsumeState : Type 0 where
  -- Tokens in the channel `slots`.
  pub slots_used : ℕ
  -- Whether the consume loop holds a slot for the message that it may fetch.
  pub is_reserved : Bool
  pub handlers : List Handler
  pub runs : List String

abbrev pub idle : ConsumeState
idle = record { slots_used = 0; is_reserved = false; handlers = []; runs = [] }

-- `slots <- struct{}{}`, which waits until fewer than `concurrency` are taken.
abbrev pub reserve : ConsumeState → ConsumeState
reserve s = record s { slots_used = suc s.slots_used; is_reserved = true }

-- A fetch that brought no message.
abbrev pub give_back : ConsumeState → ConsumeState
give_back s = record s { slots_used = s.slots_used - 1; is_reserved = false }

-- The consume loop hands the message that it fetched to a new `handle`, which keeps the slot.
abbrev pub spawn : ConsumeState → ConsumeState
spawn s = record s { is_reserved = false; handlers = unread ∷ s.handlers }

-- `handle` finds its message malformed or misrouted, and reports it without an ownership.
abbrev pub turn_away : List Handler → List Handler → ConsumeState → ConsumeState
turn_away before after s = record s { handlers = before ++ (unowning ∷ after) }

-- `handle` reaches for the ownership of the run `uid` of its message.
unfoldable pub reach : String → List Handler → List Handler → ConsumeState → ConsumeState
unfolding acquire
reach uid before after s =
    let taken = acquire uid s.runs in
    record s {
      handlers = before ++ ((if taken.1 then owning uid else unowning) ∷ after);
      runs = taken.0;
    }

abbrev pub released : Handler → List String → List String
released unread runs = runs
released (owning uid) runs = release uid runs
released unowning runs = runs

-- `handle` returns: an owner releases its run, and the slot is freed.
unfoldable pub finish : List Handler → Handler → List Handler → ConsumeState → ConsumeState
unfolding release
finish before h after s = record s {
  slots_used = s.slots_used - 1;
  handlers = before ++ after;
  runs = released h s.runs;
}

-- The steps of the worker, in whatever order its goroutines take them.
pub data Step (concurrency : ℕ) : ConsumeState → ConsumeState → Type 0 where
  reserves :
      (s : ConsumeState)
      → s.is_reserved ≡ false
      → s.slots_used < concurrency
      → Step concurrency s (reserve s)
  gives_back : (s : ConsumeState) → s.is_reserved ≡ true → Step concurrency s (give_back s)
  spawns : (s : ConsumeState) → s.is_reserved ≡ true → Step concurrency s (spawn s)
  turns_away :
      (before after : List Handler) (s : ConsumeState)
      → s.handlers ≡ before ++ (unread ∷ after)
      → Step concurrency s (turn_away before after s)
  reaches :
      (uid : String) (before after : List Handler) (s : ConsumeState)
      → s.handlers ≡ before ++ (unread ∷ after)
      → Step concurrency s (reach uid before after s)
  finishes :
      (before : List Handler) (h : Handler) (after : List Handler) (s : ConsumeState)
      → s.handlers ≡ before ++ (h ∷ after)
      → h ≢ unread
      → Step concurrency s (finish before h after s)

pub data Reachable (concurrency : ℕ) : ConsumeState → Type 0 where
  at_start : Reachable concurrency idle
  then_ :
      (s t : ConsumeState)
      → Reachable concurrency s
      → Step concurrency s t
      → Reachable concurrency t
