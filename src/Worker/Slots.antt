-- ===== src/Worker/Slots.antt =====
-- What the slots and the set of owned runs keep, in every order of the worker's steps.
use urth.Prelude.{
  ℕ, ◌+◌, ◌≤◌, String, Bool, true, false, not, ◌≡◌, refl, ap, List, [], ◌∷◌, ◌++◌, ◌=ₛ◌,
  if◌then◌else◌, ◌&&◌, length, length-append, eq_iff, arith, Bool-cases, inl, inr,
}
use urth.Worker.InFlight.{
  is_held, acquire, release, Handler, unread, owning, unowning, ConsumeState, reach, released,
  finish, Step, reserves, gives_back, spawns, turns_away, reaches, finishes, Reachable, at_start,
  then_,
}

abbrev pub count_if : Bool → ℕ
count_if true = 1
count_if false = 0

-- Whether the handler owns the run.
abbrev pub owns : String → Handler → ℕ
owns uid unread = 0
owns uid (owning u) = count_if (u =ₛ uid)
owns uid unowning = 0

-- How many handlers own the run.
abbrev pub owners : String → List Handler → ℕ
owners uid [] = 0
owners uid (h ∷ hs) = owns uid h + owners uid hs

-- Every taken slot is that of a handler or the reserved one, no more than `concurrency` are taken,
-- and the set of runs holds a run exactly if one handler, and no second, owns it.
pub record IsBalanced (concurrency : ℕ) (s : ConsumeState) : Type 0 where
  pub slots : s.slots_used ≡ length s.handlers + count_if s.is_reserved
  pub bounded : s.slots_used ≤ concurrency
  pub owned : (uid : String) → owners uid s.handlers ≡ count_if (is_held uid s.runs)

owners-append :
    (uid : String) (hs ks : List Handler) → owners uid (hs ++ ks) ≡ owners uid hs + owners uid ks
owners-append uid [] ks = omega arith
owners-append uid (h ∷ hs) ks = omega (arith, owners-append uid hs ks)

pub is_held-release :
    (uid other : String) (runs : List String)
    → is_held uid (release other runs) ≡ (not (uid =ₛ other) && is_held uid runs)
unfolding release
is_held-release uid other [] = ground arith
is_held-release uid other (u ∷ runs) = ground (
  arith,
  is_held-release uid other runs,
  eq_iff uid other,
  eq_iff u other,
  eq_iff u uid,
  eq_iff uid u,
)

-- A run is acquired exactly if it was not held, and is held afterwards; others are as before.
pub acquire-is_held :
    (uid other : String) (runs : List String)
    → ((acquire uid runs).1 ≡ not (is_held uid runs))
      × (count_if (is_held other (acquire uid runs).0)
          ≡ count_if ((acquire uid runs).1 && (uid =ₛ other)) + count_if (is_held other runs))
unfolding acquire
acquire-is_held uid other runs = elim (Bool-cases (uid =ₛ other)) [
  | inl e ↦ ground (arith, eq_iff uid other)
  | inr e ↦ ground (arith, eq_iff uid other)
]

released-is_held :
    (h : Handler) (runs : List String) (uid : String)
    → owns uid h ≤ count_if (is_held uid runs)
    → count_if (is_held uid (released h runs)) + owns uid h ≡ count_if (is_held uid runs)
released-is_held unread runs uid held = omega arith
released-is_held unowning runs uid held = omega arith
released-is_held (owning u) runs uid held =
    ground (arith, is_held-release uid u runs, eq_iff uid u, eq_iff u uid)

owners-middle :
    (uid : String) (before : List Handler) (h : Handler) (after : List Handler)
    → owners uid (before ++ (h ∷ after)) ≡ owns uid h + owners uid (before ++ after)
owners-middle uid before h after =
    omega (arith, owners-append uid before (h ∷ after), owners-append uid before after)

length-middle :
    (before : List Handler) (h : Handler) (after : List Handler)
    → length (before ++ (h ∷ after)) ≡ 1 + length (before ++ after)
length-middle before h after =
    omega (arith, length-append before (h ∷ after), length-append before after)

reach-owns :
    (uid other : String) (runs : List String)
    → owns other (if (acquire uid runs).1 then owning uid else unowning)
      ≡ count_if ((acquire uid runs).1 && (uid =ₛ other))
reach-owns uid other runs = elim (Bool-cases (acquire uid runs).1) [
  | inl e ↦ rw e refl
  | inr e ↦ rw e refl
]

module _ (concurrency : ℕ) where
  Step-IsBalanced :
      (s t : ConsumeState)
      → IsBalanced concurrency s
      → Step concurrency s t
      → IsBalanced concurrency t
  unfolding reach finish
  Step-IsBalanced s t b (reserves _ free room) = record {
    slots = ground (arith, b.slots);
    bounded = omega (arith, room);
    owned = b.owned;
  }
  Step-IsBalanced s t b (gives_back _ held) = record {
    slots = ground (arith, b.slots);
    bounded = omega (arith, b.bounded);
    owned = b.owned;
  }
  Step-IsBalanced s t b (spawns _ held) = record {
    slots = ground (arith, b.slots);
    bounded = b.bounded;
    owned = λ u. ground (arith, b.owned u);
  }
  Step-IsBalanced s t b (turns_away before after _ split) =
      let as_many = ap length split in
      record {
        slots = omega (
          arith,
          b.slots,
          as_many,
          length-middle before unread after,
          length-middle before unowning after,
        );
        bounded = b.bounded;
        owned = λ u.
            let same = ap (owners u) split in
            omega (
              arith,
              b.owned u,
              same,
              owners-middle u before unread after,
              owners-middle u before unowning after,
            );
      }
  Step-IsBalanced s t b (reaches uid before after _ split) =
      let h = if (acquire uid s.runs).1 then owning uid else unowning in
      let as_many = ap length split in
      record {
        slots = omega (
          arith,
          b.slots,
          as_many,
          length-middle before unread after,
          length-middle before h after,
        );
        bounded = b.bounded;
        owned = λ u.
            let same = ap (owners u) split in
            let gained = (acquire-is_held uid u s.runs).1 in
            omega (
              arith,
              b.owned u,
              same,
              gained,
              reach-owns uid u s.runs,
              owners-middle u before unread after,
              owners-middle u before h after,
            );
      }
  Step-IsBalanced s t b (finishes before h after _ split done) =
      let as_many = ap length split in
      record {
        slots = omega (arith, b.slots, as_many, length-middle before h after);
        bounded = omega (arith, b.bounded);
        owned = λ u.
            let same = ap (owners u) split in
            let rest = owners-middle u before h after in
            let lost = released-is_held h s.runs u (omega (arith, b.owned u, same, rest)) in
            omega (arith, b.owned u, same, rest, lost);
      }

  pub Reachable-IsBalanced : (s : ConsumeState) → Reachable concurrency s → IsBalanced concurrency s
  Reachable-IsBalanced s at_start = record {
    slots = refl;
    bounded = omega arith;
    owned = λ uid. refl;
  }
  Reachable-IsBalanced s (then_ r _ reached step) =
      Step-IsBalanced r s (Reachable-IsBalanced r reached) step

-- In every order of the worker's steps, at most `concurrency` handlers run, and at most one of
-- them owns a run; a delivery for a run that one owns gets a handler that does not own it.
pub Reachable-exclusive :
    (concurrency : ℕ) (s : ConsumeState) (uid : String)
    → Reachable concurrency s
    → (length s.handlers ≤ concurrency)
      × (owners uid s.handlers ≤ 1)
      × (owners uid s.handlers ≡ 1 → (acquire uid s.runs).1 ≡ false)
      × (owners uid s.handlers ≡ 0 → (acquire uid s.runs).1 ≡ true)
Reachable-exclusive concurrency s uid reached =
    let b = Reachable-IsBalanced concurrency s reached in
    ground (arith, b.slots, b.bounded, b.owned uid, acquire-is_held uid uid s.runs)
