-- ===== src/Placement/Ranking.antt =====
-- The choice while some runner has room.
use urth.Prelude.{insert, sort_stable, sort_stable-All, where-All, All-Mem, Mem, List-cases}
use native.Mathlib.Nat.{mul-lt-mul_of_pos_right, mul-le-mul_right}
use urth.Prelude.{
  ℕ, ◌+◌, ◌*◌, ◌≤◌, ◌<◌, Bool, true, false, ◌≡◌, ◌≢◌, refl, sym, ◌∙◌, ◌⊎◌, inl, inr, List, [], ◌∷◌,
  ltb, eqb_ℤ, ℤ, pos, negsuc, pos_part, ◌<ℤ◌, where_, All, arith, if◌then◌else◌, Bool-cases, ltb→lt,
}
use mathlib.Core.Logic.Or
use mathlib.Core.List.{mem-cons, not-mem-nil}
use mathlib.Core.Path.{subst}
use urth.Types.{Runner}
use urth.Placement.{
  RunnerCapacity, CapacityMap, capacity_at, committed, spare, pressure, eqb_pressure, ltb_pressure,
  Pressure, infinite, ratio, less_loaded, has_room, select_runner, by_spare, PlacementRegime,
}

-- The one has no more room than the other, and where it has as much, no less work.
abbrev pub IsNoBetter : RunnerCapacity → RunnerCapacity → Type 0
IsNoBetter a b = (spare a <ℤ spare b) ⊎ ((spare a ≡ spare b) × (committed b ≤ committed a))

cross_lt : (x y s : ℕ) → 0 < s → x < y → x * (y + s) < y * (x + s)
cross_lt x y s room h = grind (arith, mul-lt-mul_of_pos_right {m = x} {n = y} {k = s} h room)

cross_le : (x y s : ℕ) → x ≤ y → x * (y + s) ≤ y * (x + s)
cross_le x y s h = grind (arith, mul-le-mul_right {m = x} {n = y} s h)

cross_ltb : (x y s : ℕ) → 0 < s → ltb (x * (y + s)) (y * (x + s)) ≡ ltb x y
cross_ltb x y s room = elim (Bool-cases (ltb x y)) [
  | inl e ↦ ground (arith, cross_lt x y s room (ltb→lt x y e))
  | inr e ↦ ground (arith, cross_le y x s (ground arith))
]

-- Among capacities with as much room, the pressures compare as the committed work does.
pressure-committed :
    (a b : RunnerCapacity)
    → spare a ≡ spare b
    → 0 < pos_part (spare a)
    → ltb_pressure (pressure a) (pressure b) ≡ ltb (committed a) (committed b)
pressure-committed a b same room =
    let s = pos_part (spare a) in
    let left : a.online_workers ≡ committed a + s = ground arith in
    let right : b.online_workers ≡ committed b + s = ground arith in
    let cross = cross_ltb (committed a) (committed b) s room in
    ground (arith, rw (← left, ← right) at cross)

eqb_ℤ-eq : (a b : ℤ) → eqb_ℤ a b ≡ true → a ≡ b
eqb_ℤ-eq (pos m) (pos n) h = ground arith
eqb_ℤ-eq (pos m) (negsuc n) h = absurd (ground arith)
eqb_ℤ-eq (negsuc m) (pos n) h = absurd (ground arith)
eqb_ℤ-eq (negsuc m) (negsuc n) h = ground arith

eqb_pressure-ltb :
    (p q : Pressure)
    → eqb_pressure p q ≡ true
    → (ltb_pressure p q ≡ false) × (ltb_pressure q p ≡ false)
eqb_pressure-ltb infinite infinite h = (refl, refl)
eqb_pressure-ltb infinite (ratio c d) h = absurd (ground arith)
eqb_pressure-ltb (ratio a b) infinite h = absurd (ground arith)
eqb_pressure-ltb (ratio a b) (ratio c d) h = ground arith

IsNoBetter-by_pressure :
    (a b : RunnerCapacity)
    → spare a ≡ spare b
    → 0 < pos_part (spare a)
    → (ltb_pressure (pressure a) (pressure b) ≡ false → IsNoBetter a b)
      × (ltb_pressure (pressure a) (pressure b) ≡ true → IsNoBetter b a)
IsNoBetter-by_pressure a b same room =
    let by_work = pressure-committed a b same room in
    (
      λ h. inr (same, ground (arith, sym by_work ∙ h)),
      λ h. inr (sym same, ground (arith, sym by_work ∙ h)),
    )

less_loaded-IsNoBetter :
    (capacity : CapacityMap) (a b : Runner)
    → 0 < pos_part (spare (capacity_at capacity a.uid))
    → (less_loaded capacity a b ≡ true
        → IsNoBetter (capacity_at capacity b.uid) (capacity_at capacity a.uid))
      × (less_loaded capacity a b ≡ false
          → IsNoBetter (capacity_at capacity a.uid) (capacity_at capacity b.uid))
unfolding less_loaded
less_loaded-IsNoBetter capacity a b room =
    let l = capacity_at capacity a.uid in
    let r = capacity_at capacity b.uid in
    elim (Bool-cases (eqb_ℤ (spare l) (spare r))) [
      | inr differ ↦ (λ h. inl (ground arith), λ h. inl (ground arith))
      | inl equal ↦
          let same = eqb_ℤ-eq (spare l) (spare r) equal in
          let by_pressure = IsNoBetter-by_pressure l r same room in
          elim (Bool-cases (eqb_pressure (pressure l) (pressure r))) [
            | inr apart ↦ (λ h. by_pressure.1 (ground arith), λ h. by_pressure.0 (ground arith))
            | inl tied ↦
                let even = eqb_pressure-ltb (pressure l) (pressure r) tied in
                (
                  λ h. (IsNoBetter-by_pressure r l (sym same) (ground arith)).0 even.1,
                  λ h. by_pressure.0 even.0,
                )
          ]
    ]

IsNoBetter-trans : (a b c : RunnerCapacity) → IsNoBetter a b → IsNoBetter b c → IsNoBetter a c
IsNoBetter-trans a b c h k = ground arith

module _ (capacity : CapacityMap) where
  abbrev of_runner : Runner → RunnerCapacity
  of_runner r = capacity_at capacity r.uid

  abbrev HasRoom : Runner → Type 0
  HasRoom r = 0 < pos_part (spare (of_runner r))

  abbrev head_or : Runner → List Runner → Runner
  head_or d [] = d
  head_or d (r ∷ rs) = r

  -- The runner is no worse than any of the others.
  abbrev AllNoBetter : List Runner → Runner → Type 0
  AllNoBetter xs best = All (λ x. IsNoBetter (of_runner x) (of_runner best)) xs

  weaken :
      (a b : Runner) (xs : List Runner)
      → IsNoBetter (of_runner a) (of_runner b)
      → AllNoBetter xs a
      → AllNoBetter xs b
  weaken a b [] h k = tt
  weaken a b (x ∷ xs) h (p, k) =
      (IsNoBetter-trans (of_runner x) (of_runner a) (of_runner b) p h, weaken a b xs h k)

  front_first :
      (c : Bool) (x best d : Runner) (xs front back : List Runner)
      → HasRoom best
      → less_loaded capacity best x ≡ c
      → AllNoBetter xs best
      → AllNoBetter (x ∷ xs) (head_or d (if c then best ∷ front else x ∷ back))
  front_first true x best d xs front back room h k =
      ((less_loaded-IsNoBetter capacity best x room).0 h, k)
  front_first false x best d xs front back room h k = (
    inr (refl, omega arith),
    weaken best x xs ((less_loaded-IsNoBetter capacity best x room).1 h) k,
  )

  insert_first :
      (x d : Runner) (xs sorted : List Runner)
      → All HasRoom sorted
      → AllNoBetter xs (head_or x sorted)
      → AllNoBetter (x ∷ xs) (head_or d (insert (less_loaded capacity) x sorted))
  insert_first x d xs [] rooms h = (inr (refl, omega arith), h)
  insert_first x d xs (best ∷ rest) (room, rooms) h =
      front_first (less_loaded capacity best x) x best d xs _ _ room refl h

  sort_stable-first :
      (xs : List Runner) (d : Runner)
      → All HasRoom xs
      → AllNoBetter xs (head_or d (sort_stable (less_loaded capacity) xs))
  sort_stable-first [] d h = tt
  sort_stable-first (x ∷ xs) d (room, h) =
      insert_first x d xs (sort_stable (less_loaded capacity) xs)
        (sort_stable-All HasRoom (less_loaded capacity) xs h) (sort_stable-first xs x h)

  where-HasRoom : (xs : List Runner) → All HasRoom (where_ (has_room capacity) xs)
  where-HasRoom [] = tt
  where-HasRoom (x ∷ xs) = elim (Bool-cases (has_room capacity x)) [
    | inl e ↦ rw e (ground arith, where-HasRoom xs)
    | inr e ↦ rw e (where-HasRoom xs)
  ]

  without_room :
      (best : Runner) (xs : List Runner)
      → HasRoom best
      → AllNoBetter (where_ (has_room capacity) xs) best
      → AllNoBetter xs best
  without_room best [] room h = tt
  without_room best (x ∷ xs) room h = elim (Bool-cases (has_room capacity x)) [
    | inl e ↦ let k = rw e at h in (k.0, without_room best xs room k.1)
    | inr e ↦ (inl (ground arith), without_room best xs room (rw e at h))
  ]

  insert-nonempty : (x : Runner) (xs : List Runner) → insert (less_loaded capacity) x xs ≢ []
  insert-nonempty x [] = ground arith
  insert-nonempty x (y ∷ ys) = ground arith

  nothing-sorted : (xs : List Runner) → sort_stable (less_loaded capacity) xs ≡ [] → xs ≡ []
  nothing-sorted [] h = refl
  nothing-sorted (x ∷ xs) h = absurd (insert-nonempty x _ h)

  none_fits :
      (xs : List Runner)
      → where_ (has_room capacity) xs ≡ []
      → All (λ x. has_room capacity x ≡ false) xs
  none_fits [] h = tt
  none_fits (x ∷ xs) h = elim (Bool-cases (has_room capacity x)) [
    | inl e ↦ absurd (ground (arith, e))
    | inr e ↦ (e, none_fits xs (rw e at h))
  ]

  one_fits :
      (x : Runner) (xs : List Runner)
      → All (λ y. has_room capacity y ≡ false) xs
      → Mem x xs
      → ¬ HasRoom x
  one_fits x [] h m room = absurd (not-mem-nil m)
  one_fits x (y ∷ ys) (e, h) m room =
      Or.elim (λ a b. absurd a) (mem-cons.0 m)
        (λ same.
          let full = subst (λ r. has_room capacity r ≡ false) (sym same) e in
          absurd (ground (arith, full)))
        (λ later. one_fits x ys h later room)

  -- The placement is on an eligible runner with room, with its capacity, for its room, and no
  -- eligible runner has more room than it, or as much with less committed work.
  abbrev pub IsBestPlacement : List Runner → Runner × RunnerCapacity × PlacementRegime → Type 0
  IsBestPlacement eligible (chosen, c, regime) =
      Mem chosen eligible
      × HasRoom chosen
      × (c ≡ of_runner chosen)
      × (regime ≡ by_spare)
      × AllNoBetter eligible chosen

  -- If some eligible runner has room, the run goes to an eligible runner with room that has the
  -- most room of all, and the least committed work among those with as much.
  pub select_runner-best :
      (source : ℕ → ℕ) (first roomy : Runner) (others : List Runner)
      → Mem roomy (first ∷ others)
      → HasRoom roomy
      → IsBestPlacement (first ∷ others) (select_runner source first others capacity)
  unfolding select_runner
  select_runner-best source first roomy others member has =
      let eligible = first ∷ others in
      let fitting = where_ (has_room capacity) eligible in
      let rooms = where-HasRoom eligible in
      let best_first = sort_stable-first fitting first rooms in
      let sorted_rooms = sort_stable-All HasRoom (less_loaded capacity) fitting rooms in
      let sorted_members =
        sort_stable-All (λ r. Mem r eligible) (less_loaded capacity) fitting
          (where-All (λ r. Mem r eligible) (has_room capacity) eligible (All-Mem eligible)) in
      elim (List-cases (sort_stable (less_loaded capacity) fitting)) [
        | inl e ↦
            absurd
              (one_fits roomy eligible (none_fits eligible (nothing-sorted fitting e)) member has)
        | inr (best, rest, e) ↦
            let room = (subst (All HasRoom) e sorted_rooms).0 in
            let order =
              without_room best eligible room
                (subst (λ l. AllNoBetter fitting (head_or first l)) e best_first) in
            let chosen : select_runner source first others capacity
                ≡ (best, of_runner best, by_spare) =
              rw (e, select_runner) refl in
            subst (IsBestPlacement eligible) (sym chosen)
              ((subst (All (λ r. Mem r eligible)) e sorted_members).0, room, refl, refl, order)
      ]
