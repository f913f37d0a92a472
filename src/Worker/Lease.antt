-- ===== src/Worker/Lease.antt =====
-- How long a worker lets a probe run: `runTimeout` of pkg/worker/execute.go.
use urth.Prelude.{
  ℕ, ◌+◌, ◌-◌, max_duration, ◌≤◌, ◌<◌, ◌≡◌, ◌⊎◌, inl, inr, true, false, not, ◌&&◌, refl, ◌==◌,
  if◌then◌else◌, Time, Duration, pos, negsuc, pos_part, neg_part, sub_ℕ, ltb_ℤ, is_nonpositive,
  sub_time, seconds, minutes, arith, min, ltb, Bool-cases,
}

-- `uploadReserve`: how much of the lease is held back for the report.
abbrev pub upload_reserve : ℕ
upload_reserve = seconds 15

abbrev pub shorter : Duration → Duration → Duration
shorter timeout other = if not (is_nonpositive other) && ltb_ℤ other timeout then other else timeout

-- What is left until the deadline, less the reserve.
abbrev pub remaining_of : Time → Time → Duration
remaining_of deadline now =
    let left = sub_time deadline now in sub_ℕ (pos_part left) (neg_part left + upload_reserve)

-- The configured timeout, that of the prob, the deadline of the lease, and the time.
unfoldable pub run_timeout : Duration → Duration → Time → Time → Duration
run_timeout configured prob_timeout deadline now =
    let timeout = shorter configured prob_timeout in
    let timeout' = if deadline == 0 then timeout else shorter timeout (remaining_of deadline now) in
    if is_nonpositive timeout' then pos (minutes 1) else timeout'

-- Of a positive timeout and another duration, the shorter one if that is positive.
shorter_bounds :
    (c : ℕ) (d : Duration)
    → 0 < c
    → (t : ℕ) × (shorter (pos c) d ≡ pos t)
      × (0 < t)
      × (t ≤ c)
      × ((is_nonpositive d ≡ true) × (t ≡ c) ⊎ (is_nonpositive d ≡ false) × (t ≤ pos_part d))
shorter_bounds c (negsuc n) h = (c, refl, h, omega arith, inl (refl, refl))
shorter_bounds c (pos n) h = elim (Bool-cases (n == 0)) [
  | inl none_ ↦ (c, ground arith, h, omega arith, inl (none_, refl))
  | inr some_ ↦ elim (Bool-cases (ltb n c)) [
    | inl less ↦ (n, ground arith, ground arith, ground arith, inr (some_, omega arith))
    | inr more ↦ (c, ground arith, h, omega arith, inr (some_, ground arith))
  ]
]

remaining_of-cases :
    (deadline now : Time)
    → ((now + upload_reserve < deadline)
        × ((m : ℕ) × (remaining_of deadline now ≡ pos m)
            × (0 < m)
            × (now + m + upload_reserve ≤ deadline)))
      ⊎ ((deadline ≤ now + upload_reserve) × (is_nonpositive (remaining_of deadline now) ≡ true))
remaining_of-cases deadline now = elim (Bool-cases (ltb (now + upload_reserve) deadline)) [
  | inl room ↦ inl (
    ground arith,
    (min (deadline - now) max_duration - upload_reserve, ground arith, ground arith, ground arith),
  )
  | inr late ↦ inr (ground arith, ground arith)
]

timed :
    (configured : ℕ) (prob_timeout : Duration) (deadline now : Time)
    → 0 < configured
    → (t : ℕ) × (run_timeout (pos configured) prob_timeout deadline now ≡ pos t)
      × (0 < t)
      × (t ≤ configured)
      × (((now + upload_reserve < deadline) × (now + t + upload_reserve ≤ deadline))
          ⊎ ((deadline ≤ now + upload_reserve)
              × (run_timeout (pos configured) prob_timeout 0 now ≡ pos t)))
unfolding run_timeout
timed configured prob_timeout deadline now h =
    let (c, is_c, c_pos, c_le, _) = shorter_bounds configured prob_timeout h in
    elim (remaining_of-cases deadline now) [
      | inl (room, (m, is_m, m_pos, m_le)) ↦
          let (t, is_t, t_pos, t_le, or_) = shorter_bounds c (remaining_of deadline now) c_pos in
          (t, ground arith, t_pos, omega arith, inl (room, ground arith))
      | inr (late, gone) ↦ (c, ground arith, c_pos, c_le, inr (late, ground arith))
    ]

-- Nothing positive is shorter than a duration that is not.
shorter_nonpositive : (d e : Duration) → is_nonpositive d ≡ true → shorter d e ≡ d
shorter_nonpositive (pos n) (pos m) h = ground arith
shorter_nonpositive (pos n) (negsuc m) h = refl
shorter_nonpositive (negsuc n) (pos m) h = ground arith
shorter_nonpositive (negsuc n) (negsuc m) h = refl

untimed :
    (configured prob_timeout : Duration) (deadline now : Time)
    → is_nonpositive configured ≡ true
    → run_timeout configured prob_timeout deadline now ≡ pos (minutes 1)
unfolding run_timeout
untimed configured prob_timeout deadline now h = ground (
  arith,
  shorter_nonpositive configured prob_timeout h,
  shorter_nonpositive configured (remaining_of deadline now) h,
)

-- Where the configured timeout is positive, a probe gets a positive time, at most what is
-- configured. If then more than the reserve of the lease is left, it ends the reserve before the
-- deadline at the latest; otherwise the deadline has no say, and it gets the same time as without
-- one. Where the configured timeout is not positive, it gets a minute, whatever the deadline.
pub run_timeout_bounds :
    (configured prob_timeout : Duration) (deadline now : Time)
    → ((is_nonpositive configured ≡ true)
        × (run_timeout configured prob_timeout deadline now ≡ pos (minutes 1)))
      ⊎ ((c : ℕ) × (t : ℕ) × (configured ≡ pos c)
          × (run_timeout configured prob_timeout deadline now ≡ pos t)
          × (0 < t)
          × (t ≤ c)
          × (((now + upload_reserve < deadline) × (now + t + upload_reserve ≤ deadline))
              ⊎ ((deadline ≤ now + upload_reserve)
                  × (run_timeout configured prob_timeout 0 now ≡ pos t))))
run_timeout_bounds (negsuc n) prob_timeout deadline now =
    inl (refl, untimed (negsuc n) prob_timeout deadline now refl)
run_timeout_bounds (pos n) prob_timeout deadline now = elim (Bool-cases (n == 0)) [
  | inl zero_ ↦ inl (zero_, untimed (pos n) prob_timeout deadline now zero_)
  | inr some_ ↦
      let (t, is_t, t_pos, t_le, lease) = timed n prob_timeout deadline now (ground arith) in
      inr (n, t, refl, is_t, t_pos, t_le, lease)
]
