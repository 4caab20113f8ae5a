-- ===== src/Timing/NextOpen.antt =====
-- The search for the next open ends, and it finds the first open at or after the timestamp.
use ai_native_hedge_fund_ch.Prelude.{
  ℕ, zero, suc, ◌+◌, ◌≤◌, ◌<◌, ◌≡◌, refl, true, false, none, some, List, [], ◌∷◌, ◌==◌, arith,
  Bool-cases, ◌⊎◌, inl, inr,
}
use ai_native_hedge_fund_ch.Timing.Calendar.{
  LocalTime, MarketCalendarEvent, Zone, weekday, is_weekend, local_leb, local_ltb,
  is_session_override, override_for_date, regular_session_bounds, opens_on, search_open, last_date,
  next_us_equities_open, classify_local, kind_within, pre_market_open, regular,
}

-- Beyond the last override no date has one.
no_override :
    (overrides : List MarketCalendarEvent) (date : ℕ)
    → last_date overrides < date
    → override_for_date overrides date ≡ none
unfolding last_date override_for_date
no_override [] date h = refl
no_override (event ∷ events) date h =
    let other : (event.session_date == date) ≡ false = ground arith in
    rw other (no_override events date (ground arith))

-- Of three days in a row one is a weekday.
weekday_among :
    (date : ℕ)
    → (is_weekend date ≡ false) ⊎ (is_weekend (date + 1) ≡ false) ⊎ (is_weekend (date + 2) ≡ false)
unfolding is_weekend weekday
weekday_among date = ground arith

module _ (zone : Zone) (overrides : List MarketCalendarEvent) (now : LocalTime) where
  -- A weekday beyond the last override and the day itself ends the search.
  opens_beyond :
      (date : ℕ)
      → last_date overrides < date
      → now.date < date
      → is_weekend date ≡ false
      → opens_on zone overrides now date ≡ true
  unfolding opens_on
  opens_beyond date beyond later workday =
      rw (no_override overrides date beyond) (rw workday (ground arith))

  search_ends :
      (fuel candidate goal : ℕ)
      → candidate ≤ goal
      → goal < candidate + fuel
      → opens_on zone overrides now goal ≡ true
      → (found : LocalTime) × (search_open zone fuel overrides now candidate ≡ some found)
  unfolding search_open
  search_ends zero candidate goal low high h = absurd (omega arith)
  search_ends (suc fuel) candidate goal low high h =
      elim (Bool-cases (opens_on zone overrides now candidate)) [
        | inl e ↦ rw e (_, refl)
        | inr e ↦ rw e (search_ends fuel (suc candidate) goal (beyond e) (omega arith) h)
      ]
    where
      beyond : opens_on zone overrides now candidate ≡ false → suc candidate ≤ goal
      beyond e = elim (Bool-cases (candidate == goal)) [
        | inl same ↦ let eq : candidate ≡ goal = ground arith in absurd (cc (h, e, eq))
        | inr other ↦ ground arith
      ]

  -- The first date of the search that opens: its open is what the search finds.
  pub record IsFirstOpen (start : ℕ) (found : LocalTime) : Type 0 where
    pub bound : start ≤ found.date
    pub is_open : opens_on zone overrides now found.date ≡ true
    pub time :
        found
        ≡ (regular_session_bounds zone found.date (override_for_date overrides found.date)).open_at
    pub first :
        (date : ℕ) → start ≤ date → date < found.date → opens_on zone overrides now date ≡ false

  search_first :
      (fuel candidate : ℕ) {found : LocalTime}
      → search_open zone fuel overrides now candidate ≡ some found
      → IsFirstOpen candidate found
  unfolding search_open regular_session_bounds
  search_first zero candidate h = absurd (cc (h))
  search_first (suc fuel) candidate {found} h =
      elim (Bool-cases (opens_on zone overrides now candidate)) [
        | inl e ↦
            let here : (regular_session_bounds zone candidate
                  (override_for_date overrides candidate)).open_at
                ≡ found =
              cc (rw e at h) in
            rw (← here) (at_once e)
        | inr e ↦ later e (search_first fuel (suc candidate) (rw e at h))
      ]
    where
      at_once :
          opens_on zone overrides now candidate ≡ true
          → IsFirstOpen candidate
              (regular_session_bounds zone candidate
                (override_for_date overrides candidate)).open_at
      at_once e = record {
        bound = omega arith;
        is_open = e;
        time = refl;
        first = λ date low high. absurd (omega arith);
      }

      later :
          opens_on zone overrides now candidate ≡ false
          → IsFirstOpen (suc candidate) found
          → IsFirstOpen candidate found
      later e r = record {
        bound = omega (arith, r.bound);
        is_open = r.is_open;
        time = r.time;
        first = λ date low high. elim (Bool-cases (date == candidate)) [
          | inl same ↦ let eq : date ≡ candidate = ground arith in rw eq e
          | inr other ↦ r.first date (ground arith) high
        ];
      }

  goal_exists :
      (goal : ℕ) × (now.date ≤ goal)
      × (goal < now.date + (last_date overrides + 4))
      × (opens_on zone overrides now goal ≡ true)
  goal_exists =
      let base = now.date + last_date overrides + 1 in
      elim (weekday_among base) [
        | inl e ↦ (base, omega arith, omega arith, opens_beyond base (omega arith) (omega arith) e)
        | inr (inl e) ↦ (
          base + 1,
          omega arith,
          omega arith,
          opens_beyond (base + 1) (omega arith) (omega arith) e,
        )
        | inr (inr e) ↦ (
          base + 2,
          omega arith,
          omega arith,
          opens_beyond (base + 2) (omega arith) (omega arith) e,
        )
      ]

-- The search for the next open always ends, whatever the timestamp and the overrides are. It
-- answers the open of the first date, from the date of the timestamp on, that is neither a weekend
-- nor a holiday and whose open is not before the timestamp.
pub next_open_first :
    (zone : Zone) (timestamp : ℕ) (overrides : List MarketCalendarEvent)
    → (found : LocalTime) × (next_us_equities_open zone timestamp overrides
        ≡ some (zone.to_utc found))
      × IsFirstOpen zone overrides (zone.to_local timestamp) (zone.to_local timestamp).date found
unfolding next_us_equities_open
next_open_first zone timestamp overrides =
    let now = zone.to_local timestamp in
    let (goal, low, high, e) = goal_exists zone overrides now in
    let (found, run) =
      search_ends zone overrides now (last_date overrides + 4) now.date goal low high e in
    (
      found,
      rw (next_us_equities_open, run) refl,
      search_first zone overrides now (last_date overrides + 4) now.date run,
    )

-- The open that the search finds is classified as REGULAR, if no override of its date sets the kind of the
-- session, and it lies between the pre-market open and the close of its date.
pub found_open_is_regular :
    (zone : Zone) (overrides : List MarketCalendarEvent) (now found : LocalTime)
    → IsFirstOpen zone overrides now now.date found
    → is_session_override (override_for_date overrides found.date) ≡ false
    → pre_market_open ≤ found.time
    → found.time
      ≤ (regular_session_bounds zone found.date
          (override_for_date overrides found.date)).close_at.time
    → (classify_local zone overrides found).session_kind ≡ regular
unfolding classify_local kind_within opens_on local_leb local_ltb regular_session_bounds
found_open_is_regular zone overrides now found r plain early late =
    ground (arith, r.is_open, r.time)
