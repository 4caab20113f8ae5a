-- ===== src/Timing/Calendar.antt =====
-- services/timing/calendar.py: session bounds, session kinds and the next open of US equities.
use ai_native_hedge_fund_ch.Prelude.{
  ℕ, zero, suc, ◌+◌, ◌*◌, ◌%◌, Bool, true, false, Option, none, some, List, [], ◌∷◌, ◌&&◌, ◌||◌,
  not, ltb, leb, ◌==◌, find, if◌then◌else◌,
}

-- A date is its proleptic ordinal (`date.toordinal()`), a time of day its seconds since midnight,
-- and a UTC instant its seconds since the epoch.
pub record LocalTime : Type 0 where
  pub date : ℕ
  pub time : ℕ

pub data MarketCalendarEventKind : Type 0 where
  holiday early_close late_open session_override : MarketCalendarEventKind

pub data MarketSessionKind : Type 0 where
  pre_market regular after_hours closed : MarketSessionKind

-- `US_EQUITIES` is the only market, so the test on it always holds.
pub record MarketCalendarEvent : Type 0 where
  pub event_kind : MarketCalendarEventKind
  pub session_date : ℕ
  pub open_at : Option ℕ
  pub close_at : Option ℕ
  pub session_kind : Option MarketSessionKind

pub record SessionBounds : Type 0 where
  pub open_at : LocalTime
  pub close_at : LocalTime

pub record MarketSession : Type 0 where
  pub session_date : ℕ
  pub session_kind : MarketSessionKind
  pub open_at : Option ℕ
  pub close_at : Option ℕ

-- `ZoneInfo("America/New_York")`: the wall clock of an instant, and the instant of a wall clock.
pub record Zone : Type 0 where
  pub to_local : ℕ → LocalTime
  pub to_utc : LocalTime → ℕ

-- `date.weekday()`: Monday is 0, and it is the weekday of the ordinal 1.
unfoldable pub weekday : ℕ → ℕ
weekday date = (date + 6) % 7

unfoldable pub is_weekend : ℕ → Bool
unfolding weekday
is_weekend date = leb 5 (weekday date)

-- `left <= right` and `left < right` on two wall clocks of one zone.
unfoldable pub local_leb : LocalTime → LocalTime → Bool
local_leb a b = ltb a.date b.date || (a.date == b.date && leb a.time b.time)

unfoldable pub local_ltb : LocalTime → LocalTime → Bool
local_ltb a b = ltb a.date b.date || (a.date == b.date && ltb a.time b.time)

abbrev pub hour : ℕ → ℕ
hour n = n * 3600

-- `_PRE_MARKET_OPEN`, `_REGULAR_OPEN`, `_REGULAR_CLOSE` and `_AFTER_HOURS_CLOSE`
abbrev pub pre_market_open : ℕ
pre_market_open = hour 4

abbrev pub regular_open : ℕ
regular_open = hour 9 + 1800

abbrev pub regular_close : ℕ
regular_close = hour 16

abbrev pub after_hours_close : ℕ
after_hours_close = hour 20

-- `_override_for_date`
unfoldable pub override_for_date : List MarketCalendarEvent → ℕ → Option MarketCalendarEvent
override_for_date overrides date = find (λ event. event.session_date == date) overrides

abbrev pub is_holiday : Option MarketCalendarEvent → Bool
is_holiday none = false
is_holiday (some event) = elim event.event_kind [
  | holiday ↦ true
  | early_close ↦ false
  | late_open ↦ false
  | session_override ↦ false
]

abbrev pub is_session_override : Option MarketCalendarEvent → Bool
is_session_override none = false
is_session_override (some event) = elim event.event_kind [
  | holiday ↦ false
  | early_close ↦ false
  | late_open ↦ false
  | session_override ↦ true
]

-- The latest date that an override names.
unfoldable pub last_date : List MarketCalendarEvent → ℕ
last_date [] = 0
last_date (event ∷ events) =
    let rest = last_date events in if ltb rest event.session_date then event.session_date else rest

abbrev kind_or_closed : Option MarketSessionKind → MarketSessionKind
kind_or_closed none = closed
kind_or_closed (some kind) = kind

abbrev event_open_at : Option MarketCalendarEvent → Option ℕ
event_open_at none = none
event_open_at (some event) = event.open_at

abbrev event_close_at : Option MarketCalendarEvent → Option ℕ
event_close_at none = none
event_close_at (some event) = event.close_at

abbrev event_session_kind : Option MarketCalendarEvent → Option MarketSessionKind
event_session_kind none = none
event_session_kind (some event) = event.session_kind

-- The kind of a wall clock on a day with regular bounds.
unfoldable pub kind_within : SessionBounds → LocalTime → MarketSessionKind
kind_within bounds now =
    if local_ltb now (record { date = now.date; time = pre_market_open })
    then closed
    else if local_ltb now bounds.open_at
    then pre_market
    else if local_leb now bounds.close_at
    then regular
    else if local_leb now (record { date = now.date; time = after_hours_close })
    then after_hours
    else closed

module _ (zone : Zone) where
  time_or : ℕ → Option ℕ → ℕ
  time_or default none = default
  time_or default (some instant) = (zone.to_local instant).time

  -- The open of a day: a LATE_OPEN with a time replaces the regular one.
  unfoldable pub open_time : Option MarketCalendarEvent → ℕ
  unfolding time_or
  open_time none = regular_open
  open_time (some event) = elim event.event_kind [
    | holiday ↦ regular_open
    | early_close ↦ regular_open
    | late_open ↦ time_or regular_open event.open_at
    | session_override ↦ regular_open
  ]

  -- The close of a day: an EARLY_CLOSE with a time replaces the regular one.
  unfoldable pub close_time : Option MarketCalendarEvent → ℕ
  unfolding time_or
  close_time none = regular_close
  close_time (some event) = elim event.event_kind [
    | holiday ↦ regular_close
    | early_close ↦ time_or regular_close event.close_at
    | late_open ↦ regular_close
    | session_override ↦ regular_close
  ]

  unfoldable pub regular_session_bounds : ℕ → Option MarketCalendarEvent → SessionBounds
  unfolding open_time close_time
  regular_session_bounds session_date override = record {
    open_at = record { date = session_date; time = open_time override };
    close_at = record { date = session_date; time = close_time override };
  }

  -- `classify_us_equities_session`, on the wall clock.
  unfoldable pub classify_local : List MarketCalendarEvent → LocalTime → MarketSession
  unfolding kind_within
  classify_local overrides now =
      let override = override_for_date overrides now.date in
      let bounds = regular_session_bounds now.date override in
      if is_weekend now.date
      then record {
        session_date = now.date;
        session_kind = closed;
        open_at = none;
        close_at = none;
      }
      else if is_holiday override
      then record {
        session_date = now.date;
        session_kind = closed;
        open_at = event_open_at override;
        close_at = event_close_at override;
      }
      else if is_session_override override
      then record {
        session_date = now.date;
        session_kind = kind_or_closed (event_session_kind override);
        open_at = event_open_at override;
        close_at = event_close_at override;
      }
      else record {
        session_date = now.date;
        session_kind = kind_within bounds now;
        open_at = some (zone.to_utc bounds.open_at);
        close_at = some (zone.to_utc bounds.close_at);
      }

  unfoldable pub classify_us_equities_session : ℕ → List MarketCalendarEvent → MarketSession
  classify_us_equities_session timestamp overrides =
      classify_local overrides (zone.to_local timestamp)

  -- The test that ends the loop of `next_us_equities_open` at one candidate date.
  unfoldable pub opens_on : List MarketCalendarEvent → LocalTime → ℕ → Bool
  opens_on overrides now candidate_date =
      let override = override_for_date overrides candidate_date in
      let bounds = regular_session_bounds candidate_date override in
      not (is_weekend candidate_date)
      && (not (is_holiday override)
          && (ltb now.date candidate_date || local_leb now bounds.open_at))

  -- The loop, on fuel.
  unfoldable pub search_open : ℕ → List MarketCalendarEvent → LocalTime → ℕ → Option LocalTime
  search_open zero overrides now candidate_date = none
  search_open (suc fuel) overrides now candidate_date =
      let later = search_open fuel overrides now (suc candidate_date) in
      if opens_on overrides now candidate_date
      then some
          (regular_session_bounds candidate_date
            (override_for_date overrides candidate_date)).open_at
      else later

  -- `next_us_equities_open`; past the last override a week has at most two closed days in a row.
  unfoldable pub next_us_equities_open : ℕ → List MarketCalendarEvent → Option ℕ
  next_us_equities_open timestamp overrides =
      let now = zone.to_local timestamp in
      elim (search_open (last_date overrides + 4) overrides now now.date) [
        | none ↦ none
        | some found ↦ some (zone.to_utc found)
      ]
