-- ===== src/Executor.antt =====
-- The executor of src/executor.cpp behind the socket: `handle_fire`, from the price guard to the
-- callback. The clock and the file are what the kill switch sees.
pub mod Fire
pub mod Socket
pub mod Serve
pub mod Lifecycle
use executor_hotpath_cpp.Base.{
  ℕ, ◌+◌, ◌&&◌, ◌||◌, Bool, true, false, not, List, [], ◌∷◌, Option, none, some, Bytes,
  if◌then◌else◌,
}
use executor_hotpath_cpp.Base.Int.{ℤ, pos}
use executor_hotpath_cpp.Double.{Double}
use executor_hotpath_cpp.KillSwitch.{KillSwitch, is_engaged}
use executor_hotpath_cpp.Orders.{OrderTemplate, OrderTemplates, acquire}
use executor_hotpath_cpp.Pricing.{snap_to_grid}
use executor_hotpath_cpp.Wire.{WakeMessage, WakeAck}

pub record FireRequest (D : Type 0) : Type 0 where
  pub order : OrderTemplate
  pub price_dollars : D
  pub exchange_index : ℤ
  pub correlation_id : Bytes
  pub correlation_group : Bytes
  pub dry_run : Bool

-- Decode and ack, as the telemetry sees them.
pub record WakeRecvEvent (D : Type 0) : Type 0 where
  pub correlation_id : Bytes
  pub started_at_ms : ℤ
  pub ended_at_ms : ℤ
  pub duration_ms : D
  pub dry_run : Bool

pub data FireOutcome : Type 0 where
  dispatched refused_untradeable_price refused_kill_switch : FireOutcome

-- The counters are 64-bit and are only counted up by one for a frame.
pub record ExecutorStats : Type 0 where
  pub frames_read : ℕ
  pub acks_accepted : ℕ
  pub acks_rejected : ℕ
  pub fires_dispatched : ℕ
  pub fires_refused_price : ℕ
  pub fires_refused_kill_switch : ℕ

-- `kill_switch` is `none` where the pointer of the configuration is null; `fired` and `recorded` are
-- what the two callbacks were called with, the last call first, if they are set.
pub record ExecutorServer (D : Type 0) : Type 0 where
  pub kill_switch : Option KillSwitch
  pub has_dispatch : Bool
  pub templates : OrderTemplates
  pub stats : ExecutorStats
  pub fired : List (FireRequest D)
  pub has_recorder : Bool
  pub recorded : List (WakeRecvEvent D)

-- What the kill switch sees where it is asked: `monotonic_ns()`, and whether its file exists.
pub record Look : Type 0 where
  pub now_ns : ℕ
  pub on_disk : Bool

-- `config_.kill_switch != nullptr && config_.kill_switch->is_engaged()`
unfoldable pub ask_switch : Look → Option KillSwitch → Option KillSwitch × Bool
ask_switch look none = (none, false)
ask_switch look (some k) = let (k', b) = is_engaged look.now_ns look.on_disk k in (some k', b)

module _ {D : Type 0} where
  abbrev pub count_refused_price : ExecutorServer D → ExecutorServer D
  count_refused_price s = record s {
    stats = record s.stats { fires_refused_price = s.stats.fires_refused_price + 1 };
  }

  abbrev pub count_refused_switch : ExecutorServer D → ExecutorServer D
  count_refused_switch s = record s {
    stats = record s.stats { fires_refused_kill_switch = s.stats.fires_refused_kill_switch + 1 };
  }

  -- The end of `handle_fire`, where the order goes out at `price`.
  unfoldable pub dispatch : D → WakeMessage D → ExecutorServer D → ExecutorServer D × FireOutcome
  dispatch price m s =
      let (templates, order) = acquire m.market_ticker m.direction s.templates in
      (
        record s {
          templates = templates;
          stats = record s.stats { fires_dispatched = s.stats.fires_dispatched + 1 };
          fired =
              if s.has_dispatch
              then record {
                order = order;
                price_dollars = price;
                exchange_index = m.exchange_index;
                correlation_id = m.correlation_id;
                correlation_group = m.correlation_group;
                dry_run = m.dry_run;
              }
                ∷ s.fired
              else s.fired;
        },
        dispatched,
      )

module _ {D : Type 0} ⦃d : Double D⦄ where
  -- Not strictly between 0 and 1.
  abbrev pub untradeable : D → Bool
  untradeable price = d.le price d.zero_double || d.le d.one_double price

  -- The kill switch is asked only for a real fire.
  unfoldable pub guard_switch :
      Look → D → WakeMessage D → ExecutorServer D → ExecutorServer D × FireOutcome
  unfolding ask_switch dispatch
  guard_switch look price m s =
      if m.dry_run
      then dispatch price m s
      else (let (k, engaged) = ask_switch look s.kill_switch in
          let s' = record s { kill_switch = k } in
          if engaged then (count_refused_switch s', refused_kill_switch) else dispatch price m s')

  unfoldable pub handle_fire :
      Look → WakeMessage D → ExecutorServer D → ExecutorServer D × FireOutcome
  unfolding guard_switch
  handle_fire look m s =
      if not m.dry_run && untradeable m.wire_price_yes_dollars
      then (count_refused_price s, refused_untradeable_price)
      else guard_switch look (snap_to_grid m.wire_price_yes_dollars m.price_ranges) m s
