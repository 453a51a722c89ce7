-- ===== src/Executor/Fire.antt =====
-- Which fires go out, and what goes out.
use executor_hotpath_cpp.Base.{
  ℕ, ◌+◌, ◌&&◌, ◌||◌, not, Bool, true, false, ◌≡◌, ◌∷◌, arith, if◌then◌else◌,
}
use executor_hotpath_cpp.Double.{Double}
use executor_hotpath_cpp.Executor.{
  FireRequest, FireOutcome, dispatched, refused_untradeable_price, refused_kill_switch,
  ExecutorStats, ExecutorServer, Look, ask_switch, untradeable, handle_fire,
}
use executor_hotpath_cpp.Orders.Cache.{IsCache, acquire-IsCache, acquire_template}
use executor_hotpath_cpp.Pricing.{snap_to_grid}
use executor_hotpath_cpp.Wire.{WakeMessage}

-- What a fire comes to: whether it is a dry run, cannot be traded at its price, and is halted.
pub verdict : Bool → Bool → Bool → FireOutcome
verdict true untradeable halted = dispatched
verdict false true halted = refused_untradeable_price
verdict false false true = refused_kill_switch
verdict false false false = dispatched

-- The counters behind a fire.
abbrev pub count_outcome : FireOutcome → ExecutorStats → ExecutorStats
count_outcome dispatched s = record s { fires_dispatched = s.fires_dispatched + 1 }
count_outcome refused_untradeable_price s = record s {
  fires_refused_price = s.fires_refused_price + 1;
}
count_outcome refused_kill_switch s = record s {
  fires_refused_kill_switch = s.fires_refused_kill_switch + 1;
}

abbrev pub is_dispatched : FireOutcome → Bool
is_dispatched dispatched = true
is_dispatched _ = false

-- The counters add up to the fires that were handled.
abbrev pub fires : ExecutorStats → ℕ
fires s = s.fires_dispatched + s.fires_refused_price + s.fires_refused_kill_switch

module _ {D : Type 0} ⦃d : Double D⦄ (look : Look) (m : WakeMessage D) (s : ExecutorServer D) where
  -- The request that stands for the message: its own ticker and side, at the snapped wire price.
  abbrev pub request : FireRequest D
  request = record {
    order = record { ticker = m.market_ticker; outcome_side = m.direction };
    price_dollars = snap_to_grid m.wire_price_yes_dollars m.price_ranges;
    exchange_index = m.exchange_index;
    correlation_id = m.correlation_id;
    correlation_group = m.correlation_group;
    dry_run = m.dry_run;
  }

  -- A real fire at a price that can be traded, which is one that asks the kill switch.
  abbrev pub asks : Bool
  asks = not (m.dry_run || untradeable m.wire_price_yes_dollars)

  -- The outcome of a fire, and what it leaves of the server beside the templates and the calls of
  -- the callback. A dry run is always dispatched. A real fire is refused for its price, and only then
  -- for the kill switch: that is asked, and its cache refreshed, exactly if the fire is real and its
  -- price can be traded. The counter of the outcome goes up by one, the other counters stay, and
  -- nothing is recorded.
  pub handle_fire-verdict :
      ((handle_fire look m s).1
        ≡ verdict m.dry_run
            (untradeable m.wire_price_yes_dollars)
            (ask_switch look s.kill_switch).1)
      × ((handle_fire look m s).0.kill_switch
          ≡ (if asks then (ask_switch look s.kill_switch).0 else s.kill_switch))
      × ((handle_fire look m s).0.stats ≡ count_outcome (handle_fire look m s).1 s.stats)
      × ((handle_fire look m s).0.recorded ≡ s.recorded)
  unfolding handle_fire verdict
  handle_fire-verdict = (ground arith, ground arith, ground arith, ground arith)

  -- The callback gets the request of the message exactly if the outcome is that it was dispatched
  -- and there is a callback, and nothing else ever; the order templates stay what they should be.
  pub fired-handle_fire :
      IsCache s.templates
      → ((handle_fire look m s).0.fired ≡ (
          if is_dispatched (handle_fire look m s).1 && s.has_dispatch
          then request ∷ s.fired
          else s.fired))
        × IsCache (handle_fire look m s).0.templates
  unfolding handle_fire
  fired-handle_fire c = (
    ground (arith, acquire_template m.market_ticker m.direction s.templates c),
    ground (arith, acquire-IsCache m.market_ticker m.direction s.templates c),
  )

  -- One fire counts once, and in none of the counters of frames and acks.
  pub fires-handle_fire :
      (fires (handle_fire look m s).0.stats ≡ fires s.stats + 1)
      × ((handle_fire look m s).0.stats.frames_read ≡ s.stats.frames_read)
      × ((handle_fire look m s).0.stats.acks_accepted ≡ s.stats.acks_accepted)
      × ((handle_fire look m s).0.stats.acks_rejected ≡ s.stats.acks_rejected)
  unfolding handle_fire
  fires-handle_fire = (ground arith, ground arith, ground arith, ground arith)
