-- ===== src/Telemetry/Rows.antt =====
-- What a row keeps of its event.
use executor_hotpath_cpp.Base.{◌-◌, ◌%◌, ◌^◌, ◌≤◌, ◌≡◌, length, arith}
use executor_hotpath_cpp.Base.Cuts.{take-length-append}
use executor_hotpath_cpp.SpscRing.{replicate}
use executor_hotpath_cpp.Telemetry.{LatencyEvent, row_of, id_of, max_correlation_id_bytes}

-- The id that is stored with a row is the id of its event, whole, if that has at most 128 bytes: its
-- length fits the eight bits, and the zeros behind it in the array are not read.
pub id_of-row_of :
    {D : Type 0} (event : LatencyEvent D)
    → length event.correlation_id ≤ max_correlation_id_bytes
    → id_of (row_of event) ≡ event.correlation_id
unfolding row_of
id_of-row_of event h =
    let fits : length event.correlation_id % 2 ^ 8 ≡ length event.correlation_id = omega arith in
    rw fits (
      take-length-append event.correlation_id
        (replicate (max_correlation_id_bytes - length event.correlation_id) 0))
