-- ===== src/Tests/Clients.antt =====
-- Tokens, replies and the rate limiter of the wire protocol.
use true_tick.Base.{ℕ, ◌≡◌, ok, arith, [], ◌∷◌}
use true_tick.Ipc.{crc_mismatch}
use true_tick.Ipc.Response.{error, encode_response, decode_response}
use true_tick.Ipc.Response.Errors.{IsError}
use true_tick.Ipc.Response.Roundtrip.{IsResponse, on_wire, decode_response-encode}
use true_tick.Ipc.RateLimit.{
  PidRecord, PidRateLimiter, check_and_record, new, evict_least_recently_seen,
}
use true_tick.Ipc.RateLimit.Eviction.{Removed, IsOldest, evict_least_recently_seen-IsOldest}
use true_tick.Ipc.RateLimit.Windows.{
  Answered, within_second, check_and_record-Answered, check_and_record_early,
}
use true_tick.Ipc.RateLimit.Bounded.{IsBounded, started, checked, Reached-IsBounded}

mismatch-IsResponse : IsResponse (error (crc_mismatch 7 9))
unfolding IsResponse IsError
mismatch-IsResponse = omega arith

decode_response-encode_example :
    decode_response (encode_response (error (crc_mismatch 7 9)))
    ≡ ok (on_wire (error (crc_mismatch 7 9)))
decode_response-encode_example =
    decode_response-encode (error (crc_mismatch 7 9)) mismatch-IsResponse

abbrev busy : PidRateLimiter
busy = record {
  records =
      record { pid = 7; timestamps = 2000000000 ∷ 2500000000 ∷ []; last_seen = 2500000000 } ∷ [];
}

check_and_record-Answered_example :
    Answered 7 3200000000
      (within_second 7 3200000000 busy.records)
      (check_and_record 7 3200000000 busy)
check_and_record-Answered_example = check_and_record-Answered 7 3200000000 busy (omega arith)

abbrev seen : ℕ → ℕ → PidRecord
seen pid last_seen = record { pid = pid; timestamps = []; last_seen = last_seen }

evict_least_recently_seen-IsOldest_example :
    (q : PidRecord) × Removed q
      (seen 3 20 ∷ seen 2 10 ∷ seen 1 10 ∷ [])
      (evict_least_recently_seen (seen 3 20 ∷ seen 2 10 ∷ seen 1 10 ∷ []))
    × IsOldest q (seen 3 20 ∷ seen 2 10 ∷ seen 1 10 ∷ [])
evict_least_recently_seen-IsOldest_example =
    evict_least_recently_seen-IsOldest (seen 3 20) (seen 2 10 ∷ seen 1 10 ∷ [])

Reached-IsBounded_example : IsBounded (check_and_record 7 3200000000 new).1
Reached-IsBounded_example = Reached-IsBounded (checked 7 3200000000 started)

abbrev flooded : PidRateLimiter
flooded = record {
  records =
      record { pid = 7; timestamps = 1 ∷ 2 ∷ 3 ∷ 4 ∷ 5 ∷ 6 ∷ 7 ∷ 8 ∷ 9 ∷ 10 ∷ []; last_seen = 10 }
      ∷ [];
}

check_and_record_early_example : (check_and_record 7 11 flooded).0 ≡ ok tt
check_and_record_early_example = check_and_record_early 7 11 flooded (omega arith) (omega arith)
