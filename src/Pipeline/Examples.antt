-- ===== src/Pipeline/Examples.antt =====
-- The theorem on the rate limit at a concrete handler.
use z_courier.Base.{◌≡◌, ◌≤◌, refl, true, [], ◌∷◌, List, Text, bytes, text_Eq, lookup, arith}
use z_courier.Pipeline.{RateLimitHandler, current_bucket, bucket_of}
use z_courier.Pipeline.Windows.{Arrival, passed, passed-le}

abbrev two_per_ten : RateLimitHandler
two_per_ten = record { enabled = true; max_requests = 2; window = 10; buckets = [] }

abbrev alice : Text
alice = bytes "client:alice"

abbrev arrivals : List Arrival
arrivals =
    record { key = bytes "client:bob"; now = 6 }
    ∷ record { key = alice; now = 9 }
    ∷ record { key = alice; now = 14 }
    ∷ []

opens :
    current_bucket 10 5 (bucket_of alice two_per_ten.buckets)
    ≡ record { window_start = 5; count = 0 }
unfolding current_bucket lookup
opens = refl

passed-le_example : passed alice two_per_ten (record { key = alice; now = 5 } ∷ arrivals) ≤ 2
passed-le_example =
    passed-le alice 5 two_per_ten arrivals (refl, omega arith, omega arith) (omega arith) opens
      (omega arith, (omega arith, (omega arith, tt)))
