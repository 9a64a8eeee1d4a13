-- ===== src/RateLimiter/Tests.antt =====
-- A run of the limiter of src/rate_limiter.rs, and examples of what is proved of it.
use l7_proxy.Base.{ℕ, ◌-◌, ◌≡◌, List, [], ◌∷◌, none, ◌++◌, true, false, arith, replicate, min}
use l7_proxy.Base.Float.{whole, whole-IsExact}
use l7_proxy.RateLimiter.{IpAddr, ip_key, new, new_bucket}
use l7_proxy.RateLimiter.Burst.{burst, burst-new_bucket}
use l7_proxy.RateLimiter.Sections.{Section, counts, sweeps, acquires, told, own_told, told-new}
use l7_proxy.RateLimiter.History.{Ask, answers, own_answers, answers-own}

-- Bursts of five requests at a bucket of three tokens.
burst-new_bucket_example :
    burst 5 (new_bucket {F = ℕ} 3 1 7) 7 ≡ replicate (min 5 3) true ++ replicate (5 - 3) false
burst-new_bucket_example = burst-new_bucket (whole-IsExact 1) 3 7 (omega arith) 5

abbrev alice : IpAddr
alice = IpAddr.v4 1

abbrev bob : IpAddr
bob = IpAddr.v4 2

-- Two clients with bursts of two.
abbrev asks : List Ask
asks =
    record { ip = alice; swept = 1; made = 1; now = 1 }
    ∷ record { ip = bob; swept = 2; made = 2; now = 2 }
    ∷ record { ip = alice; swept = 3; made = 3; now = 3 }
    ∷ record { ip = alice; swept = 4; made = 4; now = 4 }
    ∷ []

answers-own_example :
    answers {F = ℕ} alice (new 1 2) asks
    ≡ own_answers {F = ℕ} alice
        (record { capacity = 2; refill_rate = 1; counter = 0; bucket = none })
        asks
answers-own_example = answers-own 1 2 alice asks

-- Both clients count before either takes from its bucket, and the sweep comes last.
abbrev sections : List Section
sections =
    counts ∷ counts ∷ acquires bob 1 2 ∷ acquires alice 3 3 ∷ sweeps 4 ∷ acquires alice 5 5 ∷ []

told-new_example : told {F = ℕ} alice (new 1 2) sections ≡ own_told {F = ℕ} alice 2 1 none sections
told-new_example = told-new 1 2 alice sections
