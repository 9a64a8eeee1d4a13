-- ===== src/Server/Drain.antt =====
-- src/server.rs, `shutdown_signal` and the `select!` of `start_server`: how the server ends. Instants
-- are nanoseconds; `none` is an instant that does not come.
pub mod Requests
use l7_proxy.Base.{
  ℕ, ◌+◌, ◌≤◌, ◌<◌, ◌≡◌, refl, inl, inr, List, [], ◌∷◌, Bool, true, false, Option, none, some,
  arith, ltb, leb, max, if◌then◌else◌, from_secs, All, Bool-cases,
}
use l7_proxy.Config.{ServerConfig}

-- The server's future is done, well or with an error; or the drain timeout forces the end.
pub data Exit : Type 0 where
  finished : Bool → Exit
  forced : Exit

-- Of Ctrl-C and SIGTERM the one that comes first.
unfoldable pub shutdown_signal : Option ℕ → Option ℕ → Option ℕ
shutdown_signal none sigterm = sigterm
shutdown_signal (some c) none = some c
shutdown_signal (some c) (some t) = if leb c t then some c else some t

-- The second branch of the `select!`: the timeout counts from the signal.
unfoldable pub deadline : {F : Type 0} → ServerConfig F → Option ℕ → Option ℕ
deadline server none = none
deadline server (some signal) = some (signal + from_secs server.drain_timeout_secs)

-- The `select!`. Where both are ready at once, `toss` says which of them is looked at first.
unfoldable pub select : Bool → Option (ℕ × Bool) → Option ℕ → Option (ℕ × Exit)
select toss none none = none
select toss none (some limit) = some (limit, forced)
select toss (some (ended, fine)) none = some (ended, finished fine)
select toss (some (ended, fine)) (some limit) =
    if ltb ended limit
    then some (ended, finished fine)
    else if ltb limit ended
    then some (limit, forced)
    else if toss
    then some (ended, finished fine)
    else some (limit, forced)

-- `start_server`, from the instant at which hyper's server is done, and that of the signal.
unfoldable pub start_server :
    {F : Type 0} → ServerConfig F → Bool → Option (ℕ × Bool) → Option ℕ → Option (ℕ × Exit)
start_server server toss ended signal = select toss ended (deadline server signal)

-- How an end at an instant came about.
abbrev pub CameTo : Option (ℕ × Bool) → ℕ → ℕ → Exit → Type 0
CameTo ended limit end (finished fine) = (ended ≡ some (end, fine)) × (end ≤ limit)
CameTo none limit end forced = end ≡ limit
CameTo (some (d, fine)) limit end forced = (end ≡ limit) × (limit ≤ d)

select-CameTo :
    (toss : Bool) (ended : Option (ℕ × Bool)) (limit : ℕ)
    → (end : ℕ) × (exit : Exit) × (select toss ended (some limit) ≡ some (end, exit))
      × CameTo ended limit end exit
unfolding select
select-CameTo toss none limit = (limit, forced, refl, refl)
select-CameTo true (some (d, fine)) limit = elim (Bool-cases (ltb limit d)) [
  | inl late ↦ (limit, forced, ground arith, (refl, ground arith))
  | inr in_time ↦ (d, finished fine, ground arith, (refl, ground arith))
]
select-CameTo false (some (d, fine)) limit = elim (Bool-cases (ltb d limit)) [
  | inl early ↦ (d, finished fine, ground arith, (refl, ground arith))
  | inr late ↦ (limit, forced, ground arith, (refl, ground arith))
]

-- After a signal the server ends, by the drain timeout after it at the latest: with the end of
-- hyper's server if that comes before, and forced, exactly at the timeout, only if hyper's server is
-- not done before it.
pub start_server-ends :
    {F : Type 0} (server : ServerConfig F) (toss : Bool) (ended : Option (ℕ × Bool)) (signal : ℕ)
    → (end : ℕ) × (exit : Exit) × (start_server server toss ended (some signal) ≡ some (end, exit))
      × (end ≤ signal + from_secs server.drain_timeout_secs)
      × CameTo ended (signal + from_secs server.drain_timeout_secs) end exit
unfolding start_server deadline
start_server-ends server toss ended signal =
    let (end, exit, e, came) =
      select-CameTo toss ended (signal + from_secs server.drain_timeout_secs) in
    (end, exit, e, CameTo-le ended _ end exit came, came)
  where
    CameTo-le :
        (ended : Option (ℕ × Bool)) (limit end : ℕ) (exit : Exit)
        → CameTo ended limit end exit
        → end ≤ limit
    CameTo-le ended limit end (finished fine) (e, le) = le
    CameTo-le none limit end forced e = omega arith
    CameTo-le (some (d, fine)) limit end forced (e, le) = omega arith

-- The instant at which the last of the requests under way is over, and not before the signal.
abbrev pub last_of : ℕ → List ℕ → ℕ
last_of signal [] = signal
last_of signal (over ∷ rest) = max over (last_of signal rest)

last_of-le :
    (signal limit : ℕ) (overs : List ℕ)
    → signal ≤ limit
    → All (λ over. over ≤ limit) overs
    → last_of signal overs ≤ limit
last_of-le signal limit [] le h = le
last_of-le signal limit (over ∷ rest) le (first, h) =
    omega (arith, last_of-le signal limit rest le h)

-- When hyper's server is done as soon as the requests that were under way at the signal are over,
-- each of them within the overall timeout, and that timeout is shorter than the drain timeout, the
-- server is never forced to end: it ends with the last of them.
pub start_server-drains :
    {F : Type 0} (server : ServerConfig F) (toss : Bool) (signal : ℕ) (overs : List ℕ)
    → All (λ over. over ≤ signal + from_secs server.overall_timeout_secs) overs
    → server.overall_timeout_secs < server.drain_timeout_secs
    → start_server server toss (some (last_of signal overs, true)) (some signal)
      ≡ some (last_of signal overs, finished true)
unfolding start_server deadline select
start_server-drains server toss signal overs within shorter =
    let before =
      last_of-le signal (signal + from_secs server.overall_timeout_secs) overs (omega arith)
        within in
    ground (arith, before)
