-- ===== src/Tests/Calls.antt =====
-- The RPC client with two streams, and the distributions of a small source of entropy.
use fleetbench.Prelude.{
  ℕ, suc, ◌+◌, ◌-◌, ◌≡◌, ◌<◌, ◌⊎◌, refl, true, false, some, List, [], ◌∷◌, done, fatal, pos, negsuc,
  arith,
}
use fleetbench.Rpc.Client.{
  ClientOptions, Client, open_client, connect_peers, Event, launch, count_launch, complete_call,
  mark_done, happens, history, wait_returns, skips_peer, connect_peer,
}
use fleetbench.Rpc.Client.Drain.{wait_returns-idle, all_stop-wait_returns, events_left, stops}
use fleetbench.Rpc.Distribution.{
  DistributionArgs, RandomDistribution, empirical, Entropy, poisson_name, get_distribution,
  sample_clamped, clamp_value,
}
use fleetbench.Rpc.Distribution.Range.{
  ◌≤ℤ◌, Describes, is_one_of, known_names, IsUniform, get_distribution-known, sample_clamped-le,
}

-- One call outstanding, two peers, the empty one of which is skipped, and two connections to the other.
abbrev two_streams : ClientOptions
two_streams = record {
  peers = [] ∷ (104 ∷ []) ∷ [];
  connections_per_peer = pos 2;
  max_outstanding_rpcs = pos 1;
  skip_loopback = true;
}

two_stubs :
    connect_peers two_streams two_streams.peers
    ≡ record { peer = 104 ∷ []; buf = 0 } ∷ record { peer = 104 ∷ []; buf = 1 } ∷ []
unfolding connect_peers skips_peer connect_peer
two_stubs = refl

-- A stream calls three times, and stops before the other has been started.
abbrev first_calls : List Event
first_calls =
    launch true
    ∷ complete_call true
    ∷ count_launch
    ∷ complete_call true
    ∷ complete_call false
    ∷ mark_done
    ∷ launch true
    ∷ count_launch
    ∷ []

abbrev one_left : Client
one_left = record {
  launches = 0;
  unmarked = false;
  in_flight = 1;
  stopping = 0;
  inflight_rpcs_count = 1;
  completed = 3;
}

first_history : history (open_client two_streams 2) first_calls ≡ some one_left
unfolding history happens open_client
first_history = refl

abbrev last_calls : List Event
last_calls = complete_call false ∷ mark_done ∷ []

abbrev none_left : Client
none_left = record {
  launches = 0;
  unmarked = false;
  in_flight = 0;
  stopping = 0;
  inflight_rpcs_count = 0;
  completed = 4;
}

last_history : history one_left last_calls ≡ some none_left
unfolding history happens
last_history = refl

none_left-returns : wait_returns none_left ≡ true
unfolding wait_returns
none_left-returns = refl

abbrev all_calls : List Event
all_calls =
    launch true
    ∷ complete_call true
    ∷ count_launch
    ∷ complete_call true
    ∷ complete_call false
    ∷ mark_done
    ∷ launch true
    ∷ count_launch
    ∷ complete_call false
    ∷ mark_done
    ∷ []

all_history : history (open_client two_streams 2) all_calls ≡ some none_left
unfolding history happens open_client
all_history = refl

wait_returns-idle_example :
    (none_left.in_flight ≡ 0) × (none_left.stopping ≡ 0) × (none_left.launches ≡ 0)
wait_returns-idle_example =
    wait_returns-idle two_streams 2 all_calls none_left (omega arith) all_history none_left-returns

all_stop-wait_returns_example :
    ((2 ≡ events_left one_left) × (wait_returns none_left ≡ true))
    ⊎ ((2 < events_left one_left)
        × ((event : Event) × (d : Client) × (stops event ≡ true)
            × (happens none_left event ≡ some d)))
all_stop-wait_returns_example =
    all_stop-wait_returns two_streams 2 first_calls last_calls one_left none_left (omega arith)
      first_history refl last_history

-- A source that draws the least value, or a half of the size.
abbrev dull : Entropy
dull = record {
  Real = ℕ;
  Gen = ℕ;
  draw_uniform = λ lo hi g. (lo, suc g);
  draw_index = λ size g. (size - 1, suc g);
  draw_exponential = λ lambda g. (pos (lambda + g), suc g);
  draw_gaussian = λ mean stdev g. (pos mean, suc g);
  draw_poisson = λ mean g. (mean, suc g);
}

dull-IsUniform : IsUniform dull
dull-IsUniform = record { below_end = λ lo hi g h. h; index_below = λ size g h. omega arith }

abbrev poisson_args : DistributionArgs ℕ
poisson_args = record {
  distribution = poisson_name;
  constant_value = pos 0;
  uniform_min = pos 0;
  uniform_max = pos 0;
  exponential_lambda = 0;
  exponential_max = pos 0;
  gaussian_mean = 0;
  gaussian_stdev = 0;
  gaussian_max = pos 0;
  poisson_mean = pos 4;
  poisson_max = pos 9;
  empirical = [];
}

get_distribution-known_example :
    ((is_one_of poisson_name known_names ≡ true)
      × ((r : RandomDistribution ℕ × ℕ) × (get_distribution dull poisson_args 0 ≡ done r)
          × Describes poisson_args r.0))
    ⊎ ((is_one_of poisson_name known_names ≡ false)
        × (get_distribution dull poisson_args 0 ≡ fatal))
get_distribution-known_example = get_distribution-known dull poisson_args 0

sample_clamped-le_example :
    (sample_clamped dull (empirical (pos 3) (pos 8 ∷ negsuc 1 ∷ [])) 5).0
    ≤ℤ clamp_value {Real = ℕ} (empirical (pos 3) (pos 8 ∷ negsuc 1 ∷ []))
sample_clamped-le_example =
    sample_clamped-le dull (empirical (pos 3) (pos 8 ∷ negsuc 1 ∷ [])) 5 dull-IsUniform tt
