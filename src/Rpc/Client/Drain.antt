-- ===== src/Rpc/Client/Drain.antt =====
-- grpc_client.cc: `Wait` returns only when no stream is left, and does return once `keep_running_` says
-- so to every stream, whatever the order in which threads run.
use fleetbench.Prelude.{
  ℕ, suc, ◌+◌, ◌-◌, ◌*◌, ◌^◌, ◌<◌, ◌≡◌, ◌⊎◌, inl, inr, refl, ◌∙◌, ap, subst, Bool, true, false, not,
  ◌&&◌, some, and_then-eq-some, add64, sub64, List, [], ◌∷◌, ◌==◌, Bool-cases, length, arith,
}
use fleetbench.Rpc.Client.{
  ClientOptions, rounds, Client, open_client, Event, launch, count_launch, complete_call, mark_done,
  happens, history, wait_returns,
}

-- 1 for `true`.
abbrev pub ones : Bool → ℕ
ones true = 1
ones false = 0

-- The counter has every stream that is not over, but for one that is being counted.
pub record IsCounted (c : Client) : Type 0 where
  pub streams : c.inflight_rpcs_count + ones c.unmarked ≡ c.in_flight + c.stopping
  pub bounded : c.launches + c.in_flight + c.stopping < 2 ^ 64

happens-IsCounted :
    (c : Client) (event : Event) (c' : Client)
    → IsCounted c
    → happens c event ≡ some c'
    → IsCounted c'
unfolding happens
happens-IsCounted c (launch running) c' v e = ground arith
happens-IsCounted c count_launch c' v e = ground arith
happens-IsCounted c (complete_call running) c' v e = ground arith
happens-IsCounted c mark_done c' v e = ground arith

-- A history that begins with an event, by its first state.
history-cons :
    (event : Event) (events : List Event) (c c' : Client)
    → history c (event ∷ events) ≡ some c'
    → (d : Client) × (happens c event ≡ some d) × (history d events ≡ some c')
unfolding history
history-cons event events c c' e = and_then-eq-some (happens c event) (λ d. history d events) e

history-IsCounted :
    (events : List Event) (c c' : Client) → IsCounted c → history c events ≡ some c' → IsCounted c'
history-IsCounted [] c c' v e = let same : c ≡ c' = unfold history in cc in subst IsCounted same v
history-IsCounted (event ∷ events) c c' v e =
    let (d, on, rest) = history-cons event events c c' e in
    history-IsCounted events d c' (happens-IsCounted c event d v on) rest

open_client-IsCounted :
    (opts : ClientOptions) (stubs : ℕ)
    → rounds opts.max_outstanding_rpcs * stubs < 2 ^ 64
    → IsCounted (open_client opts stubs)
unfolding open_client
open_client-IsCounted opts stubs small = record { streams = omega arith; bounded = omega arith }

-- When `Wait` returns, no stream is in flight or stopping, whatever has happened since the
-- client was opened. (The streams to start are fewer than 2^64.)
pub wait_returns-idle :
    (opts : ClientOptions) (stubs : ℕ) (events : List Event) (c : Client)
    → rounds opts.max_outstanding_rpcs * stubs < 2 ^ 64
    → history (open_client opts stubs) events ≡ some c
    → wait_returns c ≡ true
    → (c.in_flight ≡ 0) × (c.stopping ≡ 0) × (c.launches ≡ 0)
unfolding wait_returns
wait_returns-idle opts stubs events c small e w =
    let v =
      history-IsCounted events (open_client opts stubs) c (open_client-IsCounted opts stubs small)
        e in
    ground (arith, v.streams)

-- The events that are left to the streams once `keep_running_` is false.
abbrev pub stops : Event → Bool
stops (launch running) = not running
stops count_launch = true
stops (complete_call running) = not running
stops mark_done = true

abbrev pub all_stop : List Event → Bool
all_stop [] = true
all_stop (event ∷ events) = stops event && all_stop events

-- How many such events are left.
abbrev pub events_left : Client → ℕ
events_left c = c.launches + 2 * c.in_flight + c.stopping + ones c.unmarked

happens-events_left :
    (c : Client) (event : Event) (c' : Client)
    → stops event ≡ true
    → happens c event ≡ some c'
    → events_left c ≡ suc (events_left c')
unfolding happens
happens-events_left c (launch true) c' q e = cc
happens-events_left c (launch false) c' q e = ground arith
happens-events_left c count_launch c' q e = ground arith
happens-events_left c (complete_call true) c' q e = cc
happens-events_left c (complete_call false) c' q e = ground arith
happens-events_left c mark_done c' q e = ground arith

history-events_left :
    (events : List Event) (c c' : Client)
    → all_stop events ≡ true
    → history c events ≡ some c'
    → events_left c ≡ length events + events_left c'
history-events_left [] c c' q e =
    let same : c ≡ c' = unfold history in cc in ap events_left same ∙ omega arith
history-events_left (event ∷ events) c c' q e =
    let (d, on, rest) = history-cons event events c c' e in
    let first : stops event ≡ true = ground arith in
    let later : all_stop events ≡ true = ground arith in
    omega
      (arith, happens-events_left c event d first on, history-events_left events d c' later rest)

-- As long as `Wait` does not return, a thread can go on.
next_stop :
    (c : Client)
    → IsCounted c
    → (wait_returns c ≡ true × (events_left c ≡ 0))
      ⊎ ((event : Event) × (c' : Client) × (stops event ≡ true) × (happens c event ≡ some c'))
unfolding happens wait_returns
next_stop c v = elim (Bool-cases c.unmarked) [
  | inl held ↦ inr (
    count_launch,
    record c { unmarked = false; inflight_rpcs_count = add64 c.inflight_rpcs_count 1 },
    refl,
    ground arith,
  )
  | inr free ↦ elim (Bool-cases (c.launches == 0)) [
    | inr more ↦ inr (launch false, record c { launches = c.launches - 1 }, refl, ground arith)
    | inl started ↦ elim (Bool-cases (c.in_flight == 0)) [
      | inr out ↦ inr (
        complete_call false,
        record c {
          in_flight = c.in_flight - 1;
          stopping = c.stopping + 1;
          completed = c.completed + 1;
        },
        refl,
        ground arith,
      )
      | inl back ↦ elim (Bool-cases (c.stopping == 0)) [
        | inr some_stop ↦ inr (
          mark_done,
          record c {
            stopping = c.stopping - 1;
            inflight_rpcs_count = sub64 c.inflight_rpcs_count 1;
          },
          refl,
          ground arith,
        )
        | inl over ↦ inl (ground (arith, v.streams), ground arith)
      ]
    ]
  ]
]

-- Once every stream finds `keep_running_` false, each of the events that are left to the streams
-- brings `Wait` closer: there are at most `events_left` of them, in whichever order, `Wait` returns
-- when there were as many, and one is possible as long as there were fewer. (The streams to
-- start are fewer than 2^64.)
pub all_stop-wait_returns :
    (opts : ClientOptions) (stubs : ℕ) (before after : List Event) (c c' : Client)
    → rounds opts.max_outstanding_rpcs * stubs < 2 ^ 64
    → history (open_client opts stubs) before ≡ some c
    → all_stop after ≡ true
    → history c after ≡ some c'
    → ((length after ≡ events_left c) × (wait_returns c' ≡ true))
      ⊎ ((length after < events_left c)
          × ((event : Event) × (d : Client) × (stops event ≡ true) × (happens c' event ≡ some d)))
all_stop-wait_returns opts stubs before after c c' small e q f =
    let v =
      history-IsCounted after c c'
        (history-IsCounted before (open_client opts stubs) c
          (open_client-IsCounted opts stubs small) e)
        f in
    let left = history-events_left after c c' q f in
    elim (next_stop c' v) [
      | inl (w, z) ↦ inl (omega arith, w)
      | inr (event, d, s, on) ↦
          inr (omega (arith, happens-events_left c' event d s on), (event, d, s, on))
    ]
