-- ===== src/Rpc/Client.antt =====
-- fleetbench/rpc/grpc_client.cc: the streams of calls of a `GRPCClient`, and the count by which `Wait`
-- knows that none is left. The constructor and the callbacks run in different threads; a step of the
-- model is what one of them does under the mutex, or between two uses of it.
pub mod Drain
use fleetbench.Prelude.{
  ℕ, zero, suc, ◌+◌, ◌-◌, ◌%◌, ◌^◌, ◌≤◌, ◌<◌, ◌≡◌, Bool, true, false, not, ◌&&◌, ◌||◌, ◌*◌, Option,
  none, some, List, [], ◌∷◌, ltb, ◌==◌, if◌then◌else◌, and_then, Bytes, contains, add64, sub64, ℤ,
  pos, negsuc, ◌++◌,
}

-- `GRPCClientOptions`, as far as the construction of the streams depends on them.
pub record ClientOptions : Type 0 where
  pub peers : List Bytes
  pub connections_per_peer : ℤ
  pub max_outstanding_rpcs : ℤ
  pub skip_loopback : Bool

-- A stub's peer, and the index of the message that it sends.
pub record StubBuffer : Type 0 where
  pub peer : Bytes
  pub buf : ℕ

-- "localhost".
abbrev localhost : Bytes
localhost = 108 ∷ 111 ∷ 99 ∷ 97 ∷ 108 ∷ 104 ∷ 111 ∷ 115 ∷ 116 ∷ []

-- The rounds of `for (int32_t i = 0; i < n; ++i)`.
abbrev pub rounds : ℤ → ℕ
rounds (pos n) = n
rounds (negsuc n) = 0

-- `kMaxMessagesPerProgram * kMaxSettersPerMessage`.
abbrev pub message_buffers : ℕ
message_buffers = 3 * 4

-- The peers that the constructor skips.
unfoldable pub skips_peer : (skip_loopback : Bool) → Bytes → Bool
skips_peer skip [] = true
skips_peer skip (c ∷ peer) = skip && contains (c ∷ peer) localhost

-- The connections to one peer, from number `i` on.
unfoldable pub connect_peer : (left i : ℕ) → Bytes → List StubBuffer
connect_peer zero i peer = []
connect_peer (suc left) i peer =
    record { peer = peer; buf = i % message_buffers } ∷ connect_peer left (suc i) peer

unfoldable pub connect_peers : ClientOptions → List Bytes → List StubBuffer
unfolding skips_peer connect_peer
connect_peers opts [] = []
connect_peers opts (peer ∷ peers) =
    let rest = connect_peers opts peers in
    if skips_peer opts.skip_loopback peer
    then rest
    else connect_peer (rounds opts.connections_per_peer) 0 peer ++ rest

-- `launches` counts the turns that the constructor's loop over the streams has left; `unmarked` says
-- that it holds the mutex, with a call sent and not counted. A stream is in flight from its first
-- call to the callback that finds `keep_running_` false, and then stopping up to the end of
-- `MarkRPCStreamDone`. Of the calls that have ended, `completed` counts all.
pub record Client : Type 0 where
  pub launches : ℕ
  pub unmarked : Bool
  pub in_flight : ℕ
  pub stopping : ℕ
  pub inflight_rpcs_count : ℕ
  pub completed : ℕ

-- The client before the loop that starts the streams.
unfoldable pub open_client : ClientOptions → (stubs : ℕ) → Client
open_client opts stubs = record {
  launches = rounds opts.max_outstanding_rpcs * stubs;
  unmarked = false;
  in_flight = 0;
  stopping = 0;
  inflight_rpcs_count = 0;
  completed = 0;
}

-- What can happen next; `running` is the answer of `keep_running_`.
pub data Event : Type 0 where
  launch : (running : Bool) → Event
  count_launch : Event
  complete_call : (running : Bool) → Event
  mark_done : Event

-- The next state, where the event is possible: a thread that wants the mutex waits for it.
unfoldable pub happens : Client → Event → Option Client
happens c (launch running) =
    let sent = record c {
      launches = c.launches - 1;
      unmarked = true;
      in_flight = c.in_flight + 1;
    } in
    if c.launches == 0
    then none
    else if not running
    then (if c.unmarked then none else some (record c { launches = c.launches - 1 }))
    else if c.unmarked
    then none
    else some sent
happens c count_launch =
    if c.unmarked
    then some (record c { unmarked = false; inflight_rpcs_count = add64 c.inflight_rpcs_count 1 })
    else none
happens c (complete_call running) =
    if c.in_flight == 0
    then none
    else if running
    then some (record c { completed = c.completed + 1 })
    else some (record c {
      in_flight = c.in_flight - 1;
      stopping = c.stopping + 1;
      completed = c.completed + 1;
    })
happens c mark_done =
    if c.stopping == 0 || c.unmarked
    then none
    else some (record c {
      stopping = c.stopping - 1;
      inflight_rpcs_count = sub64 c.inflight_rpcs_count 1;
    })

-- A history of events from `c` to `c'`.
unfoldable pub history : Client → List Event → Option Client
unfolding happens
history c [] = some c
history c (event ∷ events) = and_then (happens c event) (λ c'. history c' events)

-- The condition on which `Wait`, which is called when the constructor has returned, comes back.
unfoldable pub wait_returns : Client → Bool
wait_returns c = c.launches == 0 && not c.unmarked && c.inflight_rpcs_count == 0
