-- ===== src/Reliable.antt =====
-- `ReliableChannel` of crates/ashfall-server/src/network.rs: sequenced delivery to one address. Its
-- state is here; what it sends, what it receives and its round-trip estimate are below.
-- A clock reading and a duration are numbers of nanoseconds.
pub mod Rtt
pub mod Send
pub mod Receive
use ashfall.Prelude.{ℕ, ◌*◌, ◌/◌, Bool, false, List, []}
use ashfall.Map
use ashfall.Map.{Map}
use ashfall.Channel.{Channel}

abbrev pub Bytes : Type 0
Bytes = List ℕ

abbrev pub header_size : ℕ
header_size = 3

abbrev pub max_inflight : ℕ
max_inflight = 32

abbrev pub recv_window : ℕ
recv_window = 32

-- `Duration::from_millis` and `as_millis`
abbrev pub from_millis : ℕ → ℕ
from_millis n = n * 1000000

abbrev pub as_millis : ℕ → ℕ
as_millis d = d / 1000000

abbrev pub rto_min : ℕ
rto_min = from_millis 100

abbrev pub rto_max : ℕ
rto_max = from_millis 3000

abbrev pub max_backoff : ℕ
max_backoff = 6

pub record SendEntry : Type 0 where
  pub seq : ℕ
  pub channel : Channel
  pub sent_at : ℕ
  pub bytes : Bytes
  pub retransmits : ℕ

-- The array of three queues, in the order in which they are drained.
pub record SendQueues : Type 0 where
  pub system_queue : List SendEntry
  pub game_queue : List SendEntry
  pub chat_queue : List SendEntry

pub record ReliableChannel : Type 0 where
  pub send_seq : ℕ
  pub recv_seq : ℕ
  pub send_queues : SendQueues
  pub recv_buffer : Map ℕ Bytes
  pub ready_queue : List Bytes
  pub ack_pending : Bool
  pub nack_pending : Bool
  pub pending_nacks : List ℕ
  pub srtt : ℕ
  pub rttvar : ℕ
  pub rto : ℕ

unfoldable pub new : ReliableChannel
new = record {
  send_seq = 0;
  recv_seq = 0;
  send_queues = record { system_queue = []; game_queue = []; chat_queue = [] };
  recv_buffer = Map.empty;
  ready_queue = [];
  ack_pending = false;
  nack_pending = false;
  pending_nacks = [];
  srtt = from_millis 100;
  rttvar = from_millis 50;
  rto = from_millis 300;
}
