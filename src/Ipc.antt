-- ===== src/Ipc.antt =====
-- inter_process_comm/single_ring_full_duplex: two processes that send requests and answers through one
-- ring. Each puts back what is meant for the other. A turn of a process goes up to its next access to
-- the ring, or up to the release of a message; the turns come in any order.
pub mod Stages
pub mod Exchange
pub mod Completion
use dpdk_for_beginners.Base.{
  ℕ, suc, ◌+◌, ◌*◌, Bool, true, false, Option, none, some, List, [], ◌∷◌, ◌++◌, length, ltb, ◌==◌,
  if◌then◌else◌,
}

-- `enum msg_type`
pub data MsgType : Type 0 where
  msg_req msg_resp msg_exit : MsgType

-- `struct msg`
pub record Msg : Type 0 where
  pub src_id : ℕ
  pub dst_id : ℕ
  pub kind : MsgType
  pub value : ℕ

abbrev pub proc_a : ℕ
proc_a = 1

abbrev pub proc_b : ℕ
proc_b = 2

-- `rte_ring` of RING_SIZE, which holds one object less, first in, first out
abbrev pub enqueue : List Msg → Msg → Option (List Msg)
enqueue ring m = if ltb (length ring) 1023 then some (ring ++ (m ∷ [])) else none

-- primary.c: before it sends the request `i`, or at `i = 10` the message that ends the exchange; waiting
-- for the answer; with a message from the ring in hand; at the end
pub data Primary : Type 0 where
  sending waiting : ℕ → Primary
  holding : ℕ → Msg → Primary
  done : Primary

-- secondary.c: at the head of its loop; with a message from the ring in hand; with a request that it has yet
-- to free, and the answer to it; with an answer that the ring has not yet taken; at the end
pub data Secondary : Type 0 where
  listening : Secondary
  reading releasing replying : Msg → Secondary
  exited : Secondary

-- The processes, the ring, the values that the primary has received, and how many messages have been
-- allocated and freed.
pub record System : Type 0 where
  pub primary : Primary
  pub secondary : Secondary
  pub ring : List Msg
  pub received : List ℕ
  pub allocated : ℕ
  pub freed : ℕ

abbrev pub start : System
start = record {
  primary = sending 0;
  secondary = listening;
  ring = [];
  received = [];
  allocated = 0;
  freed = 0;
}

abbrev pub request : ℕ → Msg
request i = record { src_id = proc_a; dst_id = proc_b; kind = msg_req; value = i }

abbrev pub exit_msg : Msg
exit_msg = record { src_id = proc_a; dst_id = proc_b; kind = msg_exit; value = 0 }

-- the answer to a message
abbrev pub answer : Msg → Msg
answer m = record { src_id = proc_b; dst_id = proc_a; kind = msg_resp; value = m.value * 10 }

-- An enqueue that is repeated until it succeeds, and one whose result is ignored.
abbrev pub send_request : System → ℕ → Option (List Msg) → System
send_request s i none = s
send_request s i (some r) = record s { primary = waiting i; ring = r; allocated = s.allocated + 1 }

abbrev pub put_quietly : List Msg → Option (List Msg) → List Msg
put_quietly old none = old
put_quietly old (some r) = r

-- `rte_ring_dequeue`, and what the process has in hand then
abbrev pub primary_dequeue : System → ℕ → List Msg → System
primary_dequeue s i [] = s
primary_dequeue s i (m ∷ ring) = record s { primary = holding i m; ring = ring }

-- a message for the primary: an answer ends the waiting, any other one is passed over
abbrev pub primary_accept : System → ℕ → Msg → MsgType → System
primary_accept s i m msg_resp = record s {
  primary = sending (i + 1);
  received = s.received ++ (m.value ∷ []);
  freed = s.freed + 1;
}
primary_accept s i m msg_req = record s { primary = waiting i }
primary_accept s i m msg_exit = record s { primary = waiting i }

unfoldable pub primary_turn : System → Primary → System
primary_turn s (sending i) =
    if ltb i 10 then send_request s i (enqueue s.ring (request i)) else record s {
      primary = done;
      ring = put_quietly s.ring (enqueue s.ring exit_msg);
      allocated = s.allocated + 1;
    }
primary_turn s (waiting i) = primary_dequeue s i s.ring
primary_turn s (holding i m) =
    if m.dst_id == proc_a
    then primary_accept s i m m.kind
    else record s { primary = waiting i; ring = put_quietly s.ring (enqueue s.ring m) }
primary_turn s done = s

abbrev pub secondary_dequeue : System → List Msg → System
secondary_dequeue s [] = s
secondary_dequeue s (m ∷ ring) = record s { secondary = reading m; ring = ring }

abbrev pub secondary_accept : System → Msg → MsgType → System
secondary_accept s m msg_exit = record s { secondary = exited; freed = s.freed + 1 }
secondary_accept s m msg_req = record s { secondary = releasing m; allocated = s.allocated + 1 }
secondary_accept s m msg_resp = record s { secondary = listening }

abbrev pub send_reply : System → Option (List Msg) → System
send_reply s none = s
send_reply s (some r) = record s { secondary = listening; ring = r }

unfoldable pub secondary_turn : System → Secondary → System
secondary_turn s listening = secondary_dequeue s s.ring
secondary_turn s (reading m) =
    if m.dst_id == proc_b
    then secondary_accept s m m.kind
    else record s { secondary = listening; ring = put_quietly s.ring (enqueue s.ring m) }
secondary_turn s (releasing m) = record s { secondary = replying (answer m); freed = s.freed + 1 }
secondary_turn s (replying m) = send_reply s (enqueue s.ring m)
secondary_turn s exited = s

pub data Turn : Type 0 where
  primary_runs secondary_runs : Turn

abbrev pub turn : Turn → System → System
turn primary_runs s = primary_turn s s.primary
turn secondary_runs s = secondary_turn s s.secondary

abbrev pub run : List Turn → System → System
run [] s = s
run (t ∷ ts) s = run ts (turn t s)
