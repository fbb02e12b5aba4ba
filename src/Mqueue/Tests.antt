-- ===== src/Mqueue/Tests.antt =====
-- The message queues at small states.
use tinker.Base.{
  ℕ, ◌+◌, ◌<◌, ◌≡◌, refl, true, false, List, [], ◌∷◌, ◌==◌, if◌then◌else◌, ℤ, pos, negsuc, Option,
  some, none, arith,
}
use tinker.Base.Names.{same_name}
use tinker.Kernel.State.{done, hangs}
use tinker.Mqueue.State.{
  Attr, Mess, QueueD, Oflags, FileD, err_ok, e_again, Queues, numb_mess, set_errno,
}
use tinker.Mqueue.Places.{QueueOk, nth}
use tinker.Mqueue.Transfer.{send_error, mq_send, receive_error, receive_begin, receive_end}
use tinker.Mqueue.Send.{mq_send-error}
use tinker.Mqueue.Open.{Supply, mq_open}
use tinker.Mqueue.Opened.{IsName, HasRoom, IsNewName, mq_open-no_attr}
use tinker.Mqueue.Reopened.{create_open}
use tinker.Mqueue.Created.{IsSupplied, opened_file}
use tinker.Mqueue.Receive.{taken_of, received_queue, received_state, mq_receive_lem}

-- A message of one byte, its priority.
abbrev mess : ℕ → Mess
mess prio = record {
  buffer = λ k. prio;
  msg_sz = 1;
  order = record { time = 0; prio = prio; in_order = 0 };
}

abbrev read_write : Oflags
read_write = record { rdonly = false; wronly = false; rdwr = true; creat = true; nonblock = true }

-- A queue of four places from `out` to `end`, in which the message of the place `i` has the priority
-- 9 - i.
abbrev queue : (out end tokens : ℕ) → QueueD
queue out end tokens = record {
  taken = true;
  mq_name = 47 ∷ 97 ∷ [];
  mq_attr = record { msgsize = 8; maxmsg = 4 };
  box = record {
    m_idx_in = end;
    m_idx_out = out;
    mess_array = λ i. mess (if i == 0 then 9 else if i == 1 then 8 else 7);
    last_in_order = end;
  };
  sem = some tokens;
}

abbrev file : FileD
file = record { taken = true; t_id = 7; oflags = read_write; q_id = 0 }

abbrev with_queue : QueueD → Queues
with_queue q = record {
  queue_pool = λ i. q;
  q_p_idx = 0;
  file_pool = λ i. file;
  f_p_idx = 0;
  pool_access_sem = 1;
  started = true;
  errno = err_ok;
}

one_waiting : QueueOk (queue 1 2 1)
one_waiting = record { in_small = omega arith; out_small = omega arith }

full_error : send_error (with_queue (queue 1 0 3)) 7 (pos 3) 1 ≡ some e_again
unfolding send_error numb_mess
full_error = refl

-- Three messages in four places: there is no room.
refuses_full :
    mq_send (mess 0) (some mess) 7 5 (pos 3) (λ j. 6) 1 6 (with_queue (queue 1 0 3))
    ≡ done (negsuc 0, set_errno (with_queue (queue 1 0 3)) e_again)
refuses_full =
    mq_send-error (mess 0) mess 7 5 (pos 3) (λ j. 6) 1 6 (with_queue (queue 1 0 3)) refl
      (omega arith) e_again full_error

readable : receive_error (with_queue (queue 1 2 1)) 7 (pos 3) 8 ≡ none
unfolding receive_error numb_mess
readable = refl

one_there : 0 < numb_mess (queue 1 2 1)
unfolding numb_mess
one_there = omega arith

mq_receive_lem_example :
    (receive_begin 7 (pos 3) 8 (with_queue (queue 1 2 1)) ≡ done (some 0, with_queue (queue 1 2 1)))
    × (receive_end 0 (λ k. 0) (with_queue (queue 1 2 1))
        ≡ done (
            some (
              taken_of (λ k. 0) (nth (queue 1 2 1) 0) (mess 7),
              received_state (with_queue (queue 1 2 1)) 0 0,
            )))
    × QueueOk (received_queue (queue 1 2 1) 0)
    × (numb_mess (received_queue (queue 1 2 1) 0) + 1 ≡ numb_mess (queue 1 2 1))
    × ((k : ℕ) → nth (received_queue (queue 1 2 1) 0) k ≡ nth (queue 1 2 1) (k + 1))
mq_receive_lem_example =
    mq_receive_lem 7 (pos 3) 8 0 (λ k. 0) (with_queue (queue 1 2 1)) refl (omega arith) readable
      one_waiting one_there refl

-- The receiver of the message with the priority 8 is told 7.
tells_next : (taken_of (λ k. 0) (nth (queue 1 2 1) 0) (mess 7)).msgprio ≡ 7
tells_next = refl

-- The pools after `initialize`.
abbrev empty_pools : Queues
empty_pools = record {
  queue_pool = λ i. record (queue 0 0 0) { taken = false; mq_name = []; sem = none };
  q_p_idx = 0;
  file_pool = λ i. record file { taken = false };
  f_p_idx = 0;
  pool_access_sem = 1;
  started = true;
  errno = err_ok;
}

empty_pools-HasRoom : HasRoom empty_pools 0 0
empty_pools-HasRoom = record {
  started = refl;
  unlocked = refl;
  queues_from = refl;
  files_from = refl;
  queue_small = omega arith;
  queue_free = refl;
  queues_before = λ k h. absurd (omega arith);
  file_small = omega arith;
  file_free = refl;
  files_before = λ k h. absurd (omega arith);
}

-- "/a"
abbrev path : List ℕ
path = 47 ∷ 97 ∷ []

path-IsName : IsName path
path-IsName = record { short = omega arith; slash = refl }

path-IsNewName : IsNewName path empty_pools
unfolding same_name
path-IsNewName k h = refl

abbrev plenty : Supply
plenty = record {
  array_ok = true;
  garbage = λ i. mess 0;
  buffers = 10;
  bytes = λ i k. 0;
  sem_ok = true;
}

abbrev four_of_eight : Attr
four_of_eight = record { msgsize = 8; maxmsg = 4 }

abbrev to_create : Oflags
to_create = record read_write { nonblock = false }

abbrev to_open : Oflags
to_open = record read_write { creat = false }

mq_open-no_attr_example :
    (w' : Queues) × (mq_open path to_create none plenty 7 empty_pools ≡ done (negsuc 0, w'))
    × ((before : Mess) (fresh : Option (ℕ → Mess)) (other now : ℕ) (mq : ℤ) (msg : ℕ → ℕ)
          (len prio : ℕ)
        → mq_send before fresh other now mq msg len prio w' ≡ hangs)
    × ((other : ℕ) (mq : ℤ) (len : ℕ) → receive_begin other mq len w' ≡ hangs)
    × ((name' : List ℕ) (flags' : Oflags) (attr : Option Attr) (s' : Supply) (other : ℕ)
        → mq_open name' flags' attr s' other w' ≡ hangs)
mq_open-no_attr_example =
    mq_open-no_attr path to_create plenty 7 empty_pools 0 0 empty_pools-HasRoom path-IsName
      path-IsNewName refl

create_open_example :
    (w' : Queues) × (w'' : Queues) × (mq_open path to_create
        (some four_of_eight)
        plenty
        7
        empty_pools
      ≡ done (pos 0, w'))
    × (mq_open path to_open none plenty 8 w' ≡ done (pos 1, w''))
    × (w''.file_pool 0 ≡ opened_file to_create 7 0)
    × (w''.file_pool 1 ≡ opened_file to_open 8 0)
    × ((w''.queue_pool 0).mq_attr ≡ four_of_eight)
    × (numb_mess (w''.queue_pool 0) ≡ 0)
    × ((w''.queue_pool 0).sem ≡ some 0)
    × (w''.pool_access_sem ≡ 1)
create_open_example =
    create_open path to_create to_open four_of_eight none plenty plenty 7 8 empty_pools 0 0 1
      empty_pools-HasRoom path-IsName path-IsNewName refl refl refl refl supplied (omega arith)
      (omega arith) refl (λ k x y. absurd (omega arith))
  where
    supplied : IsSupplied to_create four_of_eight plenty
    supplied = record { array = refl; buffers = omega arith; sem = refl; waits = refl }
