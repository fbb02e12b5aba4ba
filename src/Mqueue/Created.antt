-- ===== src/Mqueue/Created.antt =====
-- What the first `mq_open` of src/mqueue.c does for a name, its checks and its requests of memory.
use tinker.Base.{
  ℕ, zero, suc, ◌+◌, ◌≤◌, ◌<◌, ◌≡◌, refl, ap, ◌∙◌, Bool, true, false, not, ◌==◌, ◌||◌, List,
  if◌then◌else◌, lt→ltb, update, ℤ, pos, negsuc, Option, some, none, arith,
}
use tinker.Kernel.State.{done, ◌>>=◌}
use tinker.Mqueue.State.{
  Attr, Box, QueueD, Oflags, FileD, e_noent, Queues, number_of_queues, number_of_files, create_only,
  unlock_pool, put_queue, put_file, numb_mess,
}
use tinker.Mqueue.Open.{
  fill, find_free, find_name, Supply, blank_mess, made, furnish, make_queue, open_made, open_locked,
  file_at, make_file, open_queue, mq_open,
}
use tinker.Mqueue.Transfer.{fail_after_post}
use tinker.Mqueue.Enqueue.{locked, lock_pool-once}
use tinker.Mqueue.Opened.{find_free-first, IsName, HasRoom, IsNewName, marked, open_locked-creates}

fill-done :
    (n k : ℕ) (s : Supply) (b : Box) → k + n ≤ s.buffers → (x : Box) × (fill n k s b ≡ (true, x))
unfolding fill
fill-done zero k s b h = (b, refl)
fill-done (suc n) k s b h =
    let r =
      fill-done n (k + 1) s
        (record b {
          mess_array = update b.mess_array k (blank_mess (s.bytes k));
          last_in_order = 0;
        })
        (omega arith) in
    (r.0, rw (fill, lt→ltb k s.buffers (omega arith)) r.1)

-- What `mq_open` needs to make a queue that can wait.
pub record IsSupplied (flags : Oflags) (a : Attr) (s : Supply) : Type 0 where
  pub array : s.array_ok ≡ true
  pub buffers : a.maxmsg ≤ s.buffers
  pub sem : s.sem_ok ≡ true
  pub waits : flags.nonblock ≡ false

-- The flags ask for a descriptor.
abbrev pub IsAccess : Oflags → Type 0
IsAccess flags = flags.rdonly || flags.wronly || flags.rdwr ≡ true

furnish-done :
    (flags : Oflags) (a : Attr) (s : Supply) (b : Box) (qid : ℕ) (q : QueueD) (w : Queues)
    → IsSupplied flags a s
    → (x : Box) × (furnish flags a s.array_ok (fill a.maxmsg 0 s b) s.sem_ok qid q w
        ≡ done (
            made qid (
              put_queue w qid (record q {
                mq_attr = a;
                box = record x { m_idx_in = 0; m_idx_out = 0 };
                sem = some 0;
              }))))
unfolding furnish
furnish-done flags a s b qid q w ok =
    let r = fill-done a.maxmsg 0 s b (omega (arith, ok.buffers)) in
    let fresh = record q { mq_attr = a; box = record r.0 { m_idx_in = 0; m_idx_out = 0 } } in
    (
      r.0,
      ap (λ p. furnish flags a s.array_ok p s.sem_ok qid q w) r.1
          ∙ ap (λ c. furnish flags a c (true, r.0) s.sem_ok qid q w) ok.array
          ∙ ap (λ c. furnish flags a true (true, r.0) c qid q w) ok.sem
          ∙ ap
              (λ c.
                if c
                then done (made qid (put_queue w qid fresh))
                else done (made qid (put_queue w qid (record fresh { sem = some 0 }))))
              ok.waits,
    )

pub make_file-free :
    (flags : Oflags) (self qid d : ℕ) (w : Queues)
    → w.f_p_idx ≡ 0
    → d < number_of_files
    → (w.file_pool d).taken ≡ false
    → ((k : ℕ) → k < d → (w.file_pool k).taken ≡ true)
    → make_file flags self qid w ≡ (
      pos d,
      unlock_pool (put_file w d (record { taken = true; t_id = self; oflags = flags; q_id = qid })),
    )
unfolding make_file file_at
make_file-free flags self qid d w e h free all =
    ap
      (λ i.
        let slot = find_free number_of_files i 0 number_of_files (λ k. (w.file_pool k).taken) in
        file_at flags self qid w slot.0 slot.1)
      e
    ∙ ap (λ p. file_at flags self qid w p.0 p.1)
        (find_free-first number_of_files 0 number_of_files d (λ k. (w.file_pool k).taken) refl
          (omega arith) h free (λ k x y. all k y))
    ∙ rw (file_at, d_not_last) refl
  where
    d_not_last : d == number_of_files ≡ false
    d_not_last = ground arith

module _ (name : List ℕ) (flags : Oflags) (self qid : ℕ) (w : Queues)
    (access : IsAccess flags) where
  -- `open_queue` with its tests and its search as arguments.
  abbrev open_by : (asks creates : Bool) → Option ℕ → ℤ × Queues
  open_by asks creates found =
      if not asks
      then (pos create_only, unlock_pool w)
      else if creates
      then make_file flags self qid w
      else elim found [
        | none ↦ (negsuc 0, fail_after_post w e_noent)
        | some i ↦ make_file flags self i w
      ]

  open_queue-created :
      flags.creat ≡ true → open_queue name flags self qid w ≡ make_file flags self qid w
  unfolding open_queue
  open_queue-created creates =
      ap (λ b. open_by b flags.creat (find_name number_of_queues 0 w.queue_pool name)) access
      ∙ ap (λ b. open_by true b (find_name number_of_queues 0 w.queue_pool name)) creates

  pub open_queue-found :
      (i : ℕ)
      → flags.creat ≡ false
      → find_name number_of_queues 0 w.queue_pool name ≡ some i
      → open_queue name flags self qid w ≡ make_file flags self i w
  unfolding open_queue
  open_queue-found i finds found =
      ap (λ b. open_by b flags.creat (find_name number_of_queues 0 w.queue_pool name)) access
      ∙ ap (λ b. open_by true b (find_name number_of_queues 0 w.queue_pool name)) finds
      ∙ ap (open_by true false) found

-- The descriptor that `mq_open` writes.
abbrev pub opened_file : (flags : Oflags) (self qid : ℕ) → FileD
opened_file flags self qid = record { taken = true; t_id = self; oflags = flags; q_id = qid }

-- The queue that `mq_open` writes.
abbrev pub new_queue : List ℕ → Attr → Box → QueueD
new_queue name a x = record {
  taken = true;
  mq_name = name;
  mq_attr = a;
  box = record x { m_idx_in = 0; m_idx_out = 0 };
  sem = some 0;
}

pub new_queue-numb_mess : (name : List ℕ) (a : Attr) (x : Box) → numb_mess (new_queue name a x) ≡ 0
unfolding numb_mess
new_queue-numb_mess name a x = refl

-- The state after a queue is made at the place `m` and opened at `d`.
abbrev pub created_state :
    (name : List ℕ) (flags : Oflags) (a : Attr) (self m d : ℕ) → Box → Queues → Queues
created_state name flags a self m d x w =
    unlock_pool (
      put_file (put_queue (marked (locked w) m) m (new_queue name a x)) d
        (opened_file flags self m))

pub mq_open-creates :
    (name : List ℕ) (flags : Oflags) (a : Attr) (s : Supply) (self : ℕ) (w : Queues) (m d : ℕ)
    → HasRoom w m d
    → IsName name
    → IsNewName name w
    → IsAccess flags
    → flags.creat ≡ true
    → IsSupplied flags a s
    → (x : Box) × (mq_open name flags (some a) s self w
        ≡ done (pos d, created_state name flags a self m d x w))
unfolding mq_open make_queue
mq_open-creates name flags a s self w m d room is_name new access creates ok =
    let v = marked (locked w) m in
    let q = record (v.queue_pool m) { taken = true; mq_name = name } in
    let r = furnish-done flags a s (record q.box { mess_array = s.garbage }) m q v ok in
    let v' = put_queue v m (new_queue name a r.0) in
    (
      r.0,
      lock_pool-once w (open_locked name flags (some a) s self) room.started
            (omega (arith, room.unlocked))
          ∙ open_locked-creates name flags (some a) s self w m d room is_name new creates
          ∙ ap (λ o. o >>= open_made name flags self) r.1
          ∙ ap done (
              open_queue-created name flags self m v' access creates
              ∙ make_file-free flags self m d v' room.files_from room.file_small room.file_free
                  room.files_before),
    )
