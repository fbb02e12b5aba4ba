-- ===== src/Mqueue/Opened.antt =====
-- What `mq_open` of src/mqueue.c finds and leaves.
use tinker.Base.{
  ℕ, zero, suc, ◌+◌, ◌-◌, ◌%◌, ◌≤◌, ◌<◌, ◌≡◌, refl, sym, ap, ◌∙◌, inl, inr, Bool, true, false, ◌==◌,
  ◌&&◌, List, length, if◌then◌else◌, Bool-cases, le→ltb, ==→ne, ==→eq, ℤ, negsuc, Option, some,
  none, mod-eq_of_lt, arith,
}
use tinker.Base.Names.{same_name}
use tinker.Kernel.State.{Outcome, done, hangs, ◌>>=◌}
use tinker.Mqueue.State.{
  Attr, Mess, QueueD, Oflags, e_inval, Queues, number_of_queues, number_of_files, qname_len,
  lock_pool, set_errno, put_queue, once,
}
use tinker.Mqueue.Open.{
  starts_with_slash, find_free, find_name, Supply, make_queue, create_at, create_queue, open_made,
  open_locked, open_queue, mq_open,
}
use tinker.Mqueue.Transfer.{send_locked, mq_send, receive_locked, receive_begin}
use tinker.Mqueue.Enqueue.{locked, once-started, lock_pool-once}

-- The search ends at the first free place, if there is one.
pub find_free-first :
    (n i size m : ℕ) (taken : ℕ → Bool)
    → i + n ≡ size
    → i ≤ m
    → m < size
    → taken m ≡ false
    → ((k : ℕ) → i ≤ k → k < m → taken k ≡ true)
    → find_free n i i size taken ≡ (m, m)
unfolding find_free
find_free-first zero i size m taken e h g free all = absurd (omega arith)
find_free-first (suc n) i size m taken e h g free all = elim (Bool-cases (i == m)) [
  | inl here ↦ rw (ap taken (==→eq i m here) ∙ free) (ap (λ x. (x, x)) (==→eq i m here))
  | inr on ↦
      let apart = ==→ne i m on in
      let next : (i + 1) % size ≡ i + 1 = mod-eq_of_lt (omega arith) in
      rw (all i (omega arith) (omega arith), next)
        (find_free-first n (i + 1) size m taken (omega arith) (omega arith) g free
          (λ k x y. all k (omega arith) y))
]

-- No queue from `i` on has the name.
pub find_name-none :
    (n i : ℕ) (pool : ℕ → QueueD) (name : List ℕ)
    → ((k : ℕ)
        → i ≤ k
        → k < i + n
        → (pool k).taken && same_name qname_len (pool k).mq_name name ≡ false)
    → find_name n i pool name ≡ none
unfolding find_name
find_name-none zero i pool name h = refl
find_name-none (suc n) i pool name h =
    rw (h i (omega arith) (omega arith))
      (find_name-none n (i + 1) pool name (λ k x y. h k (omega arith) (omega arith)))

-- Only the queue `m` has the name.
pub find_name-only :
    (n i m : ℕ) (pool : ℕ → QueueD) (name : List ℕ)
    → i ≤ m
    → m < i + n
    → (pool m).taken && same_name qname_len (pool m).mq_name name ≡ true
    → ((k : ℕ)
        → i ≤ k
        → k < m
        → (pool k).taken && same_name qname_len (pool k).mq_name name ≡ false)
    → find_name n i pool name ≡ some m
unfolding find_name
find_name-only zero i m pool name h g e all = absurd (omega arith)
find_name-only (suc n) i m pool name h g e all = elim (Bool-cases (i == m)) [
  | inl here ↦
      rw
        (ap (λ x. (pool x).taken && same_name qname_len (pool x).mq_name name) (==→eq i m here) ∙ e)
        (ap some (==→eq i m here))
  | inr on ↦
      let apart = ==→ne i m on in
      rw (all i (omega arith) (omega arith)) (
        find_name-only n (i + 1) m pool name (omega arith) (omega arith) e
          (λ k x y. all k (omega arith) y))
]

-- A name that `mq_open` takes.
pub record IsName (name : List ℕ) : Type 0 where
  pub short : length name ≤ qname_len
  pub slash : starts_with_slash name ≡ true

-- The pools between two calls, with `m` the first free place for a queue and `d` that for a file.
pub record HasRoom (w : Queues) (m d : ℕ) : Type 0 where
  pub started : w.started ≡ true
  pub unlocked : w.pool_access_sem ≡ 1
  pub queues_from : w.q_p_idx ≡ 0
  pub files_from : w.f_p_idx ≡ 0
  pub queue_small : m < number_of_queues
  pub queue_free : (w.queue_pool m).taken ≡ false
  pub queues_before : (k : ℕ) → k < m → (w.queue_pool k).taken ≡ true
  pub file_small : d < number_of_files
  pub file_free : (w.file_pool d).taken ≡ false
  pub files_before : (k : ℕ) → k < d → (w.file_pool k).taken ≡ true

-- No place has the name; that of a free place is empty.
abbrev pub IsNewName : List ℕ → Queues → Type 0
IsNewName name w =
    (k : ℕ) → k < number_of_queues → same_name qname_len (w.queue_pool k).mq_name name ≡ false

-- The place `m` marked as taken.
abbrev pub marked : Queues → ℕ → Queues
marked w m = put_queue w m (record (w.queue_pool m) { taken = true })

pub and_false : (b c : Bool) → c ≡ false → b && c ≡ false
and_false true c h = h
and_false false c h = refl

module _ (name : List ℕ) (flags : Oflags) (attr : Option Attr) (s : Supply) (self : ℕ) (w : Queues)
    (m d : ℕ) (room : HasRoom w m d) where
  free_place :
      find_free number_of_queues (locked w).q_p_idx 0 number_of_queues (λ i. (w.queue_pool i).taken)
      ≡ (m, m)
  free_place =
      ap (λ i. find_free number_of_queues i 0 number_of_queues (λ k. (w.queue_pool k).taken))
        room.queues_from
      ∙ find_free-first number_of_queues 0 number_of_queues m (λ i. (w.queue_pool i).taken) refl
          (omega arith) room.queue_small room.queue_free (λ k x y. room.queues_before k y)

  marked-new : IsNewName name w → find_name number_of_queues 0 (marked w m).queue_pool name ≡ none
  marked-new new = find_name-none number_of_queues 0 (marked w m).queue_pool name (λ k x y.
      and_false ((marked w m).queue_pool k).taken _ (elim (Bool-cases (k == m)) [
        | inl here ↦ rw here (
            ap (λ i. same_name qname_len (w.queue_pool i).mq_name name) (sym (==→eq k m here))
            ∙ new k y)
        | inr other ↦ rw other (new k y)
      ]))

  create_queue-made :
      IsNewName name w
      → create_queue name flags attr s (locked w)
        ≡ make_queue name flags attr s m (marked (locked w) m)
  unfolding create_queue create_at
  create_queue-made new =
      ap (λ p. create_at name flags attr s (locked w) p.0 p.1) free_place
      ∙ rw (create_at, m_not_last, marked-new new) refl
    where
      m_not_last : m == number_of_queues ≡ false
      m_not_last = ground (arith, room.queue_small)

  pub open_locked-creates :
      IsName name
      → IsNewName name w
      → flags.creat ≡ true
      → open_locked name flags attr s self (locked w)
        ≡ (make_queue name flags attr s m (marked (locked w) m) >>= open_made name flags self)
  unfolding open_locked
  open_locked-creates is_name new creates =
      rw (open_locked, le→ltb qname_len (length name) is_name.short, is_name.slash)
        (ap
            (λ b.
              if b
              then create_queue name flags attr s (locked w) >>= open_made name flags self
              else done (open_queue name flags self 0 (locked w)))
            creates
          ∙ ap (λ o. o >>= open_made name flags self) (create_queue-made new))

lock_pool-hangs {ℓ} :
    {A : Type ℓ} (w : Queues) (rest : Queues → Outcome A)
    → w.started ≡ true
    → w.pool_access_sem ≡ 0
    → lock_pool (once w) rest ≡ hangs
lock_pool-hangs w rest init none_left =
    ap (λ v. lock_pool v rest) (once-started w init)
    ∙ ap (λ n. if n == 0 then hangs else rest (locked w)) none_left

-- `mq_open` with O_CREAT and without attributes, for a name that no queue has, returns -1 and keeps the
-- lock of the pools: every call of `mq_send`, `mq_receive` and `mq_open` from then on waits for ever.
pub mq_open-no_attr :
    (name : List ℕ) (flags : Oflags) (s : Supply) (self : ℕ) (w : Queues) (m d : ℕ)
    → HasRoom w m d
    → IsName name
    → IsNewName name w
    → flags.creat ≡ true
    → (w' : Queues) × (mq_open name flags none s self w ≡ done (negsuc 0, w'))
      × ((before : Mess) (fresh : Option (ℕ → Mess)) (other now : ℕ) (mq : ℤ) (msg : ℕ → ℕ)
            (len prio : ℕ)
          → mq_send before fresh other now mq msg len prio w' ≡ hangs)
      × ((other : ℕ) (mq : ℤ) (len : ℕ) → receive_begin other mq len w' ≡ hangs)
      × ((name' : List ℕ) (flags' : Oflags) (attr : Option Attr) (s' : Supply) (other : ℕ)
          → mq_open name' flags' attr s' other w' ≡ hangs)
unfolding mq_open make_queue mq_send receive_begin
mq_open-no_attr name flags s self w m d room is_name new creates =
    let v = marked (locked w) m in
    let w' : Queues =
      set_errno (put_queue v m (record (v.queue_pool m) { taken = true; mq_name = name }))
        e_inval in
    let shut : w'.pool_access_sem ≡ 0 = ap (λ n. n - 1) room.unlocked in
    (
      w',
      lock_pool-once w (open_locked name flags none s self) room.started
            (omega (arith, room.unlocked))
          ∙ open_locked-creates name flags none s self w m d room is_name new creates,
      λ before fresh other now mq msg len prio.
          lock_pool-hangs w' (send_locked before fresh other now mq msg len prio) room.started shut,
      λ other mq len. lock_pool-hangs w' (receive_locked other mq len) room.started shut,
      λ name' flags' attr s' other.
          lock_pool-hangs w' (open_locked name' flags' attr s' other) room.started shut,
    )
