-- ===== src/Mqueue/Reopened.antt =====
-- A queue of src/mqueue.c that one call of `mq_open` creates and another one opens.
use tinker.Base.{
  ℕ, ◌≤◌, ◌<◌, ◌≡◌, ◌≢◌, ap, ◌∙◌, inl, inr, true, false, ltb, ◌==◌, ◌&&◌, List, length,
  if◌then◌else◌, Bool-cases, ltb→lt, ltb→le, le→ltb, ==→ne, ==→eq, update_self, update_ne, pos,
  Option, some, arith,
}
use tinker.Base.Names.{same_name, same_name_refl}
use tinker.Kernel.State.{done, ◌>>=◌}
use tinker.Mqueue.State.{
  Attr, Oflags, Queues, number_of_queues, number_of_files, qname_len, unlock_pool, put_file,
  numb_mess,
}
use tinker.Mqueue.Open.{
  find_name, Supply, create_queue, open_made, open_locked, open_queue, mq_open,
}
use tinker.Mqueue.Enqueue.{locked, lock_pool-once}
use tinker.Mqueue.Opened.{find_name-only, IsName, HasRoom, IsNewName, and_false, marked}
use tinker.Mqueue.Created.{
  IsSupplied, IsAccess, make_file-free, open_queue-found, opened_file, new_queue,
  new_queue-numb_mess, created_state, mq_open-creates,
}

open_locked-finds :
    (name : List ℕ) (flags : Oflags) (attr : Option Attr) (s : Supply) (self : ℕ) (w : Queues)
    → IsName name
    → flags.creat ≡ false
    → open_locked name flags attr s self w ≡ done (open_queue name flags self 0 w)
unfolding open_locked
open_locked-finds name flags attr s self w is_name finds =
    rw (open_locked, le→ltb qname_len (length name) is_name.short, is_name.slash)
      (ap
        (λ b.
          if b
          then create_queue name flags attr s w >>= open_made name flags self
          else done (open_queue name flags self 0 w))
        finds)

-- A queue that `mq_open` creates is the one that a later `mq_open` of the same name without O_CREAT
-- opens: both return a descriptor of their own, both descriptors are for that queue, and the queue has
-- the attributes that it was created with, no message and no token.
pub create_open :
    (name : List ℕ) (flags flags' : Oflags) (a : Attr) (attr : Option Attr) (s s' : Supply)
    (self self' : ℕ) (w : Queues) (m d e : ℕ)
    → HasRoom w m d
    → IsName name
    → IsNewName name w
    → IsAccess flags
    → IsAccess flags'
    → flags.creat ≡ true
    → flags'.creat ≡ false
    → IsSupplied flags a s
    → d < e
    → e < number_of_files
    → (w.file_pool e).taken ≡ false
    → ((k : ℕ) → d < k → k < e → (w.file_pool k).taken ≡ true)
    → (w' : Queues) × (w'' : Queues) × (mq_open name flags (some a) s self w ≡ done (pos d, w'))
      × (mq_open name flags' attr s' self' w' ≡ done (pos e, w''))
      × (w''.file_pool d ≡ opened_file flags self m)
      × (w''.file_pool e ≡ opened_file flags' self' m)
      × ((w''.queue_pool m).mq_attr ≡ a)
      × (numb_mess (w''.queue_pool m) ≡ 0)
      × ((w''.queue_pool m).sem ≡ some 0)
      × (w''.pool_access_sem ≡ 1)
unfolding mq_open
create_open name flags flags' a attr s s' self self' w m d e room is_name new access access' creates
      finds ok above small free all =
    let r = mq_open-creates name flags a s self w m d room is_name new access creates ok in
    let w' : Queues = created_state name flags a self m d r.0 w in
    let unlocked : w'.pool_access_sem ≡ 1 = omega (arith, room.unlocked) in
    let here : w'.queue_pool m ≡ new_queue name a r.0 =
      update_self (marked (locked w) m).queue_pool m (new_queue name a r.0) in
    let others : (k : ℕ)
        → 0 ≤ k
        → k < m
        → (w'.queue_pool k).taken && same_name qname_len (w'.queue_pool k).mq_name name ≡ false =
      λ k x y. and_false (w'.queue_pool k).taken _ (
        ap (λ q. same_name qname_len q.mq_name name)
          (update_ne (marked (locked w) m).queue_pool m k (new_queue name a r.0) (λ g. omega arith)
            ∙ update_ne w.queue_pool m k (record (w.queue_pool m) { taken = true })
                (λ g. omega arith))
        ∙ new k (omega (arith, room.queue_small))) in
    let file_other : (k : ℕ) → k ≢ d → w'.file_pool k ≡ w.file_pool k =
      λ k g. update_ne w.file_pool d k (opened_file flags self m) g in
    let files_taken : (k : ℕ) → k < e → (w'.file_pool k).taken ≡ true = λ k x.
      elim (Bool-cases (k == d)) [
        | inl same ↦
            ap (λ i. (w'.file_pool i).taken) (==→eq k d same)
            ∙ ap (λ x. x.taken) (update_self w.file_pool d (opened_file flags self m))
        | inr other ↦
            ap (λ x. x.taken) (file_other k (==→ne k d other))
            ∙ before_or_after k x (==→ne k d other)
      ] in
    let found : find_name number_of_queues 0 (locked w').queue_pool name ≡ some m =
      find_name-only number_of_queues 0 m w'.queue_pool name (omega arith) room.queue_small
        (ap (λ x. x.taken && same_name qname_len x.mq_name name) here
          ∙ same_name_refl qname_len name)
        others in
    (
      w',
      unlock_pool (put_file (locked w') e (opened_file flags' self' m)),
      r.1,
      lock_pool-once w' (open_locked name flags' attr s' self') room.started
            (omega (arith, unlocked))
          ∙ open_locked-finds name flags' attr s' self' (locked w') is_name finds
          ∙ ap done (
              open_queue-found name flags' self' 0 (locked w') access' m finds found
              ∙ make_file-free flags' self' m e (locked w') room.files_from small
                  (ap (λ x. x.taken) (file_other e (λ g. omega arith)) ∙ free) files_taken),
      update_ne w'.file_pool e d (opened_file flags' self' m) (λ g. omega arith)
          ∙ update_self w.file_pool d (opened_file flags self m),
      update_self (locked w').file_pool e (opened_file flags' self' m),
      ap (λ x. x.mq_attr) here,
      ap numb_mess here ∙ new_queue-numb_mess name a r.0,
      ap (λ x. x.sem) here,
      omega (arith, unlocked),
    )
  where
    before_or_after : (k : ℕ) → k < e → k ≢ d → (w.file_pool k).taken ≡ true
    before_or_after k x g = elim (Bool-cases (ltb k d)) [
      | inl less ↦ room.files_before k (ltb→lt k d less)
      | inr more ↦ let h = ltb→le k d more in all k (omega arith) x
    ]
