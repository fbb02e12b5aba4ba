-- ===== src/Mqueue/Sort.antt =====
-- `compMess` and `sortByPrio` of src/mqueue.c, with the `qsort` of src/tk_ansi_search.c. That
-- function shows the element `a[i]` at the place `i + 1`. What stands in memory before the first
-- message of a queue, and what `malloc` returns for the copy, are arguments.
use tinker.Base.{
  Option, none, some, ℕ, zero, suc, ◌+◌, ◌-◌, ◌%◌, ltb, leb, ◌==◌, if◌then◌else◌, update,
}
use tinker.Kernel.State.{Outcome, done, hangs, ◌>>=◌}
use tinker.Search.Binary.{Sign, below, equal, above}
use tinker.Search.Sort.{qsort}
use tinker.Mqueue.State.{Order, Mess, QueueD, numb_mess}

abbrev pub comp_mess : Mess → Mess → Sign
comp_mess x y =
    let e1 : Order = x.order in
    let e2 : Order = y.order in
    if ltb e2.prio e1.prio
    then below
    else if ltb e1.prio e2.prio
    then above
    else if ltb e1.time e2.time
    then below
    else if ltb e2.time e1.time
    then above
    else if ltb e1.in_order e2.in_order
    then below
    else if ltb e2.in_order e1.in_order
    then above
    else equal

-- The messages of the queue as `qsort` sees them from the place `out` on.
abbrev pub seen_from : (out : ℕ) (before : Mess) → (ℕ → Mess) → ℕ → Mess
seen_from out before arr p = if out + p == 0 then before else arr (out + p - 1)

-- The array of the queue, after `qsort` left `b`.
abbrev pub stored_from : (out : ℕ) → (ℕ → Mess) → (ℕ → Mess) → ℕ → Mess
stored_from out b arr i = if ltb i out then arr i else b (i + 1 - out)

-- `tempT[j] = messArray[i]` for `n` messages.
unfoldable pub copy_out : (n i j max : ℕ) (arr temp : ℕ → Mess) → ℕ → Mess
copy_out zero i j max arr temp = temp
copy_out (suc n) i j max arr temp =
    copy_out n ((i + 1) % max) (j + 1) max arr (update temp (j + 1) (arr i))

-- `messArray[i] = tempT[j]` for `n` messages.
unfoldable pub copy_back : (n i j max : ℕ) (temp arr : ℕ → Mess) → ℕ → Mess
copy_back zero i j max temp arr = arr
copy_back (suc n) i j max temp arr =
    copy_back n ((i + 1) % max) (j + 1) max temp (update arr i (temp (j + 1)))

abbrev pub put_array : QueueD → (ℕ → Mess) → QueueD
put_array q arr = record q { box = record q.box { mess_array = arr } }

-- `sortByPrio`; `fresh` is what `malloc` returns for the copy, and without memory the copy goes to NULL.
unfoldable pub sort_by_prio : (before : Mess) (fresh : Option (ℕ → Mess)) → QueueD → Outcome QueueD
sort_by_prio before fresh q =
    let sz = numb_mess q in
    let out = q.box.m_idx_out in
    let max = q.mq_attr.maxmsg in
    let arr = q.box.mess_array in
    if leb out q.box.m_idx_in
    then (qsort comp_mess sz (seen_from out before arr) >>= λ b.
        done (put_array q (stored_from out b arr)))
    else elim fresh [
      | none ↦ hangs
      | some temp ↦ qsort comp_mess sz (copy_out sz out 0 max arr temp) >>= λ b.
          done (put_array q (copy_back sz out 0 max b arr))
    ]
