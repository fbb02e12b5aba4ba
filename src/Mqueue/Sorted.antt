-- ===== src/Mqueue/Sorted.antt =====
-- What `sortByPrio` of src/mqueue.c leaves.
use tinker.Base.{
  some, ℕ, ◌+◌, ◌-◌, ◌≤◌, ◌<◌, ◌≡◌, refl, sym, ap, subst, ◌∙◌, inl, inr, false, leb, ◌==◌,
  if◌then◌else◌, Bool-cases, arith,
}
use tinker.Kernel.State.{done, ◌>>=◌}
use tinker.Search.Binary.{Sign}
use tinker.Search.Sort.{quicksort, qsort}
use tinker.Search.Shuffle.{IsRearranged}
use tinker.Search.Scans.{InOrder, InOrder-carry}
use tinker.Search.Sorted.{IsGuarded, qsort-IsAscending}
use tinker.Mqueue.State.{Mess, QueueD, numb_mess}
use tinker.Mqueue.Sort.{
  comp_mess, seen_from, stored_from, copy_out, copy_back, put_array, sort_by_prio,
}
use tinker.Mqueue.Prio.{comp_mess-IsOrder}
use tinker.Mqueue.Places.{
  QueueOk, start, nth, numb_mess-lt, place-straight, copy_out-before, copy_out-inside,
  copy_back-inside,
}

-- The first `n` of `g` are those of `f`, each as often, at the places that `from` tells.
pub record IsReordered {ℓ} {A : Type ℓ} (n : ℕ) (f g : ℕ → A) : Type ℓ where
  pub from : ℕ → ℕ
  pub back : ℕ → ℕ
  pub from_small : (k : ℕ) → k < n → from k < n
  pub back_small : (k : ℕ) → k < n → back k < n
  pub from_back : (k : ℕ) → k < n → from (back k) ≡ k
  pub back_from : (k : ℕ) → k < n → back (from k) ≡ k
  pub moved : (k : ℕ) → k < n → g k ≡ f (from k)

-- What the sort reads in front of the messages.
abbrev pub edge_mess : (before : Mess) (fresh : ℕ → Mess) → QueueD → Mess
edge_mess before fresh q =
    if leb q.box.m_idx_out q.box.m_idx_in
    then if q.box.m_idx_out == 0 then before else q.box.mess_array (q.box.m_idx_out - 1)
    else fresh 0

-- The queue holds the messages of `f`, sorted.
pub record IsSortedFrom (n : ℕ) (f : ℕ → Mess) (q : QueueD) : Type 0 where
  pub ascending : (i j : ℕ) → i ≤ j → j < n → InOrder comp_mess (nth q i) (nth q j)
  pub reordered : IsReordered n f (nth q)

pub IsSortedFrom-cong :
    {n m : ℕ} {f h : ℕ → Mess} {q : QueueD}
    → n ≡ m
    → ((k : ℕ) → k < m → f k ≡ h k)
    → IsSortedFrom n f q
    → IsSortedFrom m h q
IsSortedFrom-cong e same s =
    let w = s.reordered in
    record {
      ascending = λ i j x y. s.ascending i j x (omega arith);
      reordered = record {
        from = w.from;
        back = w.back;
        from_small = λ k x. omega (arith, w.from_small k (omega arith));
        back_small = λ k x. omega (arith, w.back_small k (omega arith));
        from_back = λ k x. w.from_back k (omega arith);
        back_from = λ k x. w.back_from k (omega arith);
        moved = λ k x.
            w.moved k (omega arith) ∙ same (w.from k) (omega (arith, w.from_small k (omega arith)));
      };
    }

module _ {ℓ} {A : Type ℓ} {n : ℕ} {f g v b : ℕ → A} where
  -- The same, with the places of `qsort`.
  IsRearranged-IsReordered :
      ((k : ℕ) → k < n → v (k + 1) ≡ f k)
      → ((k : ℕ) → k < n → g k ≡ b (k + 1))
      → IsRearranged 1 n v b
      → IsReordered n f g
  IsRearranged-IsReordered h e w = record {
    from = λ k. w.from (k + 1) - 1;
    back = λ k. w.back (k + 1) - 1;
    from_small = λ k x. omega (arith, w.inside (k + 1) (omega arith) (omega arith));
    back_small = λ k x. omega (arith, w.inside_back (k + 1) (omega arith) (omega arith));
    from_back = λ k x.
        ap (λ p. w.from p - 1) {x = w.back (k + 1) - 1 + 1} {y = w.back (k + 1)}
          (omega (arith, w.inside_back (k + 1) (omega arith) (omega arith)))
        ∙ ap (λ p. p - 1) (w.from_back (k + 1))
        ∙ omega arith;
    back_from = λ k x.
        ap (λ p. w.back p - 1) {x = w.from (k + 1) - 1 + 1} {y = w.from (k + 1)}
          (omega (arith, w.inside (k + 1) (omega arith) (omega arith)))
        ∙ ap (λ p. p - 1) (w.back_from (k + 1))
        ∙ omega arith;
    moved = λ k x.
        e k x
        ∙ w.moved (k + 1)
        ∙ sym (
            ap v {x = w.from (k + 1) - 1 + 1} {y = w.from (k + 1)}
              (omega (arith, w.inside (k + 1) (omega arith) (omega arith))))
        ∙ h (w.from (k + 1) - 1) (omega (arith, w.inside (k + 1) (omega arith) (omega arith)));
  }

pub not_zero : (x : ℕ) → 0 < x → (x == 0) ≡ false
not_zero x h = ground arith

seen_from-inside :
    (out k : ℕ) (before : Mess) (arr : ℕ → Mess) → seen_from out before arr (k + 1) ≡ arr (out + k)
seen_from-inside out k before arr =
    rw (not_zero (out + (k + 1)) (omega arith))
      (ap arr {x = out + (k + 1) - 1} {y = out + k} (omega arith))

stored_from-inside : (out k : ℕ) (b arr : ℕ → Mess) → stored_from out b arr (out + k) ≡ b (k + 1)
stored_from-inside out k b arr = ground arith

module _ (before : Mess) (fresh : ℕ → Mess) (q : QueueD) (ok : QueueOk q) where
  -- What `qsort` is given.
  abbrev sort_view : ℕ → Mess
  sort_view =
      if leb q.box.m_idx_out q.box.m_idx_in
      then seen_from q.box.m_idx_out before q.box.mess_array
      else copy_out (numb_mess q) q.box.m_idx_out 0 q.mq_attr.maxmsg q.box.mess_array fresh

  -- What is made of its result.
  abbrev sort_result : (ℕ → Mess) → QueueD
  sort_result b =
      if leb q.box.m_idx_out q.box.m_idx_in
      then put_array q (stored_from q.box.m_idx_out b q.box.mess_array)
      else put_array q
          (copy_back (numb_mess q) q.box.m_idx_out 0 q.mq_attr.maxmsg b q.box.mess_array)

  sort_by_prio_view :
      sort_by_prio before (some fresh) q
      ≡ (qsort comp_mess (numb_mess q) sort_view >>= λ b. done (sort_result b))
  unfolding sort_by_prio
  sort_by_prio_view = elim (Bool-cases (leb q.box.m_idx_out q.box.m_idx_in)) [
    | inl h ↦ rw h refl
    | inr h ↦ rw h refl
  ]

  sort_view-edge : sort_view 0 ≡ edge_mess before fresh q
  sort_view-edge = elim (Bool-cases (leb q.box.m_idx_out q.box.m_idx_in)) [
    | inl h ↦ rw h (
        ap (λ p. if p == 0 then before else q.box.mess_array (p - 1)) {x = q.box.m_idx_out + 0}
          {y = q.box.m_idx_out} (omega arith))
    | inr h ↦ rw h (
        copy_out-before q.mq_attr.maxmsg (numb_mess q) q.box.m_idx_out 0 0 q.box.mess_array fresh
          (omega arith))
  ]

  sort_view-nth : (k : ℕ) → k < numb_mess q → sort_view (k + 1) ≡ nth q k
  sort_view-nth k h = elim (Bool-cases (leb q.box.m_idx_out q.box.m_idx_in)) [
    | inl g ↦ rw g (
        seen_from-inside q.box.m_idx_out k before q.box.mess_array
        ∙ ap q.box.mess_array (sym (place-straight q k ok g h)))
    | inr g ↦ rw g (
        copy_out-inside q.mq_attr.maxmsg (numb_mess q) q.box.m_idx_out 0 q.box.m_idx_out k
          q.box.mess_array fresh (start q ok) (omega arith) (omega arith))
  ]

  sort_result-nth : (b : ℕ → Mess) (k : ℕ) → k < numb_mess q → nth (sort_result b) k ≡ b (k + 1)
  sort_result-nth b k h = elim (Bool-cases (leb q.box.m_idx_out q.box.m_idx_in)) [
    | inl g ↦ rw g (
        ap (stored_from q.box.m_idx_out b q.box.mess_array) (place-straight q k ok g h)
        ∙ stored_from-inside q.box.m_idx_out k b q.box.mess_array)
    | inr g ↦ rw g (
        copy_back-inside q.mq_attr.maxmsg (numb_mess q) q.box.m_idx_out 0 q.box.m_idx_out k
          q.box.mess_array b ok.out_small (omega (arith, numb_mess-lt q ok)) (start q ok)
          (omega arith) (omega arith))
  ]

  sort_result-array : (b : ℕ → Mess) → sort_result b ≡ put_array q (sort_result b).box.mess_array
  sort_result-array b = elim (Bool-cases (leb q.box.m_idx_out q.box.m_idx_in)) [
    | inl h ↦ rw h refl
    | inr h ↦ rw h refl
  ]

  -- The sort ends if no message would go before the one that it reads in front. The messages are then
  -- in order, and each is there as often as before; nothing but the array has changed.
  pub sort_by_prio-IsSortedFrom :
      ((k : ℕ) → k < numb_mess q → InOrder comp_mess (edge_mess before fresh q) (nth q k))
      → (arr : ℕ → Mess) × (sort_by_prio before (some fresh) q ≡ done (put_array q arr))
        × IsSortedFrom (numb_mess q) (nth q) (put_array q arr)
  sort_by_prio-IsSortedFrom edge =
      let r = qsort-IsAscending comp_mess (numb_mess q) sort_view comp_mess-IsOrder guarded in
      (
        (sort_result r.0).box.mess_array,
        sort_by_prio_view
            ∙ ap (λ o. o >>= λ b. done (sort_result b)) r.1
            ∙ ap done (sort_result-array r.0),
        subst (IsSortedFrom (numb_mess q) (nth q)) (sort_result-array r.0) (record {
          ascending = λ i j x y.
              InOrder-carry comp_mess comp_mess-IsOrder (sort_result-nth r.0 i (omega arith))
                (sort_result-nth r.0 j y)
                (r.2 (i + 1) (j + 1) (omega arith) (omega arith) (omega arith));
          reordered = IsRearranged-IsReordered sort_view-nth (sort_result-nth r.0) r.3;
        }),
      )
    where
      guarded : IsGuarded comp_mess 1 (numb_mess q) sort_view
      guarded p x y =
          InOrder-carry comp_mess comp_mess-IsOrder sort_view-edge
            (ap sort_view {x = p} {y = p - 1 + 1} (omega arith)
              ∙ sort_view-nth (p - 1) (omega arith))
            (edge (p - 1) (omega arith))

qsort-single {ℓ} :
    {A : Type ℓ} (cmp : A → A → Sign) (count : ℕ) (a : ℕ → A)
    → count ≡ 1
    → qsort cmp count a ≡ done a
unfolding qsort quicksort
qsort-single cmp count a h = rw h refl

-- A single message stays as it is, whatever stands in front.
pub sort_by_prio-single :
    (before : Mess) (fresh : ℕ → Mess) (q : QueueD)
    → QueueOk q
    → numb_mess q ≡ 1
    → (arr : ℕ → Mess) × (sort_by_prio before (some fresh) q ≡ done (put_array q arr))
      × (nth (put_array q arr) 0 ≡ nth q 0)
sort_by_prio-single before fresh q ok one =
    let v = sort_view before fresh q ok in
    let b = sort_result before fresh q ok v in
    let same = sort_result-array before fresh q ok v in
    (
      b.box.mess_array,
      sort_by_prio_view before fresh q ok
          ∙ ap (λ o. o >>= λ x. done (sort_result before fresh q ok x))
              (qsort-single comp_mess (numb_mess q) v one)
          ∙ ap done same,
      ap (λ p. nth p 0) (sym same)
          ∙ sort_result-nth before fresh q ok v 0 (omega arith)
          ∙ sort_view-nth before fresh q ok 0 (omega arith),
    )
