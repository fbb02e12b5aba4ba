-- ===== src/Kernel/Life/Yielding.antt =====
-- `tk_yield` of src/tk_switch.c, what it wakes and buries, keeps the rows in order.
use tinker.Base.{
  ℕ, zero, suc, ◌+◌, ◌<◌, ◌≤◌, ◌≡◌, refl, subst, inl, inr, Bool, true, false, ◌&&◌, not, ltb, ◌==◌,
  if◌then◌else◌, Bool-cases, arith,
}
use tinker.Kernel.State.{Tuning, Kernel, done, Status, >>=-eq-done, ◌>>=◌, Outcome}
use tinker.Kernel.Family.{try_detach_parent}
use tinker.Kernel.Threads.{delete_thread}
use tinker.Kernel.Dispatch.{
  wake_sleeper, reap_told, reap, wakeup_from, wakeup_timedout, take_preempted, next_runable,
  yield_event, yield,
}
use tinker.Kernel.Rows.Defs.{IsSane}
use tinker.Kernel.Rows.Kin.{wake_sleeper-SameRows, try_detach_parent-SameRows}
use tinker.Kernel.Life.Face.{try_detach_parent-Spares}
use tinker.Kernel.Life.Orderly.{
  is_apart, IsOrderly, SparesApart, Keeps, Keeps-refl, Keeps-trans, SameRows-IsOrderly,
  same_table-Keeps, delete_thread-Keeps,
}

module _ {cfg : Tuning} (sane : IsSane cfg) (out : ℕ → Bool) where
  wake_sleeper-Keeps :
      (now i : ℕ) (k : Kernel) → IsOrderly cfg out k → Keeps cfg out k (wake_sleeper cfg now i k)
  wake_sleeper-Keeps now i k ok =
      (SameRows-IsOrderly sane out ok (wake_sleeper-SameRows cfg now i k) spared, spared)
    where
      spared : SparesApart out k (wake_sleeper cfg now i k)
      spared s a = unfold wake_sleeper in record { same = ground arith; latest = ground arith }

  reap_told-Keeps :
      (i : ℕ) (q : Bool × Kernel) {m : Kernel}
      → i < cfg.max_threads
      → is_apart out i ≡ false
      → IsOrderly cfg out q.1
      → reap_told cfg i q ≡ done m
      → Keeps cfg out q.1 m
  unfolding reap_told
  reap_told-Keeps i (true, k) {m} small a ok e =
      let d = >>=-eq-done (delete_thread cfg i k) (λ (r : Status × Kernel). done r.1) e in
      subst (Keeps cfg out k) (cc (d.2)) (delete_thread-Keeps sane out i k small a ok d.1)
  reap_told-Keeps i (false, k) {m} small a ok e =
      subst (Keeps cfg out k) (cc) (Keeps-refl sane out k ok)

  -- A zombie is not one of the threads that stay apart.
  reap-Keeps :
      (i : ℕ) (k : Kernel) {m : Kernel}
      → i < cfg.max_threads
      → IsOrderly cfg out k
      → reap cfg i k ≡ done m
      → Keeps cfg out k m
  unfolding reap
  reap-Keeps i k {m} small ok e =
      elim (Bool-cases ((k.pool i).state.zombi && not (i == k.active))) [
        | inr not_now ↦ subst (Keeps cfg out k) (ground arith) (Keeps-refl sane out k ok)
        | inl now ↦
            let told : (try_detach_parent i false k >>= reap_told cfg i) ≡ done m = ground arith in
            let q = >>=-eq-done (try_detach_parent i false k) (reap_told cfg i) told in
            let apart : is_apart out i ≡ false = ground (arith, ok.calm i) in
            let spared : SparesApart out k q.0.1 =
              λ s b. try_detach_parent-Spares s i false k q.1 in
            let kept : IsOrderly cfg out q.0.1 =
              SameRows-IsOrderly sane out ok (try_detach_parent-SameRows i false k q.1) spared in
            Keeps-trans sane out (kept, spared) (reap_told-Keeps i q.0 small apart kept q.2)
      ]

  -- What the loop of `_tk_wakeup_timedout_threads` does with one thread.
  abbrev one_round : ℕ → ℕ → Kernel → Outcome Kernel
  one_round now i k = if (k.pool i).valid then reap cfg i (wake_sleeper cfg now i k) else done k

  wakeup_from-Keeps :
      (now n i : ℕ) (k : Kernel) {m : Kernel}
      → i + n ≤ cfg.max_threads
      → IsOrderly cfg out k
      → wakeup_from cfg now i n k ≡ done m
      → Keeps cfg out k m
  unfolding wakeup_from
  wakeup_from-Keeps now zero i k h ok e = subst (Keeps cfg out k) (cc) (Keeps-refl sane out k ok)
  wakeup_from-Keeps now (suc n) i k {m} h ok e = elim (Bool-cases (ltb 0 k.npreempt)) [
    | inl stop ↦ subst (Keeps cfg out k) (ground arith) (Keeps-refl sane out k ok)
    | inr go ↦
        let below : i + 1 + n ≤ cfg.max_threads = omega arith in
        let r = >>=-eq-done (one_round now i k) (wakeup_from cfg now (i + 1) n) (ground arith) in
        let first = round-Keeps r.1 in
        Keeps-trans sane out first (wakeup_from-Keeps now n (i + 1) r.0 below first.0 r.2)
  ]
    where
      round-Keeps : {l : Kernel} → one_round now i k ≡ done l → Keeps cfg out k l
      round-Keeps {l} p = elim (Bool-cases (k.pool i).valid) [
        | inl live ↦
            let woken = wake_sleeper-Keeps now i k ok in
            Keeps-trans sane out woken
              (reap-Keeps i (wake_sleeper cfg now i k) (omega arith) woken.0 (ground arith))
        | inr gone ↦ subst (Keeps cfg out k) (ground arith) (Keeps-refl sane out k ok)
      ]

  -- Whatever `tk_yield` wakes and buries, the rows stay in order.
  pub yield-Keeps :
      (now : ℕ) (k : Kernel) {m : Kernel}
      → IsOrderly cfg out k
      → yield cfg now k ≡ done m
      → Keeps cfg out k m
  unfolding yield wakeup_timedout
  yield-Keeps now k {m} ok e =
      let a = >>=-eq-done (wakeup_timedout cfg now k) (after_wakeup) e in
      let b = >>=-eq-done (take_preempted cfg a.0) (yield_event cfg) a.2 in
      let woken = wakeup_from-Keeps now cfg.max_threads 0 k (omega arith) ok a.1 in
      Keeps-trans sane out woken (
        Keeps-trans sane out (taken-Keeps a.0 woken.0 b.1)
          (switched-Keeps b.0 (taken-Keeps a.0 woken.0 b.1).0 b.2))
    where
      after_wakeup : Kernel → Outcome Kernel
      after_wakeup k' = take_preempted cfg k' >>= yield_event cfg

      taken-Keeps :
          (l : Kernel) {x : Kernel}
          → IsOrderly cfg out l
          → take_preempted cfg l ≡ done x
          → Keeps cfg out l x
      taken-Keeps l {x} okl p =
          unfold take_preempted in
          same_table-Keeps sane out l x okl (ground arith) (ground arith) (ground arith)
            (ground arith)

      switched-Keeps :
          (l : Kernel) {x : Kernel}
          → IsOrderly cfg out l
          → yield_event cfg l ≡ done x
          → Keeps cfg out l x
      switched-Keeps l {x} okl p =
          unfold yield_event in
          (let d =
              >>=-eq-done (next_runable cfg l)
                (λ t. done (record l { thread_to_run = t; active = t })) p in
            let same : record l { thread_to_run = d.0; active = d.0 } ≡ x = cc (d.2) in
            subst (Keeps cfg out l) same (same_table-Keeps sane out l _ okl refl refl refl refl))
