-- ===== src/Kernel/Rotation.antt =====
-- Whether threads of one priority take turns: `_tk_next_runable_thread` reads `curr_idx` and no code
-- moves it on.
use tinker.Base.{ℕ, zero, suc, ◌+◌, ◌%◌, ◌≡◌, refl, subst, Option, none, some, arith}
use tinker.Kernel.State.{Tuning, Kernel, Outcome, done, exited, hangs, ◌>>=◌}
use tinker.Kernel.Dispatch.{Found, scan_row, scan_levels, next_runable, yield_event}

-- The kernel after a switch to `t`.
abbrev switched : ℕ → Kernel → Kernel
switched t k = record k { thread_to_run = t; active = t }

scan_row-switched :
    (t p len idx n : ℕ) (last : Option ℕ) (k : Kernel)
    → scan_row p len idx n last (switched t k) ≡ scan_row p len idx n last k
unfolding scan_row
scan_row-switched t p len idx zero last k = refl
scan_row-switched t p len idx (suc n) last k =
    rw (scan_row-switched t p len ((idx + 1) % len) n (some (k.pool (k.schedule p idx)).thid) k)

scan_levels-switched :
    (t n p : ℕ) (last : Option ℕ) (k : Kernel)
    → scan_levels n p last (switched t k) ≡ scan_levels n p last k
unfolding scan_levels
scan_levels-switched t zero p last k = refl
scan_levels-switched t (suc n) p last k =
    rw
      (scan_row-switched t p (k.rr p).procs_at_prio (k.rr p).curr_idx (k.rr p).procs_at_prio last k)
      (settle (scan_row p (k.rr p).procs_at_prio (k.rr p).curr_idx (k.rr p).procs_at_prio last k)
        (λ l. scan_levels-switched t n (p + 1) l k))
  where
    settle :
        (r : Outcome Found)
        → ((l : Option ℕ) → scan_levels n (p + 1) l (switched t k) ≡ scan_levels n (p + 1) l k)
        → (r >>= λ f. elim f.0 [
          | some s ↦ done (some s)
          | none ↦ scan_levels n (p + 1) f.1 (switched t k)
        ])
          ≡ (r >>= λ f. elim f.0 [ some s ↦ done (some s) | none ↦ scan_levels n (p + 1) f.1 k ])
    settle (done (some s, l)) h = refl
    settle (done (none, l)) h = h l
    settle (exited c) h = refl
    settle hangs h = refl

next_runable-switched :
    (cfg : Tuning) (t : ℕ) (k : Kernel) → next_runable cfg (switched t k) ≡ next_runable cfg k
unfolding next_runable
next_runable-switched cfg t k = rw (scan_levels-switched t cfg.max_prio_levels 0 none k)

-- A thread that is chosen and yields while it stays ready is chosen again: a second
-- `tk_yield_event` changes nothing, whichever other threads of that priority are ready.
pub yield_event_again :
    (cfg : Tuning) (k : Kernel) {k' : Kernel}
    → yield_event cfg k ≡ done k'
    → yield_event cfg k' ≡ done k'
yield_event_again cfg k {k'} e = chosen (next_runable cfg k) refl
  where
    chosen : (o : Outcome ℕ) → next_runable cfg k ≡ o → yield_event cfg k' ≡ done k'
    chosen (done t) f =
        subst (λ m. yield_event cfg m ≡ done m) {x = switched t k} (unfold yield_event in cc)
          (unfold yield_event in rw (next_runable-switched cfg t k, f))
    chosen (exited c) f = absurd (unfold yield_event in ground arith)
    chosen hangs f = absurd (unfold yield_event in ground arith)
