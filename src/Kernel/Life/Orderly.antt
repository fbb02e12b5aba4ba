-- ===== src/Kernel/Life/Orderly.antt =====
-- Calls of src/tk.c that return leave the rows in order, and the root thread alive.
use tinker.Base.{
  ℕ, ◌<◌, ◌≡◌, ◌≢◌, sym, ap, subst, ◌∙◌, inl, inr, Bool, true, false, ◌||◌, ◌==◌, arith,
}
use tinker.Kernel.State.{Tuning, Tcb, Kernel, done, tk_ok, Status}
use tinker.Kernel.Threads.{bury, delete_thread}
use tinker.Kernel.Rows.Defs.{IsSane, RowsOk}
use tinker.Kernel.Rows.Place.{SameRows, seat, same_rows-RowsOk}
use tinker.Kernel.Keep.Delete.{
  IsListed, IsListed-same, kill-SameRows, buried, bury-done, buried-RowsOk,
}
use tinker.Kernel.Life.Face.{
  face, Spares, Spares-trans, Spares-refl, delete_thread-Spares, Deleted, absent, killed,
  delete_thread-Deleted,
}

-- The root thread, or a thread under construction.
abbrev pub is_apart : (ℕ → Bool) → ℕ → Bool
is_apart out s = s == 0 || out s

-- The rows are in order, and those threads are no zombies.
pub record IsOrderly (cfg : Tuning) (out : ℕ → Bool) (k : Kernel) : Type 0 where
  pub rows : RowsOk cfg out k
  pub calm : (s : ℕ) → is_apart out s ≡ true → (k.pool s).state.zombi ≡ false

abbrev pub SparesApart : (ℕ → Bool) → Kernel → Kernel → Type 0
SparesApart out k k' = (s : ℕ) → is_apart out s ≡ true → Spares s k k'

-- The call keeps order and leaves those threads alone.
abbrev pub Keeps : Tuning → (ℕ → Bool) → Kernel → Kernel → Type 0
Keeps cfg out k k' = IsOrderly cfg out k' × SparesApart out k k'

module _ {cfg : Tuning} (sane : IsSane cfg) (out : ℕ → Bool) where
  pub Keeps-refl : (k : Kernel) → IsOrderly cfg out k → Keeps cfg out k k
  Keeps-refl k ok = (ok, λ s a. Spares-refl s k)

  pub Keeps-trans : {k l m : Kernel} → Keeps cfg out k l → Keeps cfg out l m → Keeps cfg out k m
  Keeps-trans a b = (b.0, λ s h. Spares-trans (a.1 s h) (b.1 s h))

  pub spared-IsOrderly :
      {k k' : Kernel}
      → IsOrderly cfg out k
      → RowsOk cfg out k'
      → SparesApart out k k'
      → IsOrderly cfg out k'
  spared-IsOrderly ok rows h = record {
    rows = rows;
    calm = λ s a. ap (λ (f : Bool × ℕ × ℕ × Bool). f.3) (h s a).same ∙ ok.calm s a;
  }

  pub SameRows-IsOrderly :
      {k k' : Kernel}
      → IsOrderly cfg out k
      → SameRows k k'
      → SparesApart out k k'
      → IsOrderly cfg out k'
  SameRows-IsOrderly {k} {k'} ok same h = spared-IsOrderly ok (same_rows-RowsOk k k' ok.rows same) h

  -- The threads and the rows are what they were.
  pub same_table-Keeps :
      (k k' : Kernel)
      → IsOrderly cfg out k
      → k'.pool ≡ k.pool
      → k'.schedule ≡ k.schedule
      → k'.rr ≡ k.rr
      → k'.proc_idx ≡ k.proc_idx
      → Keeps cfg out k k'
  same_table-Keeps k k' ok pool schedule rr latest =
      let spared : SparesApart out k k' =
        λ s a. record { same = ap (λ (g : ℕ → Tcb). face (g s)) pool; latest = latest } in
      (
        SameRows-IsOrderly ok
            (record {
              schedule = schedule;
              rr = rr;
              seats = λ s. ap (λ (g : ℕ → Tcb). seat (g s)) pool;
            })
            spared,
        spared,
      )

  bury-RowsOk :
      (t : ℕ) (k : Kernel) {r : Status × Kernel}
      → RowsOk cfg out k
      → IsListed cfg out k t
      → bury cfg t k ≡ done r
      → RowsOk cfg out r.1
  bury-RowsOk t k {r} ok l e =
      let same : (tk_ok, buried cfg t k) ≡ r = cc (bury-done sane k t ok l) in
      subst (λ (q : Status × Kernel). RowsOk cfg out q.1) same (buried-RowsOk sane k t ok l)

  deleted-RowsOk :
      (t : ℕ) (k : Kernel) (r : Status × Kernel)
      → t < cfg.max_threads
      → t ≢ 0
      → out t ≡ false
      → RowsOk cfg out k
      → Deleted cfg t k r
      → RowsOk cfg out r.1
  deleted-RowsOk t k r small other here ok (absent h) = subst (RowsOk cfg out) (sym h) ok
  deleted-RowsOk t k r small other here ok (Deleted.buried live h) =
      bury-RowsOk t k ok (record { small = small; live = live; here = here; other = other }) h
  deleted-RowsOk t k r small other here ok (killed q live h last) =
      let same = kill-SameRows cfg k t h in
      let okq : RowsOk cfg out q.1 = same_rows-RowsOk k q.1 ok same in
      let listed : IsListed cfg out q.1 t =
        IsListed-same k q.1 t same
          (record { small = small; live = live; here = here; other = other }) in
      elim last [
        | inl e ↦ subst (RowsOk cfg out) (sym e) okq
        | inr e ↦ bury-RowsOk t q.1 okq listed e
      ]

  pub apart-ne : (s t : ℕ) → is_apart out s ≡ true → is_apart out t ≡ false → s ≢ t
  apart-ne s t a b e = cc

  pub delete_thread-Keeps :
      (t : ℕ) (k : Kernel) {r : Status × Kernel}
      → t < cfg.max_threads
      → is_apart out t ≡ false
      → IsOrderly cfg out k
      → delete_thread cfg t k ≡ done r
      → Keeps cfg out k r.1
  delete_thread-Keeps t k {r} small a ok e =
      let spared : SparesApart out k r.1 =
        λ s b. delete_thread-Spares s cfg t k (apart-ne s t b a) e in
      (
        spared-IsOrderly ok
            (deleted-RowsOk t k r small (ground (arith, a)) (ground (arith, a)) ok.rows
              (delete_thread-Deleted cfg t k e))
            spared,
        spared,
      )
