-- ===== src/Kernel/Rows/Kin.antt =====
-- The family operations and the wake-up of a sleeper leave the schedule alone.
use tinker.Base.{
  ℕ, zero, suc, ◌+◌, ◌≡◌, subst, ◌&&◌, Bool, Option, none, some, ltb, Bool-cases, inl, inr, arith,
}
use tinker.Kernel.State.{Tuning, Kernel, done}
use tinker.Kernel.Family.{
  is_tcb, detach_child, detach_from, detach_children, unblock_parent, leave_parent, try_detach_from,
  try_detach_parent,
}
use tinker.Kernel.Dispatch.{wake_sleeper}
use tinker.Kernel.Rows.Place.{SameRows, SameRows-refl, SameRows-trans}

detach_child-SameRows : (t j : ℕ) (k : Kernel) → SameRows k (detach_child t j k)
unfolding detach_child
detach_child-SameRows t j k = record {
  schedule = ground arith;
  rr = ground arith;
  seats = λ s. ground arith;
}

detach_from-SameRows : (t n j : ℕ) (k : Kernel) → SameRows k (detach_from t n j k)
unfolding detach_from
detach_from-SameRows t zero j k = SameRows-refl k
detach_from-SameRows t (suc n) j k = elim (Bool-cases (ltb 0 (k.pool t).no_childs)) [
  | inl more ↦ rw more (
      SameRows-trans (detach_child-SameRows t j k)
        (detach_from-SameRows t n (j + 1) (detach_child t j k)))
  | inr end ↦ rw end (SameRows-refl k)
]

pub detach_children-SameRows :
    (cfg : Tuning) (t : ℕ) (k : Kernel) → SameRows k (detach_children cfg t k)
unfolding detach_children
detach_children-SameRows cfg t k = detach_from-SameRows t cfg.max_threads 0 k

pub wake_sleeper-SameRows :
    (cfg : Tuning) (now i : ℕ) (k : Kernel) → SameRows k (wake_sleeper cfg now i k)
unfolding wake_sleeper
wake_sleeper-SameRows cfg now i k = record {
  schedule = ground arith;
  rr = ground arith;
  seats = λ s. ground arith;
}

unblock_parent-SameRows : (t g : ℕ) (k : Kernel) → SameRows k (unblock_parent t g k)
unfolding unblock_parent
unblock_parent-SameRows t g k = record {
  schedule = ground arith;
  rr = ground arith;
  seats = λ s. ground arith;
}

leave_parent-SameRows :
    (t g : ℕ) (k : Kernel) {r : Bool × Kernel} → leave_parent t g k ≡ done r → SameRows k r.1
unfolding leave_parent
leave_parent-SameRows t g k e = record {
  schedule = ground arith;
  rr = ground arith;
  seats = λ s. ground arith;
}

try_detach_from-SameRows :
    (t : ℕ) (force : Bool) (g : Option ℕ) (k : Kernel) {r : Bool × Kernel}
    → try_detach_from t force g k ≡ done r
    → SameRows k r.1
unfolding try_detach_from
try_detach_from-SameRows t force none k {r} e = same (cc)
  where
    same : k ≡ r.1 → SameRows k r.1
    same p = subst (SameRows k) p (SameRows-refl k)
try_detach_from-SameRows t force (some g) k {r} e = elim (Bool-cases (k.pool g).valid) [
  | inr bad ↦ absurd (ground arith)
  | inl good ↦ elim (Bool-cases waits) [
    | inl w ↦
        SameRows-trans (unblock_parent-SameRows t g k)
          (leave_parent-SameRows t g (unblock_parent t g k) {r = r} (ground arith))
    | inr w ↦ elim (Bool-cases force) [
      | inl f ↦ leave_parent-SameRows t g k {r = r} (ground arith)
      | inr f ↦ subst (SameRows k) (ground arith) (SameRows-refl k)
    ]
  ]
]
  where
    waits : Bool
    waits = (k.pool g).state.term && is_tcb (k.pool g).bon_entity t

pub try_detach_parent-SameRows :
    (t : ℕ) (force : Bool) (k : Kernel) {r : Bool × Kernel}
    → try_detach_parent t force k ≡ done r
    → SameRows k r.1
unfolding try_detach_parent
try_detach_parent-SameRows t force k e = try_detach_from-SameRows t force (k.pool t).gid k e
