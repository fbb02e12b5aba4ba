-- ===== src/Itc/Idle.antt =====
-- A queue of src/tk_itc.c for which no thread waits.
use tinker.Base.{
  ℕ, zero, suc, ◌+◌, ◌≤◌, ◌<◌, ◌≡◌, refl, ap, ◌∙◌, Bool, true, false, not, Option, none, some, ◌==◌,
  if◌then◌else◌, arith, ℤ, pos, inc_ℤ, abs, is_neg, is_pos,
}
use tinker.Kernel.State.{Outcome, done, exited, hangs, tk_ok}
use tinker.Itc.State.{s_queue, Words, Itc, World, put_itc}
use tinker.Itc.Shared.{count_blocked, prove_concistency}
use tinker.Itc.Stages.{returned, unlock_begin, with_itc}
use tinker.Itc.Queue.{check_stage}
use tinker.Itc.Ring.{place}

-- The message at position `j`, the oldest first.
abbrev pub message : Itc → ℕ → Words
message q j = q.q (place q.sizeof_q q.mout_idx j)

-- A queue of words with `c` messages, for which nobody waits.
pub record IsQueue (q : Itc) (c : ℕ) : Type 0 where
  pub kind : q.b_type ≡ s_queue
  pub token : q.token ≡ pos c
  pub fits : c ≤ q.sizeof_q
  pub first : q.mout_idx < q.sizeof_q
  pub last : q.min_idx ≡ place q.sizeof_q q.mout_idx c
  pub nobody : q.in_idx ≡ q.out_idx

-- The test after a stage holds while nobody waits.
pub check_stage-nobody :
    (max qid c : ℕ) (w : World) (q : Itc)
    → w.itc_array qid ≡ some q
    → q.token ≡ pos c
    → q.in_idx ≡ q.out_idx
    → check_stage max qid w ≡ done w
unfolding check_stage
check_stage-nobody max qid c w q here e nobody = rw (here, with_itc) (ap settle agrees)
  where
    settle : Option Bool → Outcome World
    settle r = elim r [ none ↦ hangs | some true ↦ done w | some false ↦ exited 0x8002 ]

    empty : count_blocked max (max + 1) q.out_idx q w.kernel.pool ≡ some 0
    empty =
        ap (λ f. count_blocked max f q.out_idx q w.kernel.pool) {x = max + 1} {y = suc max}
          (omega arith)
        ∙ unfold count_blocked in ground (arith, nobody)

    verdict : ℤ → Option Bool
    verdict t =
        if is_pos t
        then some true
        else elim (count_blocked max (max + 1) q.out_idx q w.kernel.pool) [
          | none ↦ none
          | some n ↦ some (n == abs t)
        ]

    owned : (n : ℕ) → verdict (pos n) ≡ some true
    owned zero = rw empty
    owned (suc n) = refl

    agrees : prove_concistency max q w.kernel.pool ≡ some true
    agrees = unfold prove_concistency in (ap verdict e ∙ owned c)

-- The last branch, and the one before it.
pub third {ℓ} :
    {A : Type ℓ} (x y z : A) (b f : Bool)
    → b ≡ true
    → f ≡ false
    → (if not b then x else if f then y else z) ≡ z
third x y z b f e g = rw (e, g)

pub second {ℓ} :
    {A : Type ℓ} (x y z : A) (b f : Bool)
    → b ≡ true
    → f ≡ true
    → (if not b then x else if f then y else z) ≡ y
second x y z b f e g = rw (e, g)

-- A positive token, or none, goes up.
pub unlock_begin-nobody :
    (max levels qid c : ℕ) (w : World) (q : Itc)
    → w.itc_array qid ≡ some q
    → q.token ≡ pos c
    → unlock_begin max levels qid w
      ≡ done (returned tk_ok, put_itc w qid (record q { token = inc_ℤ q.token }))
unfolding unlock_begin
unlock_begin-nobody max levels qid c w q here e = rw (here, with_itc, ap is_neg e)
