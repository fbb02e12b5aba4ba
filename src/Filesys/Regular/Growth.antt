-- ===== src/Filesys/Regular/Growth.antt =====
-- The growth of a file in `write` of src/filesys/fs_ifreg.c.
use tinker.Base.{
  ℕ, zero, suc, ◌+◌, ◌*◌, ◌<◌, ◌≤◌, ◌≡◌, refl, ap, sym, inl, inr, ◌⊎◌, false, ltb, Bool-cases,
  update, ◌∙◌, lt→ltb, ltb→lt, arith,
}
use tinker.Kernel.State.{done}
use tinker.Filesys.Regular.{RegFile, extend}

-- The chain has exactly the room that the file says.
pub record IsChain (D : ℕ) (f : RegFile) : Type 0 where
  pub some_sector : 0 < f.count
  pub whole : f.maxsize ≡ f.count * D

-- The file grew as far as it had to.
pub record IsGrown (D need : ℕ) (f f' : RegFile) : Type 0 where
  pub chain : IsChain D f'
  pub enough : need ≤ f'.maxsize
  pub least : (f'.count ≡ f.count) ⊎ (f'.maxsize < need + D)
  pub longer : f.count ≤ f'.count
  pub same_size : f'.dsize ≡ f.dsize
  pub kept : (i j : ℕ) → i < f.count → f'.sectors i j ≡ f.sectors i j

-- The file with one sector more.
abbrev longer : ℕ → RegFile → RegFile
longer D f = record f {
  sectors = update f.sectors f.count (λ j. 0);
  count = f.count + 1;
  maxsize = f.maxsize + D;
}

longer-IsChain : (D : ℕ) (f : RegFile) → IsChain D f → IsChain D (longer D f)
longer-IsChain D f chain =
    let product : (f.count + 1) * D ≡ f.count * D + D = grind arith in
    record { some_sector = omega arith; whole = omega (arith, chain.whole, product) }

stays-IsGrown : (D need : ℕ) (f : RegFile) → IsChain D f → need ≤ f.maxsize → IsGrown D need f f
stays-IsGrown D need f chain h = record {
  chain = chain;
  enough = h;
  least = inl refl;
  longer = omega arith;
  same_size = refl;
  kept = λ i j h. refl;
}

longer-IsGrown :
    (D need : ℕ) (f f' : RegFile)
    → IsChain D (longer D f)
    → f.maxsize < need
    → IsGrown D need (longer D f) f'
    → IsGrown D need f f'
longer-IsGrown D need f f' chain narrow r = record {
  chain = r.chain;
  enough = r.enough;
  least = inr (last r.least);
  longer = omega (arith, r.longer);
  same_size = r.same_size;
  kept = λ i j h. r.kept i j (omega arith) ∙ ground (arith, h);
}
  where
    last : (f'.count ≡ f.count + 1) ⊎ (f'.maxsize < need + D) → f'.maxsize < need + D
    last (inr h) = h
    last (inl e) =
        let one_more : f'.maxsize ≡ f.maxsize + D =
          r.chain.whole ∙ ap (λ n. n * D) e ∙ sym chain.whole in
        omega (arith, one_more, narrow)

pub extend-wide :
    (D fuel need supply tsect : ℕ) (f : RegFile)
    → need ≤ f.maxsize
    → extend D (suc fuel) need supply tsect f ≡ done f
unfolding extend
extend-wide D fuel need supply tsect f h = ground arith

extend-narrow :
    (D fuel need s tsect : ℕ) (f : RegFile)
    → f.maxsize < need
    → tsect + 1 ≡ f.count
    → extend D (suc fuel) need (suc s) tsect f ≡ extend D fuel need s (tsect + 1) (longer D f)
unfolding extend
extend-narrow D fuel need s tsect f h e =
    let at_end : ltb (tsect + 1) f.count ≡ false = ground arith in
    rw (lt→ltb f.maxsize need h, at_end) refl

-- From the last sector, with memory for all that is needed, the loop ends.
pub extend-IsGrown :
    (D fuel need supply tsect : ℕ) (f : RegFile)
    → 0 < D
    → IsChain D f
    → tsect + 1 ≡ f.count
    → need ≤ f.maxsize + supply * D
    → need < f.maxsize + fuel
    → 0 < fuel
    → (f' : RegFile) × (extend D fuel need supply tsect f ≡ done f') × IsGrown D need f f'
extend-IsGrown D zero need supply tsect f pos chain last memory rounds some_fuel =
    absurd (omega arith)
extend-IsGrown D (suc fuel) need zero tsect f pos chain last memory rounds some_fuel = (
  f,
  extend-wide D fuel need zero tsect f (omega (arith, none_more)),
  stays-IsGrown D need f chain (omega (arith, none_more)),
)
  where
    none_more : zero * D ≡ 0
    none_more = omega arith
extend-IsGrown D (suc fuel) need (suc s) tsect f pos chain last memory rounds some_fuel =
    elim (Bool-cases (ltb f.maxsize need)) [
      | inr wide ↦ (
        f,
        extend-wide D fuel need (suc s) tsect f (ground arith),
        stays-IsGrown D need f chain (ground arith),
      )
      | inl narrow ↦
          let product : suc s * D ≡ s * D + D = grind arith in
          let less : f.maxsize < need = ltb→lt f.maxsize need narrow in
          let r =
            extend-IsGrown D fuel need s (tsect + 1) (longer D f) pos (longer-IsChain D f chain)
              (omega (arith, last)) (omega (arith, memory, product)) (omega (arith, rounds, pos))
              (omega (arith, rounds, less)) in
          (
            r.0,
            extend-narrow D fuel need s tsect f less last ∙ r.1,
            longer-IsGrown D need f r.0 (longer-IsChain D f chain) less r.2,
          )
    ]
