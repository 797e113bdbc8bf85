-- ===== src/WorkerPool/Invariant.antt =====
-- What every piece of internal/workerpool/workerpool.go keeps of the pool and its generations.
use go_max_tech_stack.WorkerPool.{WorkerPool, Generation, owns, is_done, settle_stopped_locked}
use go_max_tech_stack.Prelude.Assoc.{
  lookup, insert, Entries, Entries-insert, Entries-lookup, KeysBelow, lookup-insert,
}
use go_max_tech_stack.Prelude.{
  ◌&&◌, ◌<◌, Bool, Option, arith, false, inl, inr, none, pos, some, true, ℕ, ◌≡◌, ◌≤◌, ◌⊎◌,
  Bool-cases, Option-cases, ◌==◌, ==_iff, subst, sym,
}

-- A generation is done once its workers have ended, is counted as long as there are some, and is
-- not repaired before.
abbrev pub IsGen : ℕ → Generation → Type 0
IsGen g gen =
    (((gen.done ≡ true) × (gen.live ≡ 0))
      ⊎ ((gen.done ≡ false) × (0 < gen.live) × (gen.remaining ≡ pos gen.live)))
    × ((gen.outcome ≡ none) ⊎ (gen.done ≡ true))

abbrev pub live_at : Option Generation → ℕ
live_at none = 0
live_at (some gen) = gen.live

abbrev pub is_repaired : Option Generation → Bool
is_repaired none = false
is_repaired (some gen) = elim gen.outcome [ none ↦ false | some o ↦ true ]

-- The pool is stopping, and its generation is that one.
abbrev pub held : ℕ → WorkerPool → Bool
held g wp = owns g wp.generation && wp.stopping

-- Only the pool's own generation has workers.
pub record IsValid (wp : WorkerPool) : Type 0 where
  pub counted : Entries IsGen wp.gens
  pub current : (g : ℕ) → owns g wp.generation ≡ false → live_at (lookup g wp.gens) ≡ 0
  pub fresh : KeysBelow wp.next_ref wp.gens

-- Nothing is taken back: a generation that is done or repaired stays so, and one that is being
-- stopped is so until its repair.
pub record Keeps (wp wp' : WorkerPool) : Type 0 where
  pub done_stays : (g : ℕ) → is_done (lookup g wp.gens) ≡ true → is_done (lookup g wp'.gens) ≡ true
  pub repair_stays :
      (g : ℕ) → is_repaired (lookup g wp.gens) ≡ true → is_repaired (lookup g wp'.gens) ≡ true
  pub hold_stays :
      (g : ℕ) → held g wp ≡ true → (held g wp' ≡ true) ⊎ (is_repaired (lookup g wp'.gens) ≡ true)

pub record Good (wp wp' : WorkerPool) : Type 0 where
  pub valid : IsValid wp'
  pub keeps : Keeps wp wp'

pub Keeps-refl : (wp : WorkerPool) → Keeps wp wp
Keeps-refl wp = record { done_stays = λ g h. h; repair_stays = λ g h. h; hold_stays = λ g h. inl h }

pub Keeps-trans : {a b c : WorkerPool} → Keeps a b → Keeps b c → Keeps a c
Keeps-trans f k = record {
  done_stays = λ g h. k.done_stays g (f.done_stays g h);
  repair_stays = λ g h. k.repair_stays g (f.repair_stays g h);
  hold_stays = λ g h. elim (f.hold_stays g h) [
    | inl x ↦ k.hold_stays g x
    | inr x ↦ inr (k.repair_stays g x)
  ];
}

-- A change of one generation that has been made already.
pub insert-Good :
    (g : ℕ) (gen gen' : Generation) (wp : WorkerPool)
    → IsValid wp
    → lookup g wp.gens ≡ some gen
    → IsGen g gen'
    → gen'.live ≤ gen.live
    → (gen.done ≡ true → gen'.done ≡ true)
    → (is_repaired (some gen) ≡ true → is_repaired (some gen') ≡ true)
    → Good wp (record wp { gens = insert g gen' wp.gens })
insert-Good g gen gen' wp v found fits le done_ rep = record {
  valid = record {
    counted = Entries-insert IsGen g gen' wp.gens fits v.counted;
    current = λ k h. ground (arith, lookup-insert g k gen' wp.gens, v.current k h, found);
    fresh =
        Entries-insert (λ k _. k < wp.next_ref) g gen' wp.gens
          (Entries-lookup (λ k _. k < wp.next_ref) g gen wp.gens v.fresh found) v.fresh;
  };
  keeps = record {
    done_stays = λ k h. ground (arith, lookup-insert g k gen' wp.gens, found, done_);
    repair_stays = λ k h. ground (arith, lookup-insert g k gen' wp.gens, found, rep);
    hold_stays = λ k h. inl h;
  };
}

pub settle-cases :
    (wp : WorkerPool)
    → (settle_stopped_locked wp ≡ wp)
      ⊎ ((g : ℕ) × (wp.generation ≡ some g)
          × (is_done (lookup g wp.gens) ≡ true)
          × (wp.stopping ≡ false)
          × (settle_stopped_locked wp ≡ record wp { generation = none; stopping = false }))
unfolding settle_stopped_locked
settle-cases wp = elim (Option-cases wp.generation) [
  | inl e ↦ inl (ground (arith, e))
  | inr (g, e) ↦ elim (Bool-cases (is_done (lookup g wp.gens))) [
    | inl d ↦ elim (Bool-cases wp.stopping) [
      | inl st ↦ inl (ground (arith, e, d, st))
      | inr st ↦ inr (g, e, d, st, ground (arith, e, d, st))
    ]
    | inr d ↦ inl (ground (arith, e, d))
  ]
]

pub done-live :
    (g : ℕ) (wp : WorkerPool)
    → IsValid wp
    → is_done (lookup g wp.gens) ≡ true
    → live_at (lookup g wp.gens) ≡ 0
done-live g wp v d = elim (Option-cases (lookup g wp.gens)) [
  | inl e ↦ ground (arith, e)
  | inr (gen, e) ↦ ground (arith, e, Entries-lookup IsGen g gen wp.gens v.counted e)
]

-- The settlement leaves no worker behind.
pub settle-Good : (wp : WorkerPool) → IsValid wp → Good wp (settle_stopped_locked wp)
settle-Good wp v = elim (settle-cases wp) [
  | inl e ↦ subst (Good wp) (sym e) (record { valid = v; keeps = Keeps-refl wp })
  | inr (g, e, d, st, eq) ↦ subst (Good wp) (sym eq) (record {
    valid = record {
      counted = v.counted;
      current = λ k h. elim (Bool-cases (g == k)) [
        | inl hit ↦
            subst (λ j. live_at (lookup j wp.gens) ≡ 0) ((==_iff g k).0 hit) (done-live g wp v d)
        | inr miss ↦ v.current k (ground (arith, e, miss))
      ];
      fresh = v.fresh;
    };
    keeps = record {
      done_stays = λ k h. h;
      repair_stays = λ k h. h;
      hold_stays = λ k h. ground (arith, st, h);
    };
  })
]
