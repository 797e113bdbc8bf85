-- ===== src/Stream/Steps.antt =====
-- One call in a history of the hub of internal/stream/stream.go.
use go_max_tech_stack.Prelude.{
  ◌+◌, ◌<◌, Bool-cases, ap, arith, false, inl, inr, refl, true, word_size, ℕ, ◌∙◌, ◌≡◌, ◌≤◌,
}
use go_max_tech_stack.Stream.{◌>>=◌, Hub, Outcome, close_mark, done, receive, release}
use go_max_tech_stack.Stream.History.{
  Fits, IsSafe, Phase, System, closing, drain_in, drained, leaves, mark_in, marks, publishes, reads,
  serving, step, subscribes, with_hub,
}
use go_max_tech_stack.Stream.Invariant.{IsValid, Keeps-IsValid}
use go_max_tech_stack.Stream.Closing.{close_drain_closes, shut}
use go_max_tech_stack.Stream.Publishing.{publish-IsValid, taken}
use go_max_tech_stack.Stream.Leaving.{
  receive-Keeps, release-IsValid, release-closed, release-empty, release-next_id,
}
use go_max_tech_stack.Stream.Subscribing.{subscribe-IsValid}

-- A call returns a safe state, and uses up one id at most.
pub record Returns {E : Type 0} (s : System E) (out : Outcome (System E)) : Type 0 where
  pub state : System E
  pub equal : out ≡ done state
  pub safe : IsSafe state
  pub ids : state.hub.next_id ≤ s.hub.next_id + 1

Fits-same :
    {E : Type 0} (p : Phase) (h h' : Hub E)
    → h'.closed ≡ h.closed
    → h'.subs ≡ h.subs
    → Fits p h
    → Fits p h'
Fits-same serving h h' c m f = c ∙ f
Fits-same closing h h' c m f = c ∙ f
Fits-same drained h h' c m f = (c ∙ f.0, m ∙ f.1)

pub subscribes-Returns :
    {E : Type 0} (job_id : ℕ) (s : System E)
    → IsSafe s
    → s.hub.next_id + 1 < word_size
    → Returns s (step (subscribes job_id) s)
unfolding step
subscribes-Returns {E} job_id s f room = elim (subscribe-IsValid job_id s.hub f.valid room) [
  | inl (shut, out) ↦ record {
    state = s;
    equal = ap (λ m. m >>= λ o. done (with_hub s.phase o.0)) out;
    safe = f;
    ids = omega arith;
  }
  | inr (h', sub, out, v, live, live', found, taken) ↦ record {
    state = with_hub s.phase h';
    equal = ap (λ m. m >>= λ o. done (with_hub s.phase o.0)) out;
    safe = record { valid = v; fitting = still_serving s.phase s.hub h' live live' f.fitting };
    ids = omega (arith, taken);
  }
]
  where
    still_serving :
        (p : Phase) (h h' : Hub E) → h.closed ≡ false → h'.closed ≡ false → Fits p h → Fits p h'
    still_serving serving h h' a b f = b
    still_serving closing h h' a b f = cc
    still_serving drained h h' a b f = cc (f.0)

pub publishes-Returns :
    {E : Type 0} (job_id : ℕ) (ev : E) (s : System E)
    → IsSafe s
    → Returns s (step (publishes job_id ev) s)
unfolding step
publishes-Returns job_id ev s f =
    let (h', out, v, same_id, same_closed, same_subs) = publish-IsValid job_id ev s.hub f.valid in
    record {
      state = with_hub s.phase h';
      equal = ap (λ m. m >>= λ h. done (with_hub s.phase h)) out;
      safe = record {
        valid = v;
        fitting = Fits-same s.phase s.hub h' same_closed same_subs f.fitting;
      };
      ids = omega (arith, same_id);
    }

pub leaves-Returns :
    {E : Type 0} (job_id id : ℕ) (s : System E) → IsSafe s → Returns s (step (leaves job_id id) s)
unfolding step
leaves-Returns {E} job_id id s f = record {
  state = with_hub s.phase (release job_id id s.hub);
  equal = refl;
  safe = record {
    valid = release-IsValid job_id id s.hub f.valid;
    fitting = left s.phase s.hub f.fitting;
  };
  ids = omega (arith, release-next_id job_id id s.hub);
}
  where
    left : (p : Phase) (h : Hub E) → Fits p h → Fits p (release job_id id h)
    left serving h g = release-closed job_id id h ∙ g
    left closing h g = release-closed job_id id h ∙ g
    left drained h g = (release-closed job_id id h ∙ g.0, release-empty job_id id h g.1)

pub reads-Returns :
    {E : Type 0} (ref : ℕ) (s : System E) → IsSafe s → Returns s (step (reads ref) s)
unfolding step
reads-Returns ref s f =
    let k = receive-Keeps ref s.hub in
    record {
      state = with_hub s.phase (receive ref s.hub).0;
      equal = refl;
      safe = record {
        valid = Keeps-IsValid k f.valid;
        fitting = Fits-same s.phase s.hub _ k.same_closed k.same_subs f.fitting;
      };
      ids = omega (arith, k.same_next_id);
    }

flagged-IsValid : {E : Type 0} (h : Hub E) → IsValid h → IsValid (record h { closed = true })
flagged-IsValid h v = record {
  positive = v.positive;
  known = v.known;
  single = v.single;
  counted = v.counted;
  bounded = v.bounded;
  small = v.small;
  trimmed = v.trimmed;
  metered = v.metered;
}

mark_in_first :
    {E : Type 0} (p : Phase) (h : Hub E)
    → h.closed ≡ false
    → mark_in p h ≡ with_hub closing (record h { closed = true })
unfolding mark_in close_mark
mark_in_first p h e = ground arith

mark_in_again : {E : Type 0} (p : Phase) (h : Hub E) → h.closed ≡ true → mark_in p h ≡ with_hub p h
unfolding mark_in close_mark
mark_in_again p h e = ground arith

pub marks-Returns : {E : Type 0} (s : System E) → IsSafe s → Returns s (step marks s)
unfolding step
marks-Returns {E} s f = elim (Bool-cases s.hub.closed) [
  | inl shut ↦ record {
    state = with_hub s.phase s.hub;
    equal = ap done (mark_in_again s.phase s.hub shut);
    safe = f;
    ids = omega arith;
  }
  | inr live ↦ record {
    state = with_hub closing (record (s.hub) { closed = true });
    equal = ap done (mark_in_first s.phase s.hub live);
    safe = record { valid = flagged-IsValid s.hub f.valid; fitting = refl };
    ids = omega arith;
  }
]

pub drain_in-Returns :
    {E : Type 0} (p : Phase) (h : Hub E)
    → IsValid h
    → Fits p h
    → Returns (with_hub p h) (drain_in p h)
unfolding drain_in
drain_in-Returns closing h v f =
    let (h', out, v', no_subs, no_count, same_closed, same_id, closes) = close_drain_closes h v in
    record {
      state = with_hub drained h';
      equal = ap (λ m. m >>= λ k. done (with_hub drained k)) out;
      safe = record { valid = v'; fitting = (same_closed ∙ f, no_subs) };
      ids = omega (arith, same_id);
    }
drain_in-Returns serving h v f = record {
  state = with_hub serving h;
  equal = refl;
  safe = record { valid = v; fitting = f };
  ids = omega arith;
}
drain_in-Returns drained h v f = record {
  state = with_hub drained h;
  equal = refl;
  safe = record { valid = v; fitting = f };
  ids = omega arith;
}
