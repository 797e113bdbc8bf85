-- ===== src/Stream/Store.antt =====
-- The channel store of internal/stream/stream.go, and sums over the map of subscribers.
use go_max_tech_stack.Prelude.{
  ◌+◌, ◌==◌, Bool-cases, List, Option, arith, false, if◌then◌else◌, inl, inr, length, none, refl,
  some, ℕ, ◌∙◌, ◌≡◌, ◌≤◌, [], ◌∷◌,
}
use go_max_tech_stack.Stream.{Channel, Subscriber, or_empty}
use go_max_tech_stack.Prelude.Assoc.{
  insert, lookup, lookup-insert, remove, weight, weight-insert, weight_at, weight-remove,
}

-- A channel that the hub may still send on: open, and of the hub's capacity, which it respects.
pub record IsOpen {E : Type 0} (buffer : ℕ) (c : Channel E) : Type 0 where
  pub is_open : c.closed ≡ false
  pub sized : c.cap ≡ buffer
  pub fits : length c.buffer ≤ c.cap

-- The reference names an open channel.
pub record OpenAt {E : Type 0} (buffer : ℕ) (chans : List (ℕ × Channel E)) (ref : ℕ) : Type 0 where
  pub channel : Channel E
  pub found : lookup ref chans ≡ some channel
  pub opened : IsOpen buffer channel

pub OpenAt-insert :
    {E : Type 0} {buffer : ℕ} (chans : List (ℕ × Channel E)) (ref k : ℕ) (c : Channel E)
    → IsOpen buffer c
    → OpenAt buffer chans ref
    → OpenAt buffer (insert k c chans) ref
OpenAt-insert chans ref k c fine o = elim (Bool-cases (k == ref)) [
  | inl hit ↦ record {
    channel = c;
    found = lookup-insert k ref c chans ∙ rw hit refl;
    opened = fine;
  }
  | inr miss ↦ record {
    channel = o.channel;
    found = lookup-insert k ref c chans ∙ rw miss o.found;
    opened = o.opened;
  }
]

-- A change at another reference.
pub OpenAt-insert_ne :
    {E : Type 0} {buffer : ℕ} (chans : List (ℕ × Channel E)) (ref k : ℕ) (c : Channel E)
    → (k == ref) ≡ false
    → OpenAt buffer chans ref
    → OpenAt buffer (insert k c chans) ref
OpenAt-insert_ne chans ref k c miss o = record {
  channel = o.channel;
  found = lookup-insert k ref c chans ∙ rw miss o.found;
  opened = o.opened;
}

-- The sum of a weight over all subscribers of all jobs.
abbrev pub sum : (Subscriber → ℕ) → List (ℕ × List (ℕ × Subscriber)) → ℕ
sum f = weight (weight f)

abbrev pub one : Subscriber → ℕ
one s = 1

-- 1 for a subscriber whose channel is `ref`.
abbrev pub uses : ℕ → Subscriber → ℕ
uses ref s = if s.ch == ref then 1 else 0

pub weight_at-or_empty :
    (f : Subscriber → ℕ) (o : Option (List (ℕ × Subscriber)))
    → weight_at (weight f) o ≡ weight f (or_empty o)
unfolding weight
weight_at-or_empty f none = refl
weight_at-or_empty f (some l) = refl

-- Adding a subscriber under a new id adds its weight.
pub sum-insert :
    (f : Subscriber → ℕ) (job_id id : ℕ) (s : Subscriber) (subs : List (ℕ × List (ℕ × Subscriber)))
    → lookup id (or_empty (lookup job_id subs)) ≡ none
    → sum f (insert job_id (insert id s (or_empty (lookup job_id subs))) subs) ≡ sum f subs + f s
sum-insert f job_id id s subs fresh =
    let inner = or_empty (lookup job_id subs) in
    let inserted : weight f (insert id s inner) ≡ weight f inner + f s =
      ground (arith, weight-insert f id s inner, fresh) in
    omega (
      arith,
      inserted,
      weight-insert (weight f) job_id (insert id s inner) subs,
      weight_at-or_empty f (lookup job_id subs),
    )

weight_empty : (f : Subscriber → ℕ) (l : List (ℕ × Subscriber)) → length l ≡ 0 → weight f l ≡ 0
unfolding weight
weight_empty f [] h = refl
weight_empty f (x ∷ l) h = absurd (omega arith)

-- Taking one away, with the job if it was its last, takes its weight away.
pub sum-remove :
    (f : Subscriber → ℕ) (job_id id : ℕ) (s : Subscriber) (inner : List (ℕ × Subscriber))
    (subs : List (ℕ × List (ℕ × Subscriber)))
    → lookup job_id subs ≡ some inner
    → lookup id inner ≡ some s
    → let left = remove id inner in
      sum f (if length left == 0 then remove job_id subs else insert job_id left subs) + f s
      ≡ sum f subs
sum-remove f job_id id s inner subs e e' = ground (
  arith,
  e,
  e',
  weight-remove (weight f) job_id subs,
  weight-insert (weight f) job_id (remove id inner) subs,
  weight-remove f id inner,
  weight_empty f (remove id inner),
)
