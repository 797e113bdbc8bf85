-- ===== src/Stream/Invariant.antt =====
-- What holds of the hub of internal/stream/stream.go between two calls.
use go_max_tech_stack.Prelude.{
  ◌<◌, List, arith, length, refl, subst, sym, word_size, ℕ, ◌∙◌, ◌≡◌, ◌≤◌, le_refl, Option-cases,
  inl, inr,
}
use go_max_tech_stack.Stream.{Channel, Hub, Subscriber, or_empty}
use go_max_tech_stack.Prelude.Assoc.{Entries, Entries-map, Entries-lookup, lookup}
use go_max_tech_stack.Stream.Store.{OpenAt, one, sum, uses}

-- A subscriber in the map: its key and its job are its own, its id has been given out, and its
-- channel is one of the store's, still open.
pub record IsSub {E : Type 0} (buffer next_id next_ref : ℕ) (chans : List (ℕ × Channel E))
    (job_id id : ℕ) (s : Subscriber) : Type 0 where
  pub own_id : s.id ≡ id
  pub own_job : s.job_id ≡ job_id
  pub given_id : id ≤ next_id
  pub given_ref : s.ch < next_ref
  pub open_chan : OpenAt buffer chans s.ch

abbrev pub AllSubs : (ℕ → ℕ → Subscriber → Type 0) → List (ℕ × List (ℕ × Subscriber)) → Type 0
AllSubs P = Entries (λ job_id inner. Entries (P job_id) inner)

pub AllSubs-map :
    {P Q : ℕ → ℕ → Subscriber → Type 0} (subs : List (ℕ × List (ℕ × Subscriber)))
    → ((job_id id : ℕ) (s : Subscriber) → P job_id id s → Q job_id id s)
    → AllSubs P subs
    → AllSubs Q subs
AllSubs-map subs f = Entries-map subs (λ job_id inner. Entries-map inner (f job_id))

pub AllSubs-or_empty :
    (P : ℕ → ℕ → Subscriber → Type 0) (job_id : ℕ) (subs : List (ℕ × List (ℕ × Subscriber)))
    → AllSubs P subs
    → Entries (P job_id) (or_empty (lookup job_id subs))
AllSubs-or_empty P job_id subs all = elim (Option-cases (lookup job_id subs)) [
  | inl e ↦ rw e tt
  | inr (inner, e) ↦ rw e (Entries-lookup (λ j l. Entries (P j) l) job_id inner subs all e)
]

pub record IsValid {E : Type 0} (h : Hub E) : Type 0 where
  pub positive : 0 < h.subscriber_buffer
  pub known : AllSubs (IsSub h.subscriber_buffer h.next_id h.next_ref h.chans) h.subs
  -- No two subscribers share a channel.
  pub single : (ref : ℕ) → sum (uses ref) h.subs ≤ 1
  pub counted : h.subscribers ≡ sum one h.subs
  pub bounded : sum one h.subs ≤ h.next_id
  pub small : h.next_id < word_size
  pub trimmed : Entries (λ _ evs. length evs ≤ h.subscriber_buffer) h.history
  pub metered : h.vars.subscribers ≡ h.subscribers

pub IsSub-mono :
    {E : Type 0} {buffer n n' m m' : ℕ} (chans chans' : List (ℕ × Channel E)) (job_id id : ℕ)
    (s : Subscriber)
    → n ≤ n'
    → m ≤ m'
    → ((ref : ℕ) → OpenAt buffer chans ref → OpenAt buffer chans' ref)
    → IsSub buffer n m chans job_id id s
    → IsSub buffer n' m' chans' job_id id s
IsSub-mono chans chans' job_id id s a b keep k = record {
  own_id = k.own_id;
  own_job = k.own_job;
  given_id = omega (arith, k.given_id);
  given_ref = omega (arith, k.given_ref);
  open_chan = keep s.ch k.open_chan;
}

-- What the operations that only move events do: the map of subscribers and its counters stay, and
-- every open channel stays open.
pub record Keeps {E : Type 0} (h h' : Hub E) : Type 0 where
  pub same_subs : h'.subs ≡ h.subs
  pub same_next_id : h'.next_id ≡ h.next_id
  pub same_buffer : h'.subscriber_buffer ≡ h.subscriber_buffer
  pub same_count : h'.subscribers ≡ h.subscribers
  pub same_next_ref : h'.next_ref ≡ h.next_ref
  pub same_var : h'.vars.subscribers ≡ h.vars.subscribers
  pub same_closed : h'.closed ≡ h.closed
  pub same_history : h'.history ≡ h.history
  pub keeps_open :
      (ref : ℕ) → OpenAt h.subscriber_buffer h.chans ref → OpenAt h.subscriber_buffer h'.chans ref

pub Keeps-refl : {E : Type 0} (h : Hub E) → Keeps h h
Keeps-refl h = record {
  same_subs = refl;
  same_next_id = refl;
  same_buffer = refl;
  same_count = refl;
  same_next_ref = refl;
  same_var = refl;
  same_closed = refl;
  same_history = refl;
  keeps_open = λ ref o. o;
}

pub Keeps-trans : {E : Type 0} {h h' h'' : Hub E} → Keeps h h' → Keeps h' h'' → Keeps h h''
Keeps-trans {h} {h'} {h''} a b = record {
  same_subs = b.same_subs ∙ a.same_subs;
  same_next_id = b.same_next_id ∙ a.same_next_id;
  same_buffer = b.same_buffer ∙ a.same_buffer;
  same_count = b.same_count ∙ a.same_count;
  same_next_ref = b.same_next_ref ∙ a.same_next_ref;
  same_var = b.same_var ∙ a.same_var;
  same_closed = b.same_closed ∙ a.same_closed;
  same_history = b.same_history ∙ a.same_history;
  keeps_open = λ ref o.
      let o' : OpenAt h'.subscriber_buffer h'.chans ref =
        subst (λ n. OpenAt n h'.chans ref) (sym a.same_buffer) (a.keeps_open ref o) in
      subst (λ n. OpenAt n h''.chans ref) a.same_buffer (b.keeps_open ref o');
}

pub Keeps-IsValid : {E : Type 0} {h h' : Hub E} → Keeps h h' → IsValid h → IsValid h'
Keeps-IsValid {h} {h'} k v = record {
  positive = omega (arith, v.positive, k.same_buffer);
  known =
      rw (k.same_subs, k.same_buffer, k.same_next_id, k.same_next_ref)
        (AllSubs-map h.subs
          (λ job_id id s.
            IsSub-mono h.chans h'.chans job_id id s (le_refl _) (le_refl _) k.keeps_open)
          v.known);
  single = λ ref. rw k.same_subs (v.single ref);
  counted = rw (k.same_count, k.same_subs) v.counted;
  bounded = rw (k.same_next_id, k.same_subs) v.bounded;
  small = rw k.same_next_id v.small;
  trimmed = rw (k.same_history, k.same_buffer) v.trimmed;
  metered = rw (k.same_var, k.same_count) v.metered;
}
