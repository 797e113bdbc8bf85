-- ===== src/Stream/Delivery.antt =====
-- What the subscribers of internal/stream/stream.go receive.
use go_max_tech_stack.Prelude.{
  ◌++◌, ◌-◌, ◌==◌, List, [], ap, arith, drop, false, if◌then◌else◌, length, ltb, ℕ, ◌∙◌, ◌∷◌, ◌≡◌,
  ◌≤◌, ◌+◌, Bool-cases, if-==, inl, inr, refl, some, suc, suc-add, sym, zero, zero-add, append-nil,
  drop-append, length-append, length-drop, append_assoc,
}
use go_max_tech_stack.Stream.Invariant.{AllSubs-or_empty, IsValid, Keeps-IsValid}
use go_max_tech_stack.Prelude.Assoc.{Entries-map, lookup, lookup-insert, weight, weight-lookup-le}
use go_max_tech_stack.Stream.{
  Hub, count_event, done, or_empty, publish, record_history_locked, ◌>>=◌, Outcome,
}
use go_max_tech_stack.Stream.Publishing.{offer_all-Keeps, publish_open, taken, recorded-IsValid}
use go_max_tech_stack.Stream.Store.{uses, weight_at-or_empty}
use go_max_tech_stack.Stream.Subscribing.{history_fits}

users-le :
    {E : Type 0} (h : Hub E) (job_id ref : ℕ)
    → IsValid h
    → weight (uses ref) (or_empty (lookup job_id h.subs)) ≤ 1
users-le h job_id ref v = omega (
  arith,
  weight-lookup-le (weight (uses ref)) job_id h.subs,
  weight_at-or_empty (uses ref) (lookup job_id h.subs),
  v.single ref,
)

-- The history that `Publish` records: the newest events, at most as many as a buffer holds.
abbrev pub newest : {E : Type 0} → ℕ → List E → List E
newest n evs = drop (length evs - n) evs

trim-newest :
    {E : Type 0} (n : ℕ) (evs : List E)
    → (if ltb n (length evs) then drop (length evs - n) evs else evs) ≡ newest n evs
trim-newest n evs = elim (Bool-cases (ltb n (length evs))) [
  | inl longer ↦ rw longer refl
  | inr fits ↦
      let nothing : length evs - n ≡ 0 = ground (arith, fits) in
      rw fits (ap (λ k. drop k evs) (sym nothing))
]

-- What an event of a job does to an open hub: it becomes the last in the buffer of every subscriber
-- of the job that has room, is lost for those that have none, and reaches no other channel; the
-- job's recorded history keeps the newest events with it, and other histories stay.
pub record Delivered {E : Type 0} (job_id : ℕ) (ev : E) (h h' : Hub E) : Type 0 where
  pub channels :
      (ref : ℕ)
      → lookup ref h'.chans ≡ (
          if weight (uses ref) (or_empty (lookup job_id h.subs)) == 0
          then lookup ref h.chans
          else taken ev (lookup ref h.chans))
  pub histories :
      (j : ℕ)
      → lookup j h'.history ≡ (
          if job_id == j
          then some (newest h.subscriber_buffer (or_empty (lookup job_id h.history) ++ (ev ∷ [])))
          else lookup j h.history)
  pub valid : IsValid h'
  pub still_open : h'.closed ≡ false
  pub same_buffer : h'.subscriber_buffer ≡ h.subscriber_buffer

-- `Publish` on a valid open hub returns a valid open hub, having delivered the event: it is the last
-- in the buffer of every subscriber of its job that has room, lost for those that have none, and
-- reaches no other channel; the job's recorded history keeps the newest events, as many as a
-- buffer holds, and other histories stay.
pub publish_delivers :
    {E : Type 0} (job_id : ℕ) (ev : E) (h : Hub E)
    → IsValid h
    → h.closed ≡ false
    → (h' : Hub E) × (publish job_id ev h ≡ done h') × Delivered job_id ev h h'
unfolding record_history_locked count_event
publish_delivers job_id ev h v live =
    let h1 = record_history_locked job_id ev (count_event h) in
    let inner = or_empty (lookup job_id h.subs) in
    let old = or_empty (lookup job_id h.history) ++ (ev ∷ []) in
    let kept =
      if ltb h.subscriber_buffer (length old)
      then drop (length old - h.subscriber_buffer) old
      else old in
    let all = AllSubs-or_empty _ job_id h.subs v.known in
    let (h2, out, k, got) =
      offer_all-Keeps ev inner h1 (Entries-map inner (λ _ s i. i.open_chan) all) in
    (
      h2,
      publish_open job_id ev h live ∙ out,
      record {
        channels = got (λ ref. users-le h job_id ref v);
        histories = λ j.
            ap (lookup j) k.same_history
            ∙ lookup-insert job_id j kept h.history
            ∙ ap (λ x. if job_id == j then some x else lookup j h.history)
                (trim-newest h.subscriber_buffer old);
        valid = Keeps-IsValid k (recorded-IsValid job_id ev h v);
        still_open = k.same_closed ∙ live;
        same_buffer = k.same_buffer;
      },
    )

drop-nil : {E : Type 0} (n : ℕ) → drop {A = E} n [] ≡ []
drop-nil zero = refl
drop-nil (suc n) = refl

drop-drop : {E : Type 0} (a b : ℕ) (l : List E) → drop a (drop b l) ≡ drop (b + a) l
drop-drop a zero l = ap (λ n. drop n l) (sym (zero-add a))
drop-drop a (suc b) [] = drop-nil a ∙ sym (drop-nil (suc b + a))
drop-drop a (suc b) (x ∷ l) = drop-drop a b l ∙ ap (λ n. drop n (x ∷ l)) (sym (suc-add b a))

-- Keeping the newest events at each step keeps the newest of all.
newest-newest :
    {E : Type 0} (n : ℕ) (l ys : List E) → newest n (newest n l ++ ys) ≡ newest n (l ++ ys)
newest-newest n l ys =
    let a = length l - n in
    let whole = l ++ ys in
    let joined : newest n l ++ ys ≡ drop a whole = sym (drop-append a l ys (omega arith)) in
    let count : a + (length (drop a whole) - n) ≡ length whole - n =
      omega (arith, length-drop a whole, length-append l ys) in
    ap (newest n) joined
    ∙ drop-drop (length (drop a whole) - n) a whole
    ∙ ap (λ k. drop k whole) count

-- The events of one job, published one after the other.
unfoldable pub publish_each : {E : Type 0} → ℕ → List E → Hub E → Outcome (Hub E)
publish_each job_id [] h = done h
publish_each job_id (ev ∷ evs) h = publish job_id ev h >>= λ h'. publish_each job_id evs h'

-- After any number of events of one job, published on an open hub, the job's recorded history is
-- the newest of the old history followed by the events, in order, as many as a buffer holds.
history_newest :
    {E : Type 0} (job_id : ℕ) (evs : List E) (h : Hub E)
    → IsValid h
    → h.closed ≡ false
    → (h' : Hub E) × (publish_each job_id evs h ≡ done h')
      × (or_empty (lookup job_id h'.history)
          ≡ newest h.subscriber_buffer (or_empty (lookup job_id h.history) ++ evs))
unfolding publish_each
history_newest job_id [] h v live =
    let l = or_empty (lookup job_id h.history) in
    let short : length (l ++ []) - h.subscriber_buffer ≡ 0 =
      omega (arith, history_fits job_id h v, length-append l []) in
    (h, refl, sym (append-nil l) ∙ ap (λ n. drop n (l ++ [])) (sym short))
history_newest job_id (ev ∷ evs) h v live =
    let l = or_empty (lookup job_id h.history) in
    let (h1, out, d) = publish_delivers job_id ev h v live in
    let (h2, out2, newer) = history_newest job_id evs h1 d.valid d.still_open in
    (
      h2,
      ap (λ m. m >>= publish_each job_id evs) out ∙ out2,
      newer
          ∙ ap (λ n. newest n (or_empty (lookup job_id h1.history) ++ evs)) d.same_buffer
          ∙ ap (λ x. newest h.subscriber_buffer (or_empty x ++ evs))
              (d.histories job_id
                ∙ if-== job_id (some (newest h.subscriber_buffer (l ++ (ev ∷ [])))) _)
          ∙ newest-newest h.subscriber_buffer (l ++ (ev ∷ [])) evs
          ∙ ap (newest h.subscriber_buffer) (append_assoc l (ev ∷ []) evs),
    )
