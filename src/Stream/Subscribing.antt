-- ===== src/Stream/Subscribing.antt =====
-- `Subscribe` of internal/stream/stream.go returns on every valid hub, and keeps it valid.
use go_max_tech_stack.Prelude.{
  ◌+◌, ◌++◌, ◌<◌, Bool-cases, List, Option-cases, [], ap, append-nil, append_assoc, arith, false,
  if◌then◌else◌, inl, inr, le_refl, length, length-append, none, refl, some, suc, sym, true, u64,
  word_size, ℕ, ◌∙◌, ◌∷◌, ◌≡◌, ◌≤◌, ◌⊎◌,
}
use go_max_tech_stack.Stream.{
  ◌>>=◌, Channel, Hub, Subscriber, Subscription, attach, done, make_channel, or_empty, replay, send,
  subscribe,
}
use go_max_tech_stack.Stream.Invariant.{
  AllSubs, AllSubs-map, AllSubs-or_empty, IsSub, IsSub-mono, IsValid,
}
use go_max_tech_stack.Prelude.Assoc.{
  Entries-insert, Entries-lookup, Entries-map, lookup, lookup-insert, lookup_above, weight,
  weight-eq-zero,
}
use go_max_tech_stack.Stream.Store.{IsOpen, OpenAt-insert, one, sum, sum-insert, uses}
use go_max_tech_stack.Failure.Result.{err, ok}
use go_max_tech_stack.Failure.{hub_closed, sentinel}
use go_max_tech_stack.Stream.Closing.{shut}

replay-append :
    {E : Type 0} (evs : List E) (c : Channel E)
    → c.closed ≡ false
    → length c.buffer + length evs ≤ c.cap
    → replay evs c ≡ done (record c { buffer = c.buffer ++ evs })
unfolding replay
replay-append [] c o fits = ap (λ b. done (record c { buffer = b })) (sym (append-nil c.buffer))
replay-append (ev ∷ evs) c o fits =
    let c' = record c { buffer = c.buffer ++ (ev ∷ []) } in
    let first : send ev c ≡ done c' = ground (arith, o, fits) in
    rw (first) (
      replay-append evs c' o (omega (arith, length-append c.buffer (ev ∷ []), fits))
      ∙ ap (λ b. done (record c { buffer = b })) (append_assoc c.buffer (ev ∷ []) evs))

-- What `Subscribe` makes on an open hub: a channel with the job's history in it.
abbrev pub replayed : {E : Type 0} → ℕ → Hub E → Channel E
replayed job_id h = record {
  buffer = or_empty (lookup job_id h.history);
  cap = h.subscriber_buffer;
  closed = false;
}

pub history_fits :
    {E : Type 0} (job_id : ℕ) (h : Hub E)
    → IsValid h
    → length (or_empty (lookup job_id h.history)) ≤ h.subscriber_buffer
history_fits job_id h v = elim (Option-cases (lookup job_id h.history)) [
  | inl e ↦ rw e (omega arith)
  | inr (evs, e) ↦
      rw e (Entries-lookup (λ _ l. length l ≤ h.subscriber_buffer) job_id evs h.history v.trimmed e)
]

replay_lem :
    {E : Type 0} (job_id : ℕ) (h : Hub E)
    → IsValid h
    → replay (or_empty (lookup job_id h.history)) (make_channel h.subscriber_buffer)
      ≡ done (replayed job_id h)
replay_lem job_id h v =
    replay-append (or_empty (lookup job_id h.history)) (make_channel h.subscriber_buffer) refl
      (omega (arith, history_fits job_id h v))

-- `Subscribe` on an open hub never waits on the channel that it fills while it holds the lock.
pub subscribe_open :
    {E : Type 0} (job_id : ℕ) (h : Hub E)
    → IsValid h
    → h.closed ≡ false
    → subscribe job_id h ≡ done (attach job_id (replayed job_id h) h)
unfolding subscribe
subscribe_open job_id h v live =
    let evs = or_empty (lookup job_id h.history) in
    let made = make_channel h.subscriber_buffer in
    ap
      (λ b.
        if b
        then done (h, err (sentinel hub_closed))
        else (replay evs made >>= λ c. done (attach job_id c h)))
      live
    ∙ ap (λ m. m >>= λ c. done (attach job_id c h)) (replay_lem job_id h v)

attach-known :
    {E : Type 0} (job_id : ℕ) (h : Hub E)
    → IsValid h
    → h.next_id + 1 < word_size
    → let h' = (attach job_id (replayed job_id h) h).0 in
      AllSubs (IsSub h'.subscriber_buffer h'.next_id h'.next_ref h'.chans) h'.subs
attach-known job_id h v room =
    let h' = (attach job_id (replayed job_id h) h).0 in
    let id = u64 (h.next_id + 1) in
    let fine : IsOpen h.subscriber_buffer (replayed job_id h) = record {
      is_open = refl;
      sized = refl;
      fits = history_fits job_id h v;
    } in
    let old : AllSubs (IsSub h'.subscriber_buffer h'.next_id h'.next_ref h'.chans) h.subs =
      AllSubs-map h.subs
        (λ j i s.
          IsSub-mono h.chans h'.chans j i s (omega arith) (omega arith)
            (λ ref o. OpenAt-insert h.chans ref h.next_ref (replayed job_id h) fine o))
        v.known in
    Entries-insert _ job_id _ h.subs
      (Entries-insert _ id _ (or_empty (lookup job_id h.subs))
        (record {
          own_id = refl;
          own_job = refl;
          given_id = le_refl _;
          given_ref = omega arith;
          open_chan = record {
            channel = replayed job_id h;
            found = lookup-insert h.next_ref h.next_ref (replayed job_id h) h.chans ∙ ground arith;
            opened = fine;
          };
        })
        (AllSubs-or_empty _ job_id h.subs old))
      old

-- No subscriber has the channel that is made next, and no id is the next one.
unused : {E : Type 0} (h : Hub E) → IsValid h → sum (uses h.next_ref) h.subs ≡ 0
unused h v = weight-eq-zero (weight (uses h.next_ref)) h.subs (
    Entries-map h.subs
      (λ j inner es.
        weight-eq-zero (uses h.next_ref) inner
          (Entries-map inner (λ i s k. ground (arith, k.given_ref)) es))
      v.known)

fresh_id :
    {E : Type 0} (job_id : ℕ) (h : Hub E)
    → IsValid h
    → h.next_id + 1 < word_size
    → lookup (u64 (h.next_id + 1)) (or_empty (lookup job_id h.subs)) ≡ none
fresh_id job_id h v room =
    let inner = or_empty (lookup job_id h.subs) in
    lookup_above (suc h.next_id) (u64 (h.next_id + 1)) inner
      (Entries-map inner (λ i s k. omega (arith, k.given_id))
        (AllSubs-or_empty _ job_id h.subs v.known))
      (omega arith)

attach-IsValid :
    {E : Type 0} (job_id : ℕ) (h : Hub E)
    → IsValid h
    → h.next_id + 1 < word_size
    → IsValid (attach job_id (replayed job_id h) h).0
attach-IsValid job_id h v room =
    let new_id = u64 (h.next_id + 1) in
    let sub : Subscriber = record { id = new_id; job_id = job_id; ch = h.next_ref } in
    let fresh = fresh_id job_id h v room in
    let more = sum-insert one job_id new_id sub h.subs fresh in
    record {
      positive = v.positive;
      known = attach-known job_id h v room;
      single = λ ref.
          ground
            (arith, sum-insert (uses ref) job_id new_id sub h.subs fresh, v.single ref, unused h v);
      counted = omega (arith, more, v.counted, v.bounded);
      bounded = omega (arith, more, v.bounded);
      small = omega arith;
      trimmed = v.trimmed;
      metered = omega (arith, v.metered);
    }

-- `Subscribe` returns on every valid hub, which stays valid while ids are left: it never waits on
-- the channel that it fills under the lock. On an open hub the new subscriber's channel holds the
-- job's recorded events, in order; on a closed hub it is refused, and nothing changes.
pub subscribe-IsValid :
    {E : Type 0} (job_id : ℕ) (h : Hub E)
    → IsValid h
    → h.next_id + 1 < word_size
    → ((h.closed ≡ true) × (subscribe job_id h ≡ done (h, err (sentinel hub_closed))))
      ⊎ ((h' : Hub E) × (s : Subscription) × (subscribe job_id h ≡ done (h', ok s))
          × IsValid h'
          × (h.closed ≡ false)
          × (h'.closed ≡ false)
          × (lookup s.ch h'.chans ≡ some (replayed job_id h))
          × (h'.next_id ≡ h.next_id + 1))
unfolding subscribe
subscribe-IsValid job_id h v room = elim (Bool-cases h.closed) [
  | inl shut ↦ inl (
    shut,
    ap
        (λ b.
          if b
          then done (h, err (sentinel hub_closed))
          else (replay (or_empty (lookup job_id h.history)) (make_channel h.subscriber_buffer)
              >>= λ c. done (attach job_id c h)))
        shut,
  )
  | inr live ↦
      let made = attach job_id (replayed job_id h) h in
      inr (
        made.0,
        record { job_id = job_id; id = u64 (h.next_id + 1); ch = h.next_ref; once = false },
        subscribe_open job_id h v live,
        attach-IsValid job_id h v room,
        live,
        live,
        lookup-insert h.next_ref h.next_ref (replayed job_id h) h.chans ∙ ground arith,
        omega arith,
      )
]
