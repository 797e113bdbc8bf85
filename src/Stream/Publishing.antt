-- ===== src/Stream/Publishing.antt =====
-- `Publish` of internal/stream/stream.go returns on every valid hub, and keeps it valid.
use go_max_tech_stack.Prelude.{
  ◌++◌, ◌-◌, Bool-cases, List, [], ap, arith, drop, false, if◌then◌else◌, inl, inr, length,
  length-append, length-drop, ltb, not, refl, subst, sym, true, ℕ, ◌∙◌, ◌∷◌, ◌≡◌, ◌≤◌, ◌==◌, Option,
  none, some,
}
use go_max_tech_stack.Stream.Invariant.{
  AllSubs-or_empty, IsValid, Keeps, Keeps-IsValid, Keeps-refl, Keeps-trans,
}
use go_max_tech_stack.Prelude.Assoc.{
  Entries, Entries-insert, Entries-map, insert, lookup, lookup-insert, weight,
}
use go_max_tech_stack.Stream.{
  Hub, Subscriber, count_event, done, drop_event, offer, offer_all, or_empty, publish,
  record_history_locked, ◌>>=◌, Channel,
}
use go_max_tech_stack.Stream.Store.{OpenAt, OpenAt-insert, uses}
use go_max_tech_stack.Stream.Closing.{shut}

-- What a subscriber's channel is after an event: the event is the last in its buffer, if it has
-- room, and lost for this subscriber otherwise.
abbrev pub taken : {E : Type 0} → E → Option (Channel E) → Option (Channel E)
taken ev none = none
taken ev (some c) =
    some (if ltb (length c.buffer) c.cap then record c { buffer = c.buffer ++ (ev ∷ []) } else c)

-- Whatever one subscriber's channel holds, the offer returns and keeps the hub, and no other
-- channel changes.
offer-Keeps :
    {E : Type 0} (ev : E) (ref : ℕ) (h : Hub E)
    → OpenAt h.subscriber_buffer h.chans ref
    → (h' : Hub E) × (offer ev ref h ≡ done h')
      × Keeps h h'
      × ((k : ℕ)
          → lookup k h'.chans
            ≡ (if ref == k then taken ev (lookup k h.chans) else lookup k h.chans))
unfolding offer
offer-Keeps ev ref h o = elim (Bool-cases (ltb (length o.channel.buffer) o.channel.cap)) [
  | inl room ↦ (
    record h {
      chans = insert ref (record (o.channel) { buffer = o.channel.buffer ++ (ev ∷ []) }) h.chans;
    },
    rw (o.found, offer) (rw (o.opened.is_open, room) refl),
    record {
      same_subs = refl;
      same_next_id = refl;
      same_buffer = refl;
      same_count = refl;
      same_next_ref = refl;
      same_var = refl;
      same_closed = refl;
      same_history = refl;
      keeps_open = λ k. OpenAt-insert h.chans k ref _ (record {
        is_open = o.opened.is_open;
        sized = o.opened.sized;
        fits = ground (arith, length-append o.channel.buffer (ev ∷ []), room);
      });
    },
    λ k. ground (
      arith,
      room,
      o.found,
      lookup-insert ref k (record (o.channel) { buffer = o.channel.buffer ++ (ev ∷ []) }) h.chans,
    ),
  )
  | inr full ↦ (
    drop_event h,
    rw (o.found, offer) (rw (o.opened.is_open, full) refl),
    record {
      same_subs = refl;
      same_next_id = refl;
      same_buffer = refl;
      same_count = refl;
      same_next_ref = refl;
      same_var = refl;
      same_closed = refl;
      same_history = refl;
      keeps_open = λ k o. o;
    },
    λ k. ground (arith, full, o.found),
  )
]

pub offer_all-Keeps :
    {E : Type 0} (ev : E) (inner : List (ℕ × Subscriber)) (h : Hub E)
    → Entries (λ _ s. OpenAt h.subscriber_buffer h.chans s.ch) inner
    → (h' : Hub E) × (offer_all ev inner h ≡ done h')
      × Keeps h h'
      × (((ref : ℕ) → weight (uses ref) inner ≤ 1)
          → (k : ℕ)
          → lookup k h'.chans ≡ (
              if weight (uses k) inner == 0 then lookup k h.chans else taken ev (lookup k h.chans)))
unfolding offer_all weight
offer_all-Keeps ev [] h all = (h, refl, Keeps-refl h, λ one_each k. refl)
offer_all-Keeps ev ((id, s) ∷ inner) h all =
    let (h1, out, k, at_once) = offer-Keeps ev s.ch h all.0 in
    let still : Entries (λ _ s. OpenAt h1.subscriber_buffer h1.chans s.ch) inner =
      Entries-map inner
        (λ _ s o. subst (λ n. OpenAt n h1.chans s.ch) (sym k.same_buffer) (k.keeps_open s.ch o))
        all.1 in
    let (h2, out', k', later) = offer_all-Keeps ev inner h1 still in
    (
      h2,
      ap (λ m. m >>= offer_all ev inner) out ∙ out',
      Keeps-trans k k',
      λ one_each j.
          ground (arith, later (λ ref. omega (arith, one_each ref)) j, at_once j, one_each j),
    )

trimmed-length :
    {E : Type 0} (buffer : ℕ) (evs : List E)
    → length (if ltb buffer (length evs) then drop (length evs - buffer) evs else evs) ≤ buffer
trimmed-length buffer evs = ground (arith, length-drop (length evs - buffer) evs)

pub recorded-IsValid :
    {E : Type 0} (job_id : ℕ) (ev : E) (h : Hub E)
    → IsValid h
    → IsValid (record_history_locked job_id ev (count_event h))
unfolding record_history_locked count_event
recorded-IsValid job_id ev h v = record {
  positive = v.positive;
  known = v.known;
  single = v.single;
  counted = v.counted;
  bounded = v.bounded;
  small = v.small;
  trimmed =
      Entries-insert (λ _ evs. length evs ≤ h.subscriber_buffer) job_id _ h.history
        (trimmed-length h.subscriber_buffer (or_empty (lookup job_id h.history) ++ (ev ∷ [])))
        v.trimmed;
  metered = v.metered;
}

pub publish_open :
    {E : Type 0} (job_id : ℕ) (ev : E) (h : Hub E)
    → h.closed ≡ false
    → let h1 = record_history_locked job_id ev (count_event h) in
      publish job_id ev h ≡ offer_all ev (or_empty (lookup job_id h1.subs)) h1
unfolding publish
publish_open job_id ev h live =
    let h1 = record_history_locked job_id ev (count_event h) in
    ap (λ b. if not b then offer_all ev (or_empty (lookup job_id h1.subs)) h1 else done h) live

pub publish_closed :
    {E : Type 0} (job_id : ℕ) (ev : E) (h : Hub E) → h.closed ≡ true → publish job_id ev h ≡ done h
unfolding publish
publish_closed job_id ev h shut =
    let h1 = record_history_locked job_id ev (count_event h) in
    ap (λ b. if not b then offer_all ev (or_empty (lookup job_id h1.subs)) h1 else done h) shut

-- `Publish` returns on every valid hub, which stays valid: it neither panics on a closed channel
-- nor waits for a slow subscriber.
pub publish-IsValid :
    {E : Type 0} (job_id : ℕ) (ev : E) (h : Hub E)
    → IsValid h
    → (h' : Hub E) × (publish job_id ev h ≡ done h')
      × IsValid h'
      × (h'.next_id ≡ h.next_id)
      × (h'.closed ≡ h.closed)
      × (h'.subs ≡ h.subs)
unfolding record_history_locked count_event
publish-IsValid job_id ev h v = elim (Bool-cases h.closed) [
  | inl shut ↦ (h, publish_closed job_id ev h shut, v, refl, refl, refl)
  | inr live ↦
      let h1 = record_history_locked job_id ev (count_event h) in
      let v1 = recorded-IsValid job_id ev h v in
      let all = AllSubs-or_empty _ job_id h1.subs v1.known in
      let (h2, out, k, got) =
        offer_all-Keeps ev (or_empty (lookup job_id h1.subs)) h1
          (Entries-map (or_empty (lookup job_id h1.subs)) (λ _ s i. i.open_chan) all) in
      (
        h2,
        publish_open job_id ev h live ∙ out,
        Keeps-IsValid k v1,
        k.same_next_id,
        k.same_closed,
        k.same_subs,
      )
]
