-- ===== src/Stream/Closing.antt =====
-- `Close` of internal/stream/stream.go: every subscriber's channel is closed, once.
use go_max_tech_stack.Prelude.{
  ◌++◌, ◌==◌, List, Option, [], ap, arith, fun_ext, if◌then◌else◌, none, refl, some, sym, true, ℕ,
  ◌∙◌, ◌∷◌, ◌≡◌, ◌≤◌, false,
}
use go_max_tech_stack.Stream.{
  ◌>>=◌, Channel, Subscriber, close_channel, close_jobs, close_subs, done, Hub, Outcome, blocks,
  close_drain, panics, emptied,
}
use go_max_tech_stack.Stream.Invariant.{AllSubs, IsValid}
use go_max_tech_stack.Prelude.Assoc.{
  Entries, Entries-append, Entries-map, Entries-zip, eq-zero-weight, insert, lookup, weight,
  weight-append, lookup-insert,
}
use go_max_tech_stack.Stream.Store.{OpenAt, OpenAt-insert_ne, sum, uses}

-- All subscribers of all jobs.
flat : List (ℕ × List (ℕ × Subscriber)) → List (ℕ × Subscriber)
flat [] = []
flat ((job_id, inner) ∷ subs) = inner ++ flat subs

weight-flat :
    (f : Subscriber → ℕ) (subs : List (ℕ × List (ℕ × Subscriber)))
    → weight f (flat subs) ≡ sum f subs
unfolding flat weight
weight-flat f [] = refl
weight-flat f ((job_id, inner) ∷ subs) =
    omega (arith, weight-append f inner (flat subs), weight-flat f subs)

flat-Entries :
    (P : ℕ → ℕ → Subscriber → Type 0) (Q : ℕ → Subscriber → Type 0)
    (subs : List (ℕ × List (ℕ × Subscriber)))
    → ((j i : ℕ) (s : Subscriber) → P j i s → Q i s)
    → AllSubs P subs
    → Entries Q (flat subs)
unfolding flat
flat-Entries P Q [] f h = tt
flat-Entries P Q ((j, inner) ∷ subs) f h =
    Entries-append Q inner (flat subs) (Entries-map inner (f j) h.0) (flat-Entries P Q subs f h.1)

>>=-assoc :
    {A B C : Type 0} (m : Outcome A) (f : A → Outcome B) (g : B → Outcome C)
    → (m >>= λ a. f a >>= g) ≡ ((m >>= f) >>= g)
>>=-assoc (done a) f g = refl
>>=-assoc panics f g = refl
>>=-assoc blocks f g = refl

close_subs-append :
    {E : Type 0} (xs ys : List (ℕ × Subscriber)) (chans : List (ℕ × Channel E))
    → close_subs (xs ++ ys) chans ≡ (close_subs xs chans >>= λ c. close_subs ys c)
unfolding close_subs
close_subs-append [] ys chans = refl
close_subs-append ((i, s) ∷ xs) ys chans =
    ap (λ k. close_channel s.ch chans >>= k) (fun_ext (λ c. close_subs-append xs ys c))
    ∙ >>=-assoc (close_channel s.ch chans) (close_subs xs) (close_subs ys)

close_jobs-flat :
    {E : Type 0} (subs : List (ℕ × List (ℕ × Subscriber))) (chans : List (ℕ × Channel E))
    → close_jobs subs chans ≡ close_subs (flat subs) chans
unfolding close_jobs close_subs flat
close_jobs-flat [] chans = refl
close_jobs-flat ((j, inner) ∷ subs) chans =
    ap (λ k. close_subs inner chans >>= k) (fun_ext (λ c. close_jobs-flat subs c))
    ∙ sym (close_subs-append inner (flat subs) chans)

abbrev pub shut : {E : Type 0} → Option (Channel E) → Option (Channel E)
shut none = none
shut (some c) = some (record c { closed = true })

-- Every channel of the list has been closed, and no other has changed.
abbrev pub Shut : {E : Type 0} → (ℕ → ℕ) → List (ℕ × Channel E) → List (ℕ × Channel E) → Type 0
Shut users chans chans' =
    (ref : ℕ)
    → lookup ref chans' ≡ (if users ref == 0 then lookup ref chans else shut (lookup ref chans))

close_channel_open :
    {E : Type 0} (ref : ℕ) (chans : List (ℕ × Channel E)) (c : Channel E)
    → lookup ref chans ≡ some c
    → c.closed ≡ false
    → close_channel ref chans ≡ done (insert ref (record c { closed = true }) chans)
unfolding close_channel
close_channel_open ref chans c e o =
    rw (e, close_channel)
      (ap (λ b. if b then panics else done (insert ref (record c { closed = true }) chans)) o)

close_subs-Shut :
    {E : Type 0} (buffer : ℕ) (xs : List (ℕ × Subscriber)) (chans : List (ℕ × Channel E))
    → Entries (λ _ s. OpenAt buffer chans s.ch) xs
    → ((ref : ℕ) → weight (uses ref) xs ≤ 1)
    → (chans' : List (ℕ × Channel E)) × (close_subs xs chans ≡ done chans')
      × Shut (λ ref. weight (uses ref) xs) chans chans'
unfolding close_subs weight
close_subs-Shut buffer [] chans all one_each = (chans, refl, λ ref. refl)
close_subs-Shut buffer ((i, s) ∷ xs) chans all one_each =
    let c = all.0.channel in
    let c' = record c { closed = true } in
    let chans1 = insert s.ch c' chans in
    let apart : Entries (λ _ t. uses s.ch t ≡ 0) xs =
      eq-zero-weight (uses s.ch) xs (ground (arith, one_each s.ch)) in
    let still : Entries (λ _ t. OpenAt buffer chans1 t.ch) xs =
      Entries-zip xs (λ k t o z. OpenAt-insert_ne chans t.ch s.ch c' (ground (arith, z)) o) all.1
        apart in
    let (chans2, out, rest) =
      close_subs-Shut buffer xs chans1 still (λ ref. omega (arith, one_each ref)) in
    (
      chans2,
      ap (λ m. m >>= close_subs xs)
            (close_channel_open s.ch chans c all.0.found all.0.opened.is_open)
          ∙ out,
      λ ref. ground (arith, rest ref, lookup-insert s.ch ref c' chans, one_each ref, all.0.found),
    )

-- The fields of the hub that `Close` leaves.
record Emptied {E : Type 0} (chans' : List (ℕ × Channel E)) (h h' : Hub E) : Type 0 where
  no_subs : h'.subs ≡ []
  no_count : h'.subscribers ≡ 0
  no_var : h'.vars.subscribers ≡ 0
  new_chans : h'.chans ≡ chans'
  same_closed : h'.closed ≡ h.closed
  same_next_id : h'.next_id ≡ h.next_id
  same_buffer : h'.subscriber_buffer ≡ h.subscriber_buffer
  same_history : h'.history ≡ h.history

emptied-Emptied :
    {E : Type 0} (chans' : List (ℕ × Channel E)) (h : Hub E)
    → IsValid h
    → Emptied chans' h (emptied chans' h)
unfolding emptied
emptied-Emptied chans' h v = record {
  no_subs = ground arith;
  no_count = ground arith;
  no_var = ground (arith, v.metered, v.counted, v.bounded, v.small);
  new_chans = ground arith;
  same_closed = ground arith;
  same_next_id = ground arith;
  same_buffer = ground arith;
  same_history = ground arith;
}

Emptied-IsValid :
    {E : Type 0} {chans' : List (ℕ × Channel E)} {h h' : Hub E}
    → Emptied chans' h h'
    → IsValid h
    → IsValid h'
unfolding weight
Emptied-IsValid e v = record {
  positive = omega (arith, v.positive, e.same_buffer);
  known = rw e.no_subs tt;
  single = λ ref. rw e.no_subs (omega arith);
  counted = rw e.no_subs (e.no_count);
  bounded = rw e.no_subs (omega arith);
  small = rw e.same_next_id v.small;
  trimmed = rw (e.same_history, e.same_buffer) v.trimmed;
  metered = e.no_var ∙ sym e.no_count;
}

-- What `Close` does under the lock to a valid hub: it returns, without closing any channel twice;
-- the hub stays valid, with no subscriber left and the count of subscribers at 0; a channel is
-- closed exactly if a subscriber had it, with what it still buffers, and every other channel is
-- untouched.
pub close_drain_closes :
    {E : Type 0} (h : Hub E)
    → IsValid h
    → (h' : Hub E) × (close_drain h ≡ done h')
      × IsValid h'
      × (h'.subs ≡ [])
      × (h'.subscribers ≡ 0)
      × (h'.closed ≡ h.closed)
      × (h'.next_id ≡ h.next_id)
      × Shut (λ ref. sum (uses ref) h.subs) h.chans h'.chans
unfolding close_drain
close_drain_closes {E} h v =
    let all : Entries (λ _ s. OpenAt h.subscriber_buffer h.chans s.ch) (flat h.subs) =
      flat-Entries _ _ h.subs (λ j i s k. k.open_chan) v.known in
    let (chans', out, closes) =
      close_subs-Shut h.subscriber_buffer (flat h.subs) h.chans all
        (λ ref. omega (arith, weight-flat (uses ref) h.subs, v.single ref)) in
    let e = emptied-Emptied chans' h v in
    (
      emptied chans' h,
      ap (λ m. m >>= λ c. done (emptied c h)) (close_jobs-flat h.subs h.chans ∙ out),
      Emptied-IsValid e v,
      e.no_subs,
      e.no_count,
      e.same_closed,
      e.same_next_id,
      λ ref.
          ap (lookup ref) e.new_chans
          ∙ closes ref
          ∙ ap (λ n. if n == 0 then lookup ref h.chans else shut (lookup ref h.chans))
              (weight-flat (uses ref) h.subs),
    )
