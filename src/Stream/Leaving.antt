-- ===== src/Stream/Leaving.antt =====
-- The closure that `Subscribe` of internal/stream/stream.go returns, and a subscriber's receive.
use go_max_tech_stack.Prelude.{
  ◌==◌, Option-cases, arith, false, if◌then◌else◌, inl, inr, length, refl, true, ℕ, ◌≡◌, ==_iff,
  Bool-cases, List, List-cases, ap, some, subst, ◌∙◌, ◌∷◌, [],
}
use go_max_tech_stack.Stream.Invariant.{AllSubs, IsSub, IsValid, Keeps, Keeps-refl}
use go_max_tech_stack.Stream.{Channel, Hub, Subscription, receive, release, unsubscribe}
use go_max_tech_stack.Prelude.Assoc.{
  Entries, Entries-insert, Entries-lookup, Entries-remove, insert, lookup, remove, lookup-insert,
}
use go_max_tech_stack.Stream.Store.{one, sum-remove, uses, IsOpen, OpenAt, OpenAt-insert_ne}

-- Taking a subscriber away keeps the hub valid, and the counters fall with it.
pub release-IsValid :
    {E : Type 0} (job_id id : ℕ) (h : Hub E) → IsValid h → IsValid (release job_id id h)
unfolding release
release-IsValid job_id id h v = elim (Option-cases (lookup job_id h.subs)) [
  | inl e ↦ rw (e, release) v
  | inr (inner, e) ↦ elim (Option-cases (lookup id inner)) [
    | inl e' ↦ rw (e, release) (rw (e', release) v)
    | inr (s, e') ↦
        let left = remove id inner in
        let P = IsSub h.subscriber_buffer h.next_id h.next_ref h.chans in
        let kept : Entries (P job_id) left =
          Entries-remove (P job_id) id inner
            (Entries-lookup (λ j l. Entries (P j) l) job_id inner h.subs v.known e) in
        rw (e, release)
          (rw (e', release)
            (record {
              positive = v.positive;
              known =
                  elim (length left == 0)
                    as (λ b.
                      AllSubs P (if b then remove job_id h.subs else insert job_id left h.subs)) [
                        | true ↦ Entries-remove (λ j l. Entries (P j) l) job_id h.subs v.known
                        | false ↦
                            Entries-insert (λ j l. Entries (P j) l) job_id left h.subs kept v.known
                      ];
              single = λ ref.
                  omega (arith, sum-remove (uses ref) job_id id s inner h.subs e e', v.single ref);
              counted = omega (
                arith,
                sum-remove one job_id id s inner h.subs e e',
                v.counted,
                v.bounded,
                v.small,
              );
              bounded = omega (arith, sum-remove one job_id id s inner h.subs e e', v.bounded);
              small = v.small;
              trimmed = v.trimmed;
              metered = omega (arith, v.metered);
            }))
  ]
]

-- A closure that has run does nothing any more, and running it twice is running it once.
pub unsubscribe_once :
    {E : Type 0} (s : Subscription) (h : Hub E)
    → let (h1, s1) = unsubscribe s h in unsubscribe s1 h1 ≡ (h1, s1)
unfolding unsubscribe
unsubscribe_once s h = ground arith

-- Reading from a channel leaves every open channel open.
read_open :
    {E : Type 0} {buffer : ℕ} (chans : List (ℕ × Channel E)) (ref k : ℕ) (c : Channel E) (ev : E)
    (rest : List E)
    → lookup ref chans ≡ some c
    → c.buffer ≡ ev ∷ rest
    → OpenAt buffer chans k
    → OpenAt buffer (insert ref (record c { buffer = rest }) chans) k
read_open {E} {buffer} chans ref k c ev rest e b o = elim (Bool-cases (ref == k)) [
  | inl hit ↦
      let same : o.channel ≡ c = cc ((==_iff ref k).0 hit, e, o.found) in
      let still : IsOpen buffer c = subst (IsOpen buffer) same o.opened in
      record {
        channel = record c { buffer = rest };
        found = lookup-insert ref k (record c { buffer = rest }) chans ∙ rw hit refl;
        opened = record {
          is_open = still.is_open;
          sized = still.sized;
          fits = omega (arith, still.fits, ap length b);
        };
      }
  | inr miss ↦ OpenAt-insert_ne chans k ref _ miss o
]

pub receive-Keeps : {E : Type 0} (ref : ℕ) (h : Hub E) → Keeps h (receive ref h).0
unfolding receive
receive-Keeps ref h = elim (Option-cases (lookup ref h.chans)) [
  | inl e ↦ rw (e, receive) (Keeps-refl h)
  | inr (c, e) ↦ elim (List-cases c.buffer) [
    | inl b ↦ rw (e, receive) (rw (b, receive) (Keeps-refl h))
    | inr (ev, rest, b) ↦
        rw (e, receive)
          (rw (b, receive)
            (record {
              same_subs = refl;
              same_next_id = refl;
              same_buffer = refl;
              same_count = refl;
              same_next_ref = refl;
              same_var = refl;
              same_closed = refl;
              same_history = refl;
              keeps_open = λ k o. read_open h.chans ref k c ev rest e b o;
            }))
  ]
]

pub release-closed :
    {E : Type 0} (job_id id : ℕ) (h : Hub E) → (release job_id id h).closed ≡ h.closed
unfolding release
release-closed job_id id h = ground arith

pub release-next_id :
    {E : Type 0} (job_id id : ℕ) (h : Hub E) → (release job_id id h).next_id ≡ h.next_id
unfolding release
release-next_id job_id id h = ground arith

pub release-empty :
    {E : Type 0} (job_id id : ℕ) (h : Hub E) → h.subs ≡ [] → (release job_id id h).subs ≡ []
unfolding release lookup
release-empty job_id id h e = ground arith
