-- ===== src/Stream.antt =====
-- internal/stream/stream.go: the hub that hands job events to the subscribers of the job.
-- Every method but `Close` holds the lock from first to last, so each is one step. `Close` first
-- sets the atomic flag and then takes the lock, which is two steps, `close_mark` and `close_drain`;
-- other calls may come between them.
-- The hub never looks into an event, so its type is a parameter. Go's channels are shared between
-- the hub and the subscribers: they stand in a store, `chans`, by reference, and a subscriber that
-- has left the hub may still read its own.
-- A send on a closed channel and a second close panic, and a send on a full channel blocks its
-- sender, who holds the lock: `Outcome` has both, so that their absence is a theorem.
-- `vars` are the counters that the package publishes by `expvar`.
-- `Stream.Store` are the laws of the store, `Stream.Invariant` what holds of a hub between calls,
-- `Stream.Publishing`, `Stream.Subscribing` and `Stream.Closing` that its calls return and keep it,
-- `Stream.Delivery` what subscribers receive; `Stream.History` are histories of calls,
-- `Stream.Steps` and `Stream.Safety` that no history of calls panics or
-- waits.
use go_max_tech_stack.Prelude.{
  ◌+◌, ◌++◌, ◌==◌, Bool, List, Option, [], false, if◌then◌else◌, length, ltb, none, some, u64, ℕ,
  ◌∷◌, ◌-◌, dec64, drop, is_le_zero, not, rounds, true, word_size, ℤ,
}
use go_max_tech_stack.Failure.Result.{Result, err, ok}
use go_max_tech_stack.Failure.{hub_closed, sentinel}
use go_max_tech_stack.Prelude.Assoc.{insert, lookup, remove}
pub mod Store
pub mod Invariant
pub mod Publishing
pub mod Subscribing
pub mod Leaving
pub mod Delivery
pub mod Closing
pub mod History
pub mod Steps
pub mod Safety
mod Examples

pub data Outcome (A : Type 0) : Type 0 where
  done : A → Outcome A
  panics : Outcome A
  blocks : Outcome A

infixl 5 ◌>>=◌
abbrev pub ◌>>=◌ : {A B : Type 0} → Outcome A → (A → Outcome B) → Outcome B
done a >>= f = f a
panics >>= f = panics
blocks >>= f = blocks

pub record Channel (E : Type 0) : Type 0 where
  pub buffer : List E
  pub cap : ℕ
  pub closed : Bool

pub record Subscriber : Type 0 where
  pub id : ℕ
  pub job_id : ℕ
  pub ch : ℕ

pub record Vars : Type 0 where
  pub subscribers : ℕ
  pub events_total : ℕ
  pub drops_total : ℕ

pub record Hub (E : Type 0) : Type 0 where
  pub subs : List (ℕ × List (ℕ × Subscriber))
  pub history : List (ℕ × List E)
  pub next_id : ℕ
  pub subscriber_buffer : ℕ
  pub subscribers : ℕ
  pub events_total : ℕ
  pub drops_total : ℕ
  pub closed : Bool
  -- The channels made so far, and the reference of the next.
  pub chans : List (ℕ × Channel E)
  pub next_ref : ℕ
  pub vars : Vars

-- What `Subscribe` returns: the channel, and the closure `unsubscribe` with its `sync.Once`.
pub record Subscription : Type 0 where
  pub job_id : ℕ
  pub id : ℕ
  pub ch : ℕ
  pub once : Bool

pub data Received (E : Type 0) : Type 0 where
  item : E → Received E
  ends : Received E
  waits : Received E

-- A missing key of a map of slices or of maps reads as empty.
abbrev pub or_empty {ℓ} : {A : Type ℓ} → Option (List A) → List A
or_empty none = []
or_empty (some l) = l

module _ {E : Type 0} where
  -- `NewHub` panics unless the buffer is positive.
  unfoldable pub new_hub : ℤ → Vars → Outcome (Hub E)
  new_hub subscriber_buffer vars =
      if is_le_zero subscriber_buffer
      then panics
      else done (record {
        subs = [];
        history = [];
        next_id = 0;
        subscriber_buffer = rounds subscriber_buffer;
        subscribers = 0;
        events_total = 0;
        drops_total = 0;
        closed = false;
        chans = [];
        next_ref = 0;
        vars = vars;
      })

  -- `ch <- ev` by a sender that nobody can receive from.
  unfoldable pub send : E → Channel E → Outcome (Channel E)
  send ev c =
      if c.closed
      then panics
      else if ltb (length c.buffer) c.cap
      then done (record c { buffer = c.buffer ++ (ev ∷ []) })
      else blocks

  -- The loop over `h.history[jobID]`, which fills the new channel.
  unfoldable pub replay : List E → Channel E → Outcome (Channel E)
  unfolding send
  replay [] c = done c
  replay (ev ∷ rest) c = send ev c >>= λ c'. replay rest c'

  -- The registration of a new subscriber with its channel.
  abbrev pub attach : ℕ → Channel E → Hub E → Hub E × Result Subscription
  attach job_id c h =
      let id = u64 (h.next_id + 1) in
      let sub : Subscriber = record { id = id; job_id = job_id; ch = h.next_ref } in
      (
        record h {
          subs = insert job_id (insert id sub (or_empty (lookup job_id h.subs))) h.subs;
          next_id = id;
          subscribers = u64 (h.subscribers + 1);
          chans = insert h.next_ref c h.chans;
          next_ref = h.next_ref + 1;
          vars = record {
            subscribers = u64 (h.vars.subscribers + 1);
            events_total = h.vars.events_total;
            drops_total = h.vars.drops_total;
          };
        },
        ok (record { job_id = job_id; id = id; ch = h.next_ref; once = false }),
      )

  abbrev pub make_channel : ℕ → Channel E
  make_channel cap = record { buffer = []; cap = cap; closed = false }

  unfoldable pub subscribe : ℕ → Hub E → Outcome (Hub E × Result Subscription)
  unfolding replay
  subscribe job_id h =
      if h.closed
      then done (h, err (sentinel hub_closed))
      else (replay (or_empty (lookup job_id h.history)) (make_channel h.subscriber_buffer) >>= λ c.
          done (attach job_id c h))

  -- `recordHistoryLocked`: the newest events, as many as a subscriber's buffer holds.
  unfoldable pub record_history_locked : ℕ → E → Hub E → Hub E
  record_history_locked job_id ev h =
      let history = or_empty (lookup job_id h.history) ++ (ev ∷ []) in
      let kept =
        if ltb h.subscriber_buffer (length history)
        then drop (length history - h.subscriber_buffer) history
        else history in
      record h { history = insert job_id kept h.history }

  abbrev pub drop_event : Hub E → Hub E
  drop_event h = record h {
    drops_total = u64 (h.drops_total + 1);
    vars = record {
      subscribers = h.vars.subscribers;
      events_total = h.vars.events_total;
      drops_total = u64 (h.vars.drops_total + 1);
    };
  }

  -- The `select` of `Publish` on one subscriber: a send that is ready, or a drop. A reference that
  -- names no channel is Go's nil channel, which is never ready.
  unfoldable pub offer : E → ℕ → Hub E → Outcome (Hub E)
  offer ev ref h = elim (lookup ref h.chans) [
    | none ↦ done (drop_event h)
    | some c ↦
        if c.closed
        then panics
        else if ltb (length c.buffer) c.cap
        then done
            (record h { chans = insert ref (record c { buffer = c.buffer ++ (ev ∷ []) }) h.chans })
        else done (drop_event h)
  ]

  -- The loop over `h.subs[jobID]`.
  unfoldable pub offer_all : E → List (ℕ × Subscriber) → Hub E → Outcome (Hub E)
  offer_all ev [] h = done h
  offer_all ev ((id, sub) ∷ rest) h = offer ev sub.ch h >>= λ h'. offer_all ev rest h'

  unfoldable pub count_event : Hub E → Hub E
  count_event h = record h {
    events_total = u64 (h.events_total + 1);
    vars = record {
      subscribers = h.vars.subscribers;
      events_total = u64 (h.vars.events_total + 1);
      drops_total = h.vars.drops_total;
    };
  }

  unfoldable pub publish : ℕ → E → Hub E → Outcome (Hub E)
  unfolding count_event record_history_locked
  publish job_id ev h =
      if not h.closed
      then (let h' = record_history_locked job_id ev (count_event h) in
          offer_all ev (or_empty (lookup job_id h'.subs)) h')
      else done h

  -- The body of the closure that `Subscribe` returns, and the closure, which runs it once.
  unfoldable pub release : ℕ → ℕ → Hub E → Hub E
  release job_id id h = elim (lookup job_id h.subs) [
    | none ↦ h
    | some job_subs ↦ elim (lookup id job_subs) [
      | none ↦ h
      | some sub ↦
          let left = remove id job_subs in
          record h {
            subs = if length left == 0 then remove job_id h.subs else insert job_id left h.subs;
            subscribers = dec64 h.subscribers;
            vars = record {
              subscribers = dec64 h.vars.subscribers;
              events_total = h.vars.events_total;
              drops_total = h.vars.drops_total;
            };
          }
    ]
  ]

  unfoldable pub unsubscribe : Subscription → Hub E → Hub E × Subscription
  unfolding release
  unsubscribe s h = if s.once then (h, s) else (release s.job_id s.id h, record s { once = true })

  -- `close(ch)`; closing a nil channel panics too.
  unfoldable pub close_channel : ℕ → List (ℕ × Channel E) → Outcome (List (ℕ × Channel E))
  close_channel ref chans = elim (lookup ref chans) [
    | none ↦ panics
    | some c ↦ if c.closed then panics else done (insert ref (record c { closed = true }) chans)
  ]

  -- The two loops of `Close`, over the jobs and over each job's subscribers.
  unfoldable pub close_subs :
      List (ℕ × Subscriber) → List (ℕ × Channel E) → Outcome (List (ℕ × Channel E))
  close_subs [] chans = done chans
  close_subs ((id, sub) ∷ rest) chans =
      close_channel sub.ch chans >>= λ chans'. close_subs rest chans'

  unfoldable pub close_jobs :
      List (ℕ × List (ℕ × Subscriber)) → List (ℕ × Channel E) → Outcome (List (ℕ × Channel E))
  close_jobs [] chans = done chans
  close_jobs ((job_id, job_subs) ∷ rest) chans =
      close_subs job_subs chans >>= λ chans'. close_jobs rest chans'

  -- The compare-and-swap of `Close`; false means that an earlier `Close` has made it.
  unfoldable pub close_mark : Hub E → Hub E × Bool
  close_mark h = if h.closed then (h, false) else (record h { closed = true }, true)

  -- The end of `Close`, when the loops have closed the channels and deleted every entry.
  unfoldable pub emptied : List (ℕ × Channel E) → Hub E → Hub E
  emptied chans' h =
      if not (h.subscribers == 0)
      then record h {
        subs = [];
        chans = chans';
        subscribers = 0;
        vars = record {
          subscribers = u64 (h.vars.subscribers + (word_size - h.subscribers));
          events_total = h.vars.events_total;
          drops_total = h.vars.drops_total;
        };
      }
      else record h { subs = []; chans = chans' }

  -- `Close` under the lock.
  unfoldable pub close_drain : Hub E → Outcome (Hub E)
  unfolding emptied
  close_drain h = close_jobs h.subs h.chans >>= λ chans'. done (emptied chans' h)

  -- A whole `Close` that nothing comes between.
  unfoldable pub close : Hub E → Outcome (Hub E)
  unfolding close_mark
  close h = let (h', first) = close_mark h in if first then close_drain h' else done h'

  -- A subscriber's receive: the oldest buffered event, or the end of a closed channel, or a wait.
  unfoldable pub receive : ℕ → Hub E → Hub E × Received E
  receive ref h = elim (lookup ref h.chans) [
    | none ↦ (h, waits)
    | some c ↦ elim c.buffer [
      | [] ↦ (h, if c.closed then ends else waits)
      | ev ∷ rest ↦ (record h { chans = insert ref (record c { buffer = rest }) h.chans }, item ev)
    ]
  ]

  unfoldable pub ready : Hub E → Result (Unit {0})
  ready h = if h.closed then err (sentinel hub_closed) else ok tt
