-- ===== src/ApiServer/Startup.antt =====
-- The first part of Run in internal/api/server.go: the listeners, the certificate, the worker pool and
-- the gRPC runtime, each with the error that it returns, and what is released when one of them fails.
use go_max_tech_stack.Failure.{Failure}
use go_max_tech_stack.Grpc.Runtime.{Runtime, start_nil}
use go_max_tech_stack.Prelude.{
  Bool, Option, false, none, some, true, ap, arith, inl, inr, refl, ◌≡◌, ◌≢◌, ◌⊎◌,
}

pub data PoolUse : Type 0 where
  idle started told_to_stop : PoolUse

-- What the calls return; `grpc` is none if there is no runtime.
pub record Attempts : Type 0 where
  pub tls_enable : Bool
  pub listen : Option Failure
  pub load_key_pair : Option Failure
  pub listen_tls : Option Failure
  pub start_pool : Option Failure
  pub grpc : Option (Option Failure)

-- What Run holds: which listeners are open, the pool, and whether the service is ready.
pub record Held : Type 0 where
  pub listener : Bool
  pub tls_listener : Bool
  pub pool : PoolUse
  pub ready : Bool

abbrev pub nothing_held : Held
nothing_held = record { listener = false; tls_listener = false; pool = idle; ready = false }

-- `_ = ln.Close()`, and the same for HTTPS.
abbrev pub close_listeners : Held → Held
close_listeners h = record h { listener = false; tls_listener = false }

abbrev pub set_ready : Held → Held × Option Failure
set_ready h = (record h { ready = true }, none)

unfoldable pub start_grpc : Option (Option Failure) → Held → Held × Option Failure
start_grpc none h = set_ready h
start_grpc (some none) h = set_ready h
start_grpc (some (some e)) h = (close_listeners (record h { pool = told_to_stop }), some e)

unfoldable pub start_pool_with :
    Option Failure → Option (Option Failure) → Held → Held × Option Failure
unfolding start_grpc
start_pool_with none grpc h = start_grpc grpc (record h { pool = started })
start_pool_with (some e) grpc h = (close_listeners h, some e)

-- The result of `s.listen` for HTTPS.
unfoldable pub listen_tls_with : Option Failure → Attempts → Held → Held × Option Failure
unfolding start_pool_with
listen_tls_with none a h = start_pool_with a.start_pool a.grpc (record h { tls_listener = true })
listen_tls_with (some e) a h = (record h { listener = false }, some e)

-- The result of tls.LoadX509KeyPair.
unfoldable pub load_key_pair_with : Option Failure → Attempts → Held → Held × Option Failure
unfolding listen_tls_with
load_key_pair_with none a h = listen_tls_with a.listen_tls a h
load_key_pair_with (some e) a h = (record h { listener = false }, some e)

unfoldable pub start_tls : Bool → Attempts → Held → Held × Option Failure
unfolding load_key_pair_with
start_tls true a h = load_key_pair_with a.load_key_pair a h
start_tls false a h = start_pool_with a.start_pool a.grpc h

unfoldable pub listen_with : Option Failure → Attempts → Held × Option Failure
unfolding start_tls
listen_with none a = start_tls a.tls_enable a (record nothing_held { listener = true })
listen_with (some e) a = (nothing_held, some e)

unfoldable pub start_up : Attempts → Held × Option Failure
unfolding listen_with
start_up a = listen_with a.listen a

abbrev pub grpc_starts : Option (Option Failure) → Bool
grpc_starts none = true
grpc_starts (some none) = true
grpc_starts (some (some e)) = false

-- What Run holds once it has started, and once it has failed to.
abbrev pub IsServing : Bool → Option (Option Failure) → Held × Option Failure → Type 0
IsServing tls grpc (h, e) =
    (e ≡ none)
    × (h.listener ≡ true)
    × (h.tls_listener ≡ tls)
    × (h.pool ≡ started)
    × (h.ready ≡ true)
    × (grpc_starts grpc ≡ true)

abbrev pub IsReleased : Held × Option Failure → Type 0
IsReleased (h, e) =
    ((f : Failure) × (e ≡ some f))
    × (h.listener ≡ false)
    × (h.tls_listener ≡ false)
    × (h.pool ≢ started)
    × (h.ready ≡ false)

abbrev Settles : Bool → Option (Option Failure) → Held × Option Failure → Type 0
Settles tls grpc r = IsServing tls grpc r ⊎ IsReleased r

is_idle : PoolUse → Bool
is_idle idle = true
is_idle started = false
is_idle told_to_stop = true

not_started : (u : PoolUse) → is_idle u ≡ true → u ≢ started
unfolding is_idle
not_started u h e = ground (arith, ap is_idle e, h)

start_grpc-Settles :
    (grpc : Option (Option Failure)) (tls : Bool)
    → Settles tls grpc (
        start_grpc grpc
          (record nothing_held { listener = true; tls_listener = tls; pool = started }))
unfolding start_grpc is_idle
start_grpc-Settles none tls = inl (refl, refl, refl, refl, refl, refl)
start_grpc-Settles (some none) tls = inl (refl, refl, refl, refl, refl, refl)
start_grpc-Settles (some (some e)) tls =
    inr ((e, refl), refl, refl, not_started told_to_stop refl, refl)

start_pool-Settles :
    (pool : Option Failure) (grpc : Option (Option Failure)) (tls : Bool)
    → Settles tls grpc
        (start_pool_with pool grpc (record nothing_held { listener = true; tls_listener = tls }))
unfolding start_pool_with is_idle
start_pool-Settles none grpc tls = start_grpc-Settles grpc tls
start_pool-Settles (some e) grpc tls = inr ((e, refl), refl, refl, not_started idle refl, refl)

listen_tls-Settles :
    (listen : Option Failure) (a : Attempts)
    → Settles true a.grpc (listen_tls_with listen a (record nothing_held { listener = true }))
unfolding listen_tls_with is_idle
listen_tls-Settles none a = start_pool-Settles a.start_pool a.grpc true
listen_tls-Settles (some e) a = inr ((e, refl), refl, refl, not_started idle refl, refl)

load_key_pair-Settles :
    (load : Option Failure) (a : Attempts)
    → Settles true a.grpc (load_key_pair_with load a (record nothing_held { listener = true }))
unfolding load_key_pair_with is_idle
load_key_pair-Settles none a = listen_tls-Settles a.listen_tls a
load_key_pair-Settles (some e) a = inr ((e, refl), refl, refl, not_started idle refl, refl)

start_tls-Settles :
    (tls : Bool) (a : Attempts)
    → Settles tls a.grpc (start_tls tls a (record nothing_held { listener = true }))
unfolding start_tls
start_tls-Settles true a = load_key_pair-Settles a.load_key_pair a
start_tls-Settles false a = start_pool-Settles a.start_pool a.grpc false

listen-Settles :
    (listen : Option Failure) (a : Attempts) → Settles a.tls_enable a.grpc (listen_with listen a)
unfolding listen_with is_idle
listen-Settles none a = start_tls-Settles a.tls_enable a
listen-Settles (some e) a = inr ((e, refl), refl, refl, not_started idle refl, refl)

-- Run either serves on its listeners with the pool and the gRPC runtime started and says that it is ready, or returns an
-- error, with every listener closed again, the pool not running unless told to stop, and not ready.
pub start_up_settles :
    (a : Attempts) → IsServing a.tls_enable a.grpc (start_up a) ⊎ IsReleased (start_up a)
unfolding start_up
start_up_settles a = listen-Settles a.listen a

-- The runtime of gRPC that main passes to NewAPIServer: a pointer that is nil if gRPC is not enabled. As
-- an interface it is never nil, so Run calls its Start.
unfoldable pub passed : Option Runtime → Option (Option Failure)
unfolding start_nil
passed runtime = some (start_nil runtime)

-- With gRPC not enabled Run never serves, whatever else succeeds: it returns an error and releases what
-- it holds.
pub disabled_grpc_fails : (a : Attempts) → IsReleased (start_up (record a { grpc = passed none }))
unfolding passed
disabled_grpc_fails a = elim (start_up_settles (record a { grpc = passed none })) [
  | inl serves ↦ absurd (ground (arith, serves.5))
  | inr released ↦ released
]
