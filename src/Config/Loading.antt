-- ===== src/Config/Loading.antt =====
-- What a step of internal/config/config.go returns: a value, or the error that ends `Load`. Of the text
-- of an error are kept the variable that it begins with, what it quotes of the environment, if
-- anything, and the reason.
use go_max_tech_stack.Text.{Text}
use go_max_tech_stack.Prelude.{
  Bool, String, false, true, ◌≡◌, refl, subst, ◌&&◌, inl, inr, not, ◌⊎◌, if◌then◌else◌, arith, ltb,
  ℕ, ◌≤◌,
}

pub data Reason : Type 0 where
  is_empty no_int no_duration no_bool no_url not_above_zero below_zero : Reason
  no_host_port port_is_empty unsupported : Reason
  bad_scheme host_is_empty has_fragment has_userinfo has_path : Reason
  empty_item bad_key_item empty_kid empty_secret duplicate_kid no_keys : Reason
  bad_method bad_header bad_proxy : Reason
  is_required needs_loopback any_origin_with_credentials : Reason
  development_secret short_secret below_tls_12 headers_disabled trusts_everyone : Reason

pub data Loading {ℓ} (A : Type ℓ) : Type ℓ where
  loaded : A → Loading A
  -- The variable, its value where the text has it, and what is wrong.
  rejects : String → Text → Reason → Loading A

infixl 5 ◌>>=◌ ◌>>◌
unfoldable pub ◌>>=◌ {ℓ κ} : {A : Type ℓ} {B : Type κ} → Loading A → (A → Loading B) → Loading B
loaded a >>= f = f a
rejects key v why >>= f = rejects key v why

unfoldable pub ◌>>◌ {ℓ κ} : {A : Type ℓ} {B : Type κ} → Loading A → Loading B → Loading B
unfolding ◌>>=◌
m >> k = m >>= λ _. k

-- `if wrong { return ..., err }`.
unfoldable pub reject_if : Bool → String → Text → Reason → Loading (Unit {0})
reject_if true key v why = rejects key v why
reject_if false key v why = loaded tt

loaded_inj {ℓ} : {A : Type ℓ} {a b : A} → loaded a ≡ loaded b → a ≡ b
loaded_inj e = cc

-- A fact of whatever value a step returns.
pub data Post {ℓ κ} {A : Type ℓ} (P : A → Type κ) : Loading A → Type (ℓ ⊔ κ) where
  returns : {a : A} → P a → Post P (loaded a)
  ends : {key : String} {v : Text} {why : Reason} → Post P (rejects key v why)

pub Post-bind {ℓ κ μ ν} :
    {A : Type ℓ} {B : Type κ} {P : A → Type μ} {Q : B → Type ν} {f : A → Loading B} {m : Loading A}
    → Post P m
    → ((a : A) → P a → Post Q (f a))
    → Post Q (m >>= f)
unfolding ◌>>=◌
Post-bind (returns {a = a} h) k = k a h
Post-bind ends k = ends

pub Post-weaken {ℓ κ μ} :
    {A : Type ℓ} {P : A → Type κ} {Q : A → Type μ} {m : Loading A}
    → Post P m
    → ((a : A) → P a → Q a)
    → Post Q m
Post-weaken (returns {a = a} h) k = returns (k a h)
Post-weaken ends k = ends

pub Post-then {ℓ κ μ ν} :
    {A : Type ℓ} {B : Type κ} {P : Type μ} {Q : B → Type ν} {k : Loading B} {m : Loading A}
    → Post (λ a. P) m
    → (P → Post Q k)
    → Post Q (m >> k)
unfolding ◌>>◌
Post-then h k = Post-bind h (λ a. k)

pub Post-any {ℓ} : {A : Type ℓ} {m : Loading A} → Post (λ a. Unit {0}) m
Post-any {m = loaded a} = returns tt
Post-any {m = rejects key v why} = ends

pub Post-if :
    (wrong : Bool) (key : String) (v : Text) (why : Reason)
    → Post (λ u. wrong ≡ false) (reject_if wrong key v why)
unfolding reject_if
Post-if true key v why = ends
Post-if false key v why = returns refl

pub Post-ite {ℓ κ} :
    {A : Type ℓ} {Q : A → Type κ} {m n : Loading A} (b : Bool)
    → (b ≡ true → Post Q m)
    → (b ≡ false → Post Q n)
    → Post Q (if b then m else n)
Post-ite true h k = h refl
Post-ite false h k = k refl

pub Post-loaded {ℓ κ} :
    {A : Type ℓ} {P : A → Type κ} {m : Loading A} {a : A} → Post P m → m ≡ loaded a → P a
Post-loaded {P = P} (returns h) e = subst P (loaded_inj e) h
Post-loaded ends e = cc

pub not-false : {b : Bool} → not b ≡ false → b ≡ true
not-false {b = true} h = refl
not-false {b = false} h = cc

pub and-not-false : {a b : Bool} → (a && not b) ≡ false → (a ≡ false) ⊎ (b ≡ true)
and-not-false {a = true} {b = true} h = inr refl
and-not-false {a = true} {b = false} h = cc
and-not-false {a = false} h = inl refl

pub and-false : {a b : Bool} → (a && b) ≡ false → (a ≡ false) ⊎ (b ≡ false)
and-false {a = true} h = inr h
and-false {a = false} h = inl refl

pub neither : {a b : Bool} → (not a && not b) ≡ true → (a ≡ false) × (b ≡ false)
neither {a = true} h = cc
neither {a = false} {b = true} h = cc
neither {a = false} {b = false} h = (refl, refl)

pub true-not : {b : Bool} → not b ≡ true → b ≡ false
true-not {b = true} h = cc
true-not {b = false} h = refl

pub not_ltb : (m n : ℕ) → ltb m n ≡ false → n ≤ m
not_ltb m n h = ground arith
