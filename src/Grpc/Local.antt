-- ===== src/Grpc/Local.antt =====
-- A gRPC server on a loopback address, as the configuration asks for.
use go_max_tech_stack.Config.{Config}
use go_max_tech_stack.Config.Loading.{loaded, ◌>>=◌, ◌>>◌, reject_if}
use go_max_tech_stack.Config.Sample.{on, split_known}
use go_max_tech_stack.Config.Defaults.{default_config}
use go_max_tech_stack.Config.Load.{load}
use go_max_tech_stack.Grpc.Server.{Library, server_config, new_runtime_with_config}
use go_max_tech_stack.Grpc.Loaded.{loaded-Opens, Opens}
use go_max_tech_stack.Grpc.Runtime.{new_runtime}
use go_max_tech_stack.Failure.Result.{ok}
use go_max_tech_stack.Text.{Text, codes, text_eq, trim_space, index_byte}
use go_max_tech_stack.Text.Laws.{text_eq_iff}
use go_max_tech_stack.Prelude.{
  Bool-cases, List, String, [], arith, false, inl, inr, none, refl, subst, true, ◌∷◌, ◌≡◌,
}
use go_max_tech_stack.Config.Lookup.{is_loopback_host}

abbrev free : Library
free = record {
  load_key_pair = λ c k. none;
  read_file = λ s. ok s;
  append_certs = λ s. true;
  listen = λ s. none;
}

abbrev enabled : List (String × Text)
enabled = ("GRPC_ENABLE", codes "true") ∷ ("GRPC_ADDR", codes " localhost:9090") ∷ []

abbrev local : Config
local = record default_config {
  grpc = record default_config.grpc { enable = true; addr = codes "localhost:9090" };
}

local_loads : load (on enabled) ≡ loaded local
unfolding load ◌>>=◌ ◌>>◌ reject_if text_eq trim_space index_byte
local_loads = refl

local_opens : new_runtime_with_config (on enabled) free (server_config local.grpc) ≡ ok new_runtime
unfolding new_runtime_with_config text_eq trim_space is_loopback_host
local_opens = refl

not_blank :
    (s t : Text)
    → text_eq (trim_space t) [] ≡ false
    → text_eq (trim_space s) [] ≡ true
    → text_eq s t ≡ false
not_blank s t h b = elim (Bool-cases (text_eq s t)) [
  | inl e ↦
      absurd
        (ground (arith, h, subst (λ u. text_eq (trim_space u) [] ≡ true) ((text_eq_iff s t).0 e) b))
  | inr e ↦ e
]

blank_split : (s : Text) → text_eq (trim_space s) [] ≡ true → split_known s ≡ none
unfolding text_eq trim_space
blank_split s b =
    rw (not_blank s (codes ":9090") refl b, not_blank s (codes "localhost:9090") refl b) refl

loaded-Opens_example :
    Opens
      (on enabled)
      free
      local.grpc
      (new_runtime_with_config (on enabled) free (server_config local.grpc))
loaded-Opens_example = loaded-Opens (on enabled) free local blank_split local_loads refl
