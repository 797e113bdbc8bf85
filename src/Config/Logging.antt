-- ===== src/Config/Logging.antt =====
-- internal/config/logging.go: the levels and formats of the log, and which handler NewLogger makes.
-- slog's levels are the numbers that log/slog documents.
use go_max_tech_stack.Config.{LoggingConfig}
use go_max_tech_stack.Config.Loading.{
  Loading, loaded, rejects, reject_if, ◌>>◌, is_empty, unsupported, is_required,
}
use go_max_tech_stack.Config.Lookup.{Platform, one_of}
use go_max_tech_stack.Text.{Text, codes, text_eq, trim_space}
use go_max_tech_stack.Prelude.{
  Bool, Option, String, [], false, if◌then◌else◌, map, negsuc, none, not, pos, some, true, ℤ, ◌∷◌,
}

pub data LogHandler : Type 0 where
  text_handler : ℤ → Bool → LogHandler
  json_handler : ℤ → Bool → LogHandler

module _ (p : Platform) where
  open p use {lookup_env, lower}

  -- normalizeLogLevel and normalizeLogFormat.
  abbrev pub normalize_log : Text → Text
  normalize_log s = map lower (trim_space s)

  unfoldable pub slog_level : Text → Option ℤ
  slog_level l =
      let level = normalize_log l in
      if text_eq level (codes "debug")
      then some (negsuc 3)
      else if text_eq level (codes "info")
      then some (pos 0)
      else if text_eq level (codes "warn")
      then some (pos 4)
      else if text_eq level (codes "error")
      then some (pos 8)
      else none

  unfoldable pub is_valid_log_format : Text → Bool
  unfolding one_of
  is_valid_log_format format = one_of (normalize_log format) (codes "text" ∷ codes "json" ∷ [])

  abbrev pub has_level : Text → Bool
  has_level l = elim (slog_level l) [ none ↦ false | some n ↦ true ]

  unfoldable pub lookup_log_level : String → Text → Loading Text
  unfolding slog_level
  lookup_log_level key def = elim (lookup_env key) [
    | none ↦ loaded def
    | some v ↦ do
      reject_if (text_eq (trim_space v) []) key [] is_empty
      reject_if (not (has_level (map lower (trim_space v)))) key (trim_space v) unsupported
      loaded (map lower (trim_space v))
  ]

  unfoldable pub lookup_log_format : String → Text → Loading Text
  unfolding is_valid_log_format
  lookup_log_format key def = elim (lookup_env key) [
    | none ↦ loaded def
    | some v ↦ do
      reject_if (text_eq (trim_space v) []) key [] is_empty
      reject_if (not (is_valid_log_format (map lower (trim_space v)))) key (trim_space v)
          unsupported
      loaded (map lower (trim_space v))
  ]

  -- The flag is `w == nil`.
  unfoldable pub new_logger : Bool → LoggingConfig → Loading LogHandler
  unfolding slog_level
  new_logger no_writer cfg = do
    reject_if no_writer "log writer" [] is_required
    elim (slog_level cfg.level) [
      | none ↦ rejects "log level" cfg.level unsupported
      | some level ↦
          if text_eq (normalize_log cfg.format) (codes "text")
          then loaded (text_handler level cfg.add_source)
          else if text_eq (normalize_log cfg.format) (codes "json")
          then loaded (json_handler level cfg.add_source)
          else rejects "log format" cfg.format unsupported
    ]
