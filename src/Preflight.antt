-- ===== src/Preflight.antt =====
-- scripts/compose_preflight.py: the check of the deployment before it is started. What `docker compose config`
-- renders, the lines of the two files, the environment variables and the forms of `str.strip` are
-- parameters.
pub mod Warnings
use kerislab.Prelude.{
  String, List, Option, Bool, concat, map, some, ℕ, [], ◌∷◌, partition_tail, partition_head, select,
  if◌then◌else◌, any, not, ◌==◌, none, occurs_in, ◌||◌, starts_with,
}
use kerislab.Dict.{Dict, lookup, insert}

-- `str.strip()`, `.strip('"')` and `.strip("'")`
pub record Strips : Type 0 where
  pub blanks : String → String
  pub double_quotes : String → String
  pub single_quotes : String → String

abbrev pub required_text : List String
required_text =
    "VITE_API_BASE_URL: /api"
    ∷ "KERISLAB_GOOGLE_REDIRECT_URI: http://localhost:5173/api/auth/oidc/callback"
    ∷ "KERISLAB_SSO_REDIRECT_URI: http://localhost:5173/api/auth/oidc/callback"
    ∷ "condition: service_healthy" ∷ "KERISLAB_REDIS_URL: redis://redis:6379/0"
    ∷ "KERISLAB_OBJECT_STORAGE_ENDPOINT: http://minio:9000" ∷ []

abbrev pub default_secret_names : List String
default_secret_names =
    "KERISLAB_POSTGRES_PASSWORD" ∷ "KERISLAB_MINIO_ROOT_PASSWORD" ∷ "LITELLM_MASTER_KEY"
    ∷ "KERISLAB_BILLING_WEBHOOK_SECRET" ∷ []

abbrev pub unsafe_values : List String
unsafe_values =
    "" ∷ "change-me" ∷ "kerislab_change_me" ∷ "sk-kerislab-local" ∷ "kerislab-webhook-secret" ∷ []

module _ (strips : Strips) where
  abbrev pub is_skipped : String → Bool
  is_skipped line = line == "" || starts_with line "#" || not (occurs_in "=" line)

  -- the name and the value of a line, without its blanks
  abbrev pub name_of : String → String
  name_of line = strips.blanks (partition_head "=" line)

  abbrev pub value_in : String → String
  value_in line =
      strips.single_quotes (strips.double_quotes (strips.blanks (partition_tail "=" line)))

  unfoldable pub load_line : String → Dict String → Dict String
  load_line raw_line values =
      let line = strips.blanks raw_line in
      if is_skipped line then values else insert (name_of line) (value_in line) values

  unfoldable pub load_lines : List String → Dict String → Dict String
  load_lines [] values = values
  load_lines (raw_line ∷ rest) values = load_lines rest (load_line raw_line values)

  -- `load_env`, for the lines of the file if it exists
  unfoldable pub load_env : Option (List String) → Dict String
  load_env none = []
  load_env (some raw_lines) = load_lines raw_lines []

unfoldable pub check_required_text : String → List String
check_required_text rendered_config =
    select (λ text. not (occurs_in text rendered_config)) required_text

abbrev pub or_value : Option String → Option String → String
or_value (some value) other = value
or_value none (some value) = value
or_value none none = ""

-- `os.getenv(name, env_values.get(name, "")) in unsafe_values`
unfoldable pub is_unsafe : (String → Option String) → Dict String → String → Bool
is_unsafe getenv env_values name =
    any (λ value. value == or_value (getenv name) (lookup name env_values)) unsafe_values

abbrev pub warning_of : String → String
warning_of name = concat (name ∷ " is still using a local-development value" ∷ [])

unfoldable pub check_default_secrets : (String → Option String) → Dict String → List String
check_default_secrets getenv env_values =
    map warning_of (select (is_unsafe getenv env_values) default_secret_names)

-- `load_env(...) or load_env(...)`
abbrev pub or_example : Dict String → Dict String → Dict String
or_example [] other = other
or_example (entry ∷ values) other = entry ∷ values

-- `main`: its exit status, and the missing texts or the warnings that it prints
unfoldable pub preflight :
    Strips
    → (String → Option String)
    → String
    → Option (List String)
    → Option (List String)
    → ℕ × List String
preflight strips getenv rendered_config env_file example_file =
    elim (check_required_text rendered_config) [
      | [] ↦ (
        0,
        check_default_secrets getenv
            (or_example (load_env strips env_file) (load_env strips example_file)),
      )
      | text ∷ missing ↦ (1, text ∷ missing)
    ]
