-- ===== src/Examples/Preflight.antt =====
-- A run of scripts/compose_preflight.py over an environment file.
use kerislab.Preflight.{
  preflight, Strips, is_unsafe, check_required_text, load_env, load_lines, load_line,
  check_default_secrets, required_text,
}
use kerislab.Prelude.{
  occurs_in, String, none, select, ◌≡◌, some, join, ◌∷◌, refl, [], partition_head, partition_tail,
  any, concat,
}
use kerislab.Dict.{lookup, insert}

abbrev plain : Strips
plain = record { blanks = λ text. text; double_quotes = λ text. text; single_quotes = λ text. text }

abbrev master_key : String
master_key = "LITELLM_MASTER_KEY=change-me"

-- the whole check
key-warned :
    preflight plain
      (λ name. none)
      (join "; " required_text)
      (some (
        "KERISLAB_POSTGRES_PASSWORD=a" ∷ "KERISLAB_MINIO_ROOT_PASSWORD=b"
        ∷ "KERISLAB_BILLING_WEBHOOK_SECRET=c" ∷ master_key ∷ []))
      none
    ≡ (0, "LITELLM_MASTER_KEY is still using a local-development value" ∷ [])
unfolding preflight check_required_text select occurs_in join load_env load_lines load_line
    partition_head partition_tail check_default_secrets is_unsafe any lookup concat insert
key-warned = refl
