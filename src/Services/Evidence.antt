-- ===== src/Services/Evidence.antt =====
-- `EvidenceStorageService` of apps/api/kerislab/services.py: where the content of an artifact goes. The object
-- storage and the file system are outside: they take the content, or fail with an exception.
use kerislab.Prelude.{String, Bool, Option, ◌&&◌, if◌then◌else◌, concat, some, not, ◌∷◌, [], none}
use kerislab.Dynamic.{is_given}
use kerislab.Exec.{Error, Exec, pure, ◌>>◌, raise_if, raise, evidence_storage_error}

-- What the environment variables say.
pub record StorageSettings : Type 0 where
  pub endpoint : Option String
  pub bucket : String
  pub access_key : Option String
  pub secret_key : Option String
  pub local_root : String

-- `boto3`, if it is installed, with `put_object`; the writing of a text to a path below a
-- directory; and the path that `/` makes.
pub record StorageBackend : Type 0 where
  pub boto3_installed : Bool
  pub put_object : String → String → String → String → Option Error
  pub write_text : String → String → Option Error
  pub join_path : String → String → String

abbrev pub raise_some : Option Error → Exec Unit
raise_some none = pure tt
raise_some (some e) = raise e

module _ (settings : StorageSettings) (backend : StorageBackend) where
  -- `_store_s3`
  unfoldable pub store_s3 : String → String → String → Exec String
  store_s3 key content content_type = do
    raise_if (not backend.boto3_installed)
        (evidence_storage_error "boto3 is required for object storage")
    raise_some (backend.put_object settings.bucket key content content_type)
    pure (concat ("s3://" ∷ settings.bucket ∷ "/" ∷ key ∷ []))

  -- `_store_local`
  unfoldable pub store_local : String → String → Exec String
  store_local key content = do
    let path : String = backend.join_path settings.local_root key
    raise_some (backend.write_text path content)
    pure (concat ("file://" ∷ path ∷ []))

  -- `if self.endpoint and self.access_key and self.secret_key`
  abbrev pub uses_s3 : Bool
  uses_s3 =
      is_given settings.endpoint && is_given settings.access_key && is_given settings.secret_key

  -- `store`
  unfoldable pub store_content : String → String → String → Exec String
  unfolding store_s3 store_local
  store_content key content content_type =
      if uses_s3 then store_s3 key content content_type else store_local key content
