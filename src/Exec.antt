-- ===== src/Exec.antt =====
-- Methods of the services as actions: they read and write the store, read the clock and draw
-- random identifiers, and may raise. What was written before a raise stays written, so the state
-- comes back beside the error too.

use Prim.Native.String.{slice}
use kerislab.Prelude.{
  ℕ, ◌+◌, String, Option, none, some, Bool, true, false, [], ◌∷◌, concat, if◌then◌else◌, List,
}
use kerislab.Dict.{lookup, insert}
use kerislab.Models.Payload.{Time, Value}
use kerislab.Store.State.{Store}
use kerislab.Store.Collections.{Collection}

-- What a service takes from outside the repository, as functions: the n-th reading of the clock,
-- the n-th hexadecimal UUID, the n-th `token_urlsafe`, the texts of a moment, what `urlparse`
-- and `ipaddress` answer, `str` of a dynamic value that is no text, `str.lower` and `str.strip`.
pub data IpAddress : Type 0 where
  v4 v6 : ℕ → IpAddress

pub record Url : Type 0 where
  pub scheme : String
  pub hostname : Option String

pub record Env : Type 0 where
  pub clock : ℕ → Time
  pub uuid4_hex : ℕ → String
  pub token_urlsafe : ℕ → String
  pub strftime : Time → String
  pub isoformat : Time → String
  pub urlparse : String → Url
  pub ip_address : String → Option IpAddress
  pub is_private : IpAddress → Bool
  pub show_ip : IpAddress → String
  pub show_value : Value → String
  pub lower : String → String
  pub strip : String → String

-- The process: its store, its surroundings, how often it has read the clock and drawn from the
-- random source, and the queue of its execution engine.
pub record World : Type 0 where
  pub store : Store
  pub env : Env
  pub ticks : ℕ
  pub drawn : ℕ
  pub queue : List String

-- The exceptions of services.py, scope.py, store.py, auth.py and main.py, and those of Python that
-- they let through.
pub data Error : Type 0 where
  not_found value_error credit_error approval_error authorization_error oauth_state_error :
      String → Error
  billing_error evidence_storage_error scope_error key_error runner_error : String → Error
  oauth_configuration_error : String → Error
  http_exception : ℕ → String → Error
  stop_iteration : Error

-- `str(exc)`; the text of a `KeyError` is its key in quotes. No caller of a handler asks for the
-- text of an `HTTPException`, which stands for its detail.
unfoldable pub message : Error → String
message (not_found text) = text
message (value_error text) = text
message (credit_error text) = text
message (approval_error text) = text
message (authorization_error text) = text
message (oauth_state_error text) = text
message (billing_error text) = text
message (evidence_storage_error text) = text
message (scope_error text) = text
message (key_error key) = concat ("'" ∷ key ∷ "'" ∷ [])
message (runner_error text) = text
message (oauth_configuration_error text) = text
message (http_exception status_code detail) = detail
message stop_iteration = ""

pub data Result (A : Type 0) : Type 0 where
  ok : A → Result A
  err : Error → Result A

-- whether a call returned
abbrev pub returned : {A : Type 0} → Result A → Bool
returned (ok _) = true
returned (err _) = false

abbrev pub Exec : Type 0 → Type 0
Exec A = World → Result A × World

-- Behind a step: go on with its result, or pass its exception on.
abbrev pub proceed : {A B : Type 0} → Result A × World → (A → Exec B) → Result B × World
proceed (ok a, w) f = f a w
proceed (err e, w) f = (err e, w)

infixl 5 ◌>>=◌ ◌>>◌
abbrev pub ◌>>=◌ : {A B : Type 0} → Exec A → (A → Exec B) → Exec B
◌>>=◌ m f w = proceed (m w) f

abbrev pub ◌>>◌ : {A B : Type 0} → Exec A → Exec B → Exec B
m >> k = m >>= λ _. k

module _ {A : Type 0} where
  abbrev pub pure : A → Exec A
  pure a w = (ok a, w)

  abbrev pub raise : Error → Exec A
  raise e w = (err e, w)

  abbrev pub gets : (Store → A) → Exec A
  gets f w = (ok (f w.store), w)

  abbrev pub asks : (Env → A) → Exec A
  asks f w = (ok (f w.env), w)

  abbrev pub or_raise : Option A → Error → Exec A
  or_raise none e = raise e
  or_raise (some a) e = pure a

  -- `try`, with the exception as a value
  abbrev pub attempt : Exec A → Exec (Result A)
  attempt m w = let (r, w') = m w in (ok r, w')

abbrev pub raise_if : Bool → Error → Exec Unit
raise_if test e w = (if test then err e else ok tt, w)

abbrev pub modify : (Store → Store) → Exec Unit
modify f w = (ok tt, record w { store = f w.store })

-- `now_utc()`
abbrev pub now_utc : Exec Time
now_utc w = (ok (w.env.clock w.ticks), record w { ticks = w.ticks + 1 })

-- The identifier that `new_id` returns at the given number of earlier draws: the first twelve digits of the
-- drawn UUID behind the prefix.
unfoldable pub next_id : String → Env → ℕ → String
next_id prefix env drawn = concat (prefix ∷ "_" ∷ slice (env.uuid4_hex drawn) 0 12 ∷ [])

-- `new_id(prefix)`
abbrev pub new_id : String → Exec String
new_id prefix w = (ok (next_id prefix w.env w.drawn), record w { drawn = w.drawn + 1 })

-- `token_urlsafe(n)`
abbrev pub token_urlsafe : Exec String
token_urlsafe w = (ok (w.env.token_urlsafe w.drawn), record w { drawn = w.drawn + 1 })

-- A dataclass whose constructor fills in an identifier and then a creation time: both come from
-- the world in which it is called.
abbrev pub new_entity : {A : Type 0} → (World → A) → Exec A
new_entity make w = (ok (make w), record w { ticks = w.ticks + 1; drawn = w.drawn + 1 })

module _ {V : Type 0} where
  -- `store.get(collection, entity_id, label)`
  abbrev pub get : Collection V → String → String → Exec V
  get c entity_id label w =
      or_raise (lookup entity_id (c.read w.store))
        (not_found (concat (label ∷ " not found: " ∷ entity_id ∷ []))) w

  -- `collection[key] = entity`; also what a mutation of the entity under `key` does to the store
  abbrev pub put : Collection V → String → V → Exec Unit
  put c key entity = modify (λ s. c.write (insert key entity (c.read s)) s)

  -- `collection[key]`, which raises `KeyError`
  abbrev pub at : Collection V → String → Exec V
  at c key w = or_raise (lookup key (c.read w.store)) (key_error key) w

  -- `store.add(collection, entity)`
  abbrev pub add : Collection V → V → Exec V
  add c entity = do put c (c.key entity) entity; pure entity

-- `store.sync()` and `store.reload()` of `StoreBase`, which `InMemoryStore` inherits
abbrev pub sync : Exec Unit
sync = pure tt

abbrev pub reload : Exec Unit
reload = pure tt
