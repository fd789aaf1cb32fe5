-- ===== src/Examples/Sample.antt =====
-- The surroundings, the records and the worlds of the examples.
use kerislab.Store.State.{Store, empty}
use kerislab.Models.Scanning.{Target}
use kerislab.Prelude.{ℕ, [], concat, String, if◌then◌else◌, ◌∷◌, false, eqb, some, none, refl}
use kerislab.Services.Lifecycle.{
  Drawn, act, empty-Books, creates, Reaches-Books, Reaches, grants, here, step,
}
use kerislab.Exec.{World, Env}
use kerislab.Services.Scans.Creation.{Order, FreshScan}
use kerislab.Services.Books.{Books}
use kerislab.Models.Status.{ScanType}
use kerislab.Services.Credits.{grant, append_entry, account, or_new_account}
use kerislab.Dict.{lookup}
use kerislab.Prelude.Int.{pos}

-- A clock that counts its readings, and a random source whose draws differ in their first digit.
abbrev digits : ℕ → String
digits n =
    if eqb n 0
    then "a"
    else if eqb n 1
    then "b"
    else if eqb n 2
    then "c"
    else if eqb n 3
    then "d"
    else "e"

abbrev pub sample_env : Env
sample_env = record {
  clock = λ n. n;
  uuid4_hex = λ n. concat (digits n ∷ "00000000000000000000000000000000" ∷ []);
  token_urlsafe = λ n. concat ("token-" ∷ digits n ∷ []);
  strftime = λ t. "20260101";
  isoformat = λ t. "2026-01-01T00:00:00+00:00";
  urlparse = λ url. record { scheme = "https"; hostname = some "example.com" };
  ip_address = λ host. none;
  is_private = λ ip. false;
  show_ip = λ ip. "";
  show_value = λ value. "";
  lower = λ text. text;
  strip = λ text. text;
}

abbrev pub sample_target : Target
sample_target = record {
  workspace_id = "wsp";
  project_id = "prj";
  name = "site";
  url = "https://example.com/app";
  includes = [];
  excludes = "logout" ∷ [];
  allow_private_networks = false;
  id = "tgt";
  created_at = 0;
}

-- a store with the target alone
abbrev pub sample_store : Store
sample_store = record empty { targets = ("tgt", sample_target) ∷ [] }

abbrev pub in_world : Store → World
in_world s = record { store = s; env = sample_env; ticks = 0; drawn = 0; queue = [] }

abbrev pub sample_world : World
sample_world = in_world sample_store

abbrev pub sample_order : Order
sample_order = record {
  workspace_id = "wsp";
  project_id = "prj";
  target_id = "tgt";
  scan_type = ScanType.passive_blackbox;
  model_profile_id = "mdl";
  instructions = "";
}

-- two credits granted, and then a scan ordered
abbrev pub granted_world : World
granted_world = act (grants "wsp" (pos 2) "trial") sample_world

abbrev pub ordered_world : World
ordered_world = act (creates sample_order) granted_world

pub sample_Books : Books sample_store
sample_Books = empty-Books

pub granted-FreshScan : FreshScan granted_world
unfolding act grant append_entry account or_new_account lookup
granted-FreshScan = refl

pub ordered-Reaches : Reaches sample_world ordered_world
unfolding Drawn
ordered-Reaches =
    step (creates sample_order) granted_world
      (step (grants "wsp" (pos 2) "trial") sample_world here tt) granted-FreshScan

pub ordered_Books : Books ordered_world.store
ordered_Books = Reaches-Books ordered-Reaches sample_Books
