-- ===== src/Models/Payload.antt =====
-- Values of Python's dynamic dictionaries (`dict[str, Any]`) and moments of time.
use kerislab.Prelude.{ℕ, String, Bool}
use kerislab.Prelude.Int.{ℤ}

-- A UTC `datetime`, in microseconds since the epoch.
abbrev pub Time : Type 0
Time = ℕ

mutual
  pub data Value : Type 0 where
    null : Value
    bool : Bool → Value
    num : ℤ → Value
    str : String → Value
    arr : Items → Value
    obj : Payload → Value

  pub data Items : Type 0 where
    nil : Items
    cons : Value → Items → Items

  -- a `dict[str, Any]`, in insertion order
  pub data Payload : Type 0 where
    end : Payload
    field : String → Value → Payload → Payload
