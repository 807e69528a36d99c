-- ===== src/Cbor/Value.antt =====
-- The CBOR values that the strict reader builds (a part of ciborium's `Value`).
-- `negative n` is -1 - n; a text is the list of its UTF-8 bytes.
use d_hsm.Prelude.{ℕ, Bool, List}

mutual
  pub data Value : Type 0 where
    unsigned : ℕ → Value
    negative : ℕ → Value
    bytes : List ℕ → Value
    text : List ℕ → Value
    array : Items → Value
    map_of : Entries → Value
    bool : Bool → Value

  pub data Items : Type 0 where
    nil : Items
    cons : Value → Items → Items

  pub data Entries : Type 0 where
    end : Entries
    entry : Value → Value → Entries → Entries
