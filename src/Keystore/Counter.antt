-- ===== src/Keystore/Counter.antt =====
-- `KeystoreBody::advance_counter` of agent_keystore.rs, and the lookup of a counter row that
-- agent_capability.rs makes.
pub mod Forward
use d_hsm.Prelude.{
  ℕ, List, [], ◌∷◌, ◌++◌, Bool, true, ◌&&◌, Option, none, some, leb, ◌==◌, if◌then◌else◌, length,
}
use d_hsm.Prelude.Bytes.{bytes_eq}
use d_hsm.Keystore.Types.{
  KeystoreBody, CounterEntry, Result, ok, err, counter_regression, capacity_exceeded,
  max_counter_entries, ◌>>=◌,
}

-- The tuple that names a row.
pub record RowKey : Type 0 where
  pub authority : List ℕ
  pub environment_identifier : List ℕ
  pub scope_class : ℕ
  pub scope_target : List ℕ

unfoldable pub matches : RowKey → CounterEntry → Bool
unfolding bytes_eq
matches k c =
    bytes_eq c.authority k.authority
    && bytes_eq c.environment_identifier k.environment_identifier
    && c.scope_class == k.scope_class
    && bytes_eq c.scope_target k.scope_target

-- `find` on the table.
unfoldable pub find_row : RowKey → List CounterEntry → Option CounterEntry
unfolding matches
find_row k [] = none
find_row k (c ∷ cs) = if matches k c then some c else find_row k cs

-- The write through `iter_mut().find`: the first row that matches.
unfoldable pub set_row : RowKey → ℕ → List CounterEntry → List CounterEntry
unfolding matches
set_row k incoming [] = []
set_row k incoming (c ∷ cs) =
    if matches k c
    then record c { highest_accepted_counter = incoming } ∷ cs
    else c ∷ set_row k incoming cs

abbrev pub new_row : RowKey → ℕ → CounterEntry
new_row k incoming = record {
  authority = k.authority;
  environment_identifier = k.environment_identifier;
  scope_class = k.scope_class;
  scope_target = k.scope_target;
  highest_accepted_counter = incoming;
}

abbrev pub advanced :
    RowKey → ℕ → List CounterEntry → Option CounterEntry → Result (List CounterEntry)
advanced k incoming counters (some c) =
    if leb incoming c.highest_accepted_counter
    then err counter_regression
    else ok (set_row k incoming counters)
advanced k incoming counters none =
    if leb max_counter_entries (length counters)
    then err capacity_exceeded
    else ok (counters ++ (new_row k incoming ∷ []))

abbrev pub row_key : KeystoreBody → List ℕ → ℕ → List ℕ → RowKey
row_key body authority scope_class scope_target = record {
  authority = authority;
  environment_identifier = body.config.environment_identifier;
  scope_class = scope_class;
  scope_target = scope_target;
}

unfoldable pub advance_counter : KeystoreBody → List ℕ → ℕ → List ℕ → ℕ → Result KeystoreBody
unfolding find_row set_row
advance_counter body authority scope_class scope_target incoming = do
  let k = row_key body authority scope_class scope_target
  counters ← advanced k incoming body.counters (find_row k body.counters)
  ok (record body { counters = counters })
