-- ===== src/Cbor/Canonical.antt =====
-- Canonical CBOR, described without reading: `encode` is the RFC 8949 §4.2.1 encoding of a value, and
-- `Fits` bounds its depth, lengths and key order as the strict reader of agent_cbor.rs does.
pub mod Sound
pub mod Complete
use d_hsm.Prelude.{
  ℕ, zero, suc, ◌≤◌, ◌≡◌, List, [], ◌++◌, Bool, true, false, Option, none, some, length,
}
use d_hsm.Prelude.Bytes.{IsU64, IsByte}
use d_hsm.Cbor.Value.{
  Value, Items, Entries, unsigned, negative, bytes, text, array, map_of, bool, nil, cons, end,
  entry,
}
use d_hsm.Cbor.Utf8.{is_utf8}
use d_hsm.Cbor.Encode.{put_uint, put_text, put_bytes}
use d_hsm.Cbor.Parser.{ascends, max_array_entries, max_map_entries}

abbrev pub count_items : Items → ℕ
count_items nil = 0
count_items (cons v vs) = suc (count_items vs)

abbrev pub count_entries : Entries → ℕ
count_entries end = 0
count_entries (entry k v es) = suc (count_entries es)

unfoldable mutual
  pub encode : Value → List ℕ
  encode (unsigned n) = put_uint 0 n
  encode (negative n) = put_uint 1 n
  encode (bytes b) = put_bytes b
  encode (text b) = put_text b
  encode (array vs) = put_uint 4 (count_items vs) ++ encode_items vs
  encode (map_of es) = put_uint 5 (count_entries es) ++ encode_entries es
  encode (bool false) = put_uint 7 20
  encode (bool true) = put_uint 7 21

  pub encode_items : Items → List ℕ
  encode_items nil = []
  encode_items (cons v vs) = encode v ++ encode_items vs

  pub encode_entries : Entries → List ℕ
  encode_entries end = []
  encode_entries (entry k v es) = encode k ++ (encode v ++ encode_entries es)

-- `room` levels of nesting are left, texts and byte strings hold at most `max` bytes, arrays and
-- maps at most 64 entries, and the encoded keys of a map ascend strictly.
abbrev mutual
  pub Fits : ℕ → ℕ → Value → Type 0
  Fits max zero v = ⊥
  Fits max (suc room) (unsigned n) = IsU64 n
  Fits max (suc room) (negative n) = IsU64 n
  Fits max (suc room) (bytes b) = (length b ≤ max) × IsU64 (length b)
  Fits max (suc room) (text b) = (length b ≤ max) × IsU64 (length b) × (is_utf8 b ≡ true)
  Fits max (suc room) (array vs) = (count_items vs ≤ max_array_entries) × FitsItems max room vs
  Fits max (suc room) (map_of es) =
      (count_entries es ≤ max_map_entries) × FitsEntries max room none es
  Fits max (suc room) (bool b) = Unit

  pub FitsItems : ℕ → ℕ → Items → Type 0
  FitsItems max room nil = Unit
  FitsItems max room (cons v vs) = Fits max room v × FitsItems max room vs

  pub FitsEntries : ℕ → ℕ → Option (List ℕ) → Entries → Type 0
  FitsEntries max room last end = Unit
  FitsEntries max room last (entry k v es) =
      Fits max room k
      × (ascends last (encode k) ≡ true)
      × Fits max room v
      × FitsEntries max room (some (encode k)) es
