-- ===== src/Cbor/Canonical/Complete.antt =====
-- The strict reader of agent_cbor.rs on the canonical encoding of a value.
use d_hsm.Prelude.{
  ℕ, zero, suc, ◌*◌, ◌≤◌, ◌<◌, ◌≡◌, refl, ◌∙◌, subst, List, [], ◌++◌, append_assoc, append-nil,
  true, false, Option, none, some, arith, length, length-append, take, ◌-◌, take-append_self,
  ltb_of_le,
}
use d_hsm.Prelude.Bytes.{IsU64}
use d_hsm.Cbor.Value.{
  Value, Items, Entries, unsigned, negative, bytes, text, array, map_of, bool, nil, cons, end,
  entry,
}
use d_hsm.Cbor.Utf8.{is_utf8}
use d_hsm.Cbor.Encode.{put_uint, put_text, put_bytes}
use d_hsm.Cbor.Parser.{
  Reader, items, entries, item_body, item_at, strict_decode_map_capped, item, max_array_entries,
  max_map_entries,
}
use d_hsm.Cbor.Head.{head-put_uint, take_n-append}
use d_hsm.Cbor.Canonical.{
  encode, encode_items, encode_entries, Fits, FitsItems, FitsEntries, count_items, count_entries,
}

pub length-put_uint : (major val : ℕ) → 1 ≤ length (put_uint major val)
unfolding put_uint
length-put_uint major val = ground arith

length-encode : (v : Value) → 1 ≤ length (encode v)
unfolding encode put_bytes put_text
length-encode (unsigned n) = length-put_uint 0 n
length-encode (negative n) = length-put_uint 1 n
length-encode (bytes b) =
    omega (arith, length-put_uint 2 (length b), length-append (put_uint 2 (length b)) b)
length-encode (text b) =
    omega (arith, length-put_uint 3 (length b), length-append (put_uint 3 (length b)) b)
length-encode (array vs) =
    let n = count_items vs in
    omega (arith, length-put_uint 4 n, length-append (put_uint 4 n) (encode_items vs))
length-encode (map_of es) =
    let n = count_entries es in
    omega (arith, length-put_uint 5 n, length-append (put_uint 5 n) (encode_entries es))
length-encode (bool true) = length-put_uint 7 21
length-encode (bool false) = length-put_uint 7 20

count_items-le : (vs : Items) → count_items vs ≤ length (encode_items vs)
unfolding encode
count_items-le nil = omega arith
count_items-le (cons v vs) =
    omega (arith, length-encode v, length-append (encode v) (encode_items vs), count_items-le vs)

count_entries-le : (es : Entries) → 2 * count_entries es ≤ length (encode_entries es)
unfolding encode
count_entries-le end = omega arith
count_entries-le (entry k v es) = omega (
  arith,
  length-encode k,
  length-encode v,
  length-append (encode k) (encode v ++ encode_entries es),
  length-append (encode v) (encode_entries es),
  count_entries-le es,
)

-- The slice of the key that the map loop compares.
key_slice : (xs ys : List ℕ) → take (length (xs ++ ys) - length ys) (xs ++ ys) ≡ xs
key_slice xs ys =
    subst (λ n. take n (xs ++ ys) ≡ xs) (omega (arith, length-append xs ys))
      (take-append_self xs ys)

module _ (max : ℕ) (nested : Reader Value) where
  unsigned_body : (n : ℕ) (rest : List ℕ) → item_body max nested 0 n rest ≡ some (unsigned n, rest)
  unfolding item_body
  unsigned_body n rest = refl

  negative_body : (n : ℕ) (rest : List ℕ) → item_body max nested 1 n rest ≡ some (negative n, rest)
  unfolding item_body
  negative_body n rest = refl

  false_body : (rest : List ℕ) → item_body max nested 7 20 rest ≡ some (bool false, rest)
  unfolding item_body
  false_body rest = refl

  true_body : (rest : List ℕ) → item_body max nested 7 21 rest ≡ some (bool true, rest)
  unfolding item_body
  true_body rest = refl

  bytes_body :
      (b rest : List ℕ)
      → length b ≤ max
      → item_body max nested 2 (length b) (b ++ rest) ≡ some (bytes b, rest)
  unfolding item_body
  bytes_body b rest h = rw (ltb_of_le max (length b) h, take_n-append b rest)

  text_body :
      (b rest : List ℕ)
      → length b ≤ max
      → is_utf8 b ≡ true
      → item_body max nested 3 (length b) (b ++ rest) ≡ some (text b, rest)
  unfolding item_body
  text_body b rest h u = rw (ltb_of_le max (length b) h, take_n-append b rest, u)

  array_body :
      (n : ℕ) (s : List ℕ) (vs : Items) (rest : List ℕ)
      → n ≤ max_array_entries
      → n ≤ length s
      → items nested n s ≡ some (vs, rest)
      → item_body max nested 4 n s ≡ some (array vs, rest)
  unfolding item_body
  array_body n s vs rest h k e = rw (ltb_of_le max_array_entries n h, ltb_of_le (length s) n k, e)

  map_body :
      (n : ℕ) (s : List ℕ) (es : Entries) (rest : List ℕ)
      → n ≤ max_map_entries
      → 2 * n ≤ length s
      → entries nested n none s ≡ some (es, rest)
      → item_body max nested 5 n s ≡ some (map_of es, rest)
  unfolding item_body
  map_body n s es rest h k e = rw (ltb_of_le max_map_entries n h, ltb_of_le (length s) (2 * n) k, e)

-- An item's head is read first.
item_at_step :
    (max room major arg : ℕ) (s : List ℕ)
    → major < 8
    → IsU64 arg
    → item_at max (suc room) (put_uint major arg ++ s)
      ≡ item_body max (item_at max room) major arg s
unfolding item_at
item_at_step max room major arg s hm ha = rw (head-put_uint major arg s hm ha)

mutual
  unfolding encode items entries put_bytes put_text

  item_at-encode :
      (v : Value) (max room : ℕ) (rest : List ℕ)
      → Fits max room v
      → item_at max room (encode v ++ rest) ≡ some (v, rest)
  item_at-encode v max zero rest f = absurd f
  item_at-encode (unsigned n) max (suc room) rest f =
      item_at_step max room 0 n rest (omega arith) f ∙ unsigned_body max (item_at max room) n rest
  item_at-encode (negative n) max (suc room) rest f =
      item_at_step max room 1 n rest (omega arith) f ∙ negative_body max (item_at max room) n rest
  item_at-encode (bytes b) max (suc room) rest f =
      rw (append_assoc (put_uint 2 (length b)) b rest) (
        item_at_step max room 2 (length b) (b ++ rest) (omega arith) f.1
        ∙ bytes_body max (item_at max room) b rest f.0)
  item_at-encode (text b) max (suc room) rest f = rw (append_assoc (put_uint 3 (length b)) b rest) (
      item_at_step max room 3 (length b) (b ++ rest) (omega arith) f.1
      ∙ text_body max (item_at max room) b rest f.0 f.2)
  item_at-encode (array vs) max (suc room) rest f =
      let n = count_items vs in
      let s = encode_items vs ++ rest in
      rw (append_assoc (put_uint 4 n) (encode_items vs) rest) (
        item_at_step max room 4 n s (omega arith) (omega (arith, f.0))
        ∙ array_body max (item_at max room) n s vs rest f.0
            (omega (arith, count_items-le vs, length-append (encode_items vs) rest))
            (items-encode vs max room rest f.1))
  item_at-encode (map_of es) max (suc room) rest f =
      let n = count_entries es in
      let s = encode_entries es ++ rest in
      rw (append_assoc (put_uint 5 n) (encode_entries es) rest) (
        item_at_step max room 5 n s (omega arith) (omega (arith, f.0))
        ∙ map_body max (item_at max room) n s es rest f.0
            (omega (arith, count_entries-le es, length-append (encode_entries es) rest))
            (entries-encode es max room none rest f.1))
  item_at-encode (bool false) max (suc room) rest f =
      item_at_step max room 7 20 rest (omega arith) (omega arith)
      ∙ false_body max (item_at max room) rest
  item_at-encode (bool true) max (suc room) rest f =
      item_at_step max room 7 21 rest (omega arith) (omega arith)
      ∙ true_body max (item_at max room) rest

  items-encode :
      (vs : Items) (max room : ℕ) (rest : List ℕ)
      → FitsItems max room vs
      → items (item_at max room) (count_items vs) (encode_items vs ++ rest) ≡ some (vs, rest)
  items-encode nil max room rest f = refl
  items-encode (cons v vs) max room rest f = rw (
    append_assoc (encode v) (encode_items vs) rest,
    item_at-encode v max room (encode_items vs ++ rest) f.0,
    items-encode vs max room rest f.1,
  )

  entries-encode :
      (es : Entries) (max room : ℕ) (last : Option (List ℕ)) (rest : List ℕ)
      → FitsEntries max room last es
      → entries (item_at max room) (count_entries es) last (encode_entries es ++ rest)
        ≡ some (es, rest)
  entries-encode end max room last rest f = refl
  entries-encode (entry k v es) max room last rest f =
      let tail = encode_entries es ++ rest in
      rw (
        append_assoc (encode k) (encode v ++ encode_entries es) rest,
        append_assoc (encode v) (encode_entries es) rest,
        item_at-encode k max room (encode v ++ tail) f.0,
        key_slice (encode k) (encode v ++ tail),
        f.1,
        item_at-encode v max room tail f.2,
        entries-encode es max room (some (encode k)) rest f.3,
      )

-- From the encoding of a map within the bounds and with ascending keys the strict reader returns
-- that map.
pub strict_decode_map_capped-encode :
    (max : ℕ) (m : Entries)
    → Fits max 4 (map_of m)
    → strict_decode_map_capped (encode (map_of m)) max ≡ some m
unfolding strict_decode_map_capped item
strict_decode_map_capped-encode max m f =
    let read = item_at-encode (map_of m) max 4 [] f in
    rw (subst (λ t. item_at max 4 t ≡ some (map_of m, [])) (append-nil (encode (map_of m))) read)
      refl
