-- ===== src/Cbor/Parser.antt =====
-- `StrictParser` of agent_cbor.rs. The reader's state is what it has not read, `buf[pos..]`; a read
-- returns the value with what is left, and `none` is `Err(())`. A `usize` has 64 bits.
use Prim.Native.Nat.{bit_and}
use d_hsm.Prelude.{
  ℕ, zero, suc, ◌+◌, ◌-◌, ◌*◌, ◌/◌, List, [], ◌∷◌, Bool, true, false, not, ◌||◌, Option, none, some,
  ltb, leb, ◌==◌, if◌then◌else◌, ◌>>=◌, ◌>>◌, require, length, take, drop,
}
use d_hsm.Prelude.Bytes.{be_value, bytes_lt}
use d_hsm.Cbor.Value.{
  Value, Items, Entries, unsigned, negative, bytes, text, array, map_of, bool, nil, cons, end,
  entry,
}
use d_hsm.Cbor.Utf8.{is_utf8}

abbrev pub max_cbor_depth : ℕ
max_cbor_depth = 4

abbrev pub max_map_entries : ℕ
max_map_entries = 64

abbrev pub max_array_entries : ℕ
max_array_entries = 64

abbrev pub max_str_len : ℕ
max_str_len = 4096

-- A reader of `A`.
abbrev pub Reader {ℓ} : Type ℓ → Type ℓ
Reader A = List ℕ → Option (A × List ℕ)

unfoldable pub u8 : Reader ℕ
u8 [] = none
u8 (b ∷ rest) = some (b, rest)

unfoldable pub take_n : ℕ → Reader (List ℕ)
take_n n s = if leb n (length s) then some (take n s, drop n s) else none

-- An argument of `n` bytes, refused where it is at most `limit`: a shorter form would hold it.
unfoldable pub wide : ℕ → ℕ → Reader ℕ
unfolding take_n
wide n limit s = do
  (b, rest) ← take_n n s
  require (not (leb (be_value b) limit))
  some (be_value b, rest)

-- The `match minor` of `head`.
unfoldable pub argument : ℕ → Reader ℕ
unfolding u8 wide
argument minor s =
    if ltb minor 24
    then some (minor, s)
    else if minor == 24
    then (do (v, rest) ← u8 s; require (not (ltb v 24)); some (v, rest))
    else if minor == 25
    then wide 2 0xff s
    else if minor == 26
    then wide 4 0xffff s
    else if minor == 27
    then wide 8 0xffff_ffff s
    else none

-- The major type and the argument.
unfoldable pub head : Reader (ℕ × ℕ)
unfolding u8 argument
head s = do (ib, s1) ← u8 s; (arg, s2) ← argument (bit_and ib 0x1f) s1; some ((ib / 32, arg), s2)

abbrev pub is_empty : List ℕ → Bool
is_empty [] = true
is_empty (b ∷ rest) = false

-- A key must stand strictly above the key before it, as encoded.
abbrev pub ascends : Option (List ℕ) → List ℕ → Bool
ascends none key = true
ascends (some last) key = bytes_lt last key

-- The loop of an array, over the reader of an element.
unfoldable pub items : Reader Value → ℕ → Reader Items
items element zero s = some (nil, s)
items element (suc n) s = do
  (v, s1) ← element s
  (vs, s2) ← items element n s1
  some (cons v vs, s2)

-- The loop of a map; `last` is the encoded key of the entry before.
unfoldable pub entries : Reader Value → ℕ → Option (List ℕ) → Reader Entries
entries element zero last s = some (end, s)
entries element (suc n) last s = do
  (k, s1) ← element s
  let key = take (length s - length s1) s
  require (ascends last key)
  (v, s2) ← element s1
  (es, s3) ← entries element n (some key) s2
  some (entry k v es, s3)

-- The `match major` of `item`, over the reader of a nested item.
unfoldable pub item_body : ℕ → Reader Value → ℕ → ℕ → Reader Value
unfolding take_n items entries
item_body max_bstr nested major arg s =
    if major == 0
    then some (unsigned arg, s)
    else if major == 1
    then some (negative arg, s)
    else if major == 2
    then (if ltb max_bstr arg then none else do (b, rest) ← take_n arg s; some (bytes b, rest))
    else if major == 3
    then (if ltb max_bstr arg
        then none
        else do (b, rest) ← take_n arg s; require (is_utf8 b); some (text b, rest))
    else if major == 4
    then (if ltb max_array_entries arg || ltb (length s) arg
        then none
        else do (vs, rest) ← items nested arg s; some (array vs, rest))
    else if major == 5
    then (if ltb max_map_entries arg || ltb (length s) (2 * arg)
        then none
        else do (es, rest) ← entries nested arg none s; some (map_of es, rest))
    else if major == 7
    then (if arg == 20
        then some (bool false, s)
        else if arg == 21
        then some (bool true, s)
        else none)
    else none

-- `item`, by the levels that are left: at depth `max_cbor_depth + 1` there are none.
unfoldable pub item_at : ℕ → ℕ → Reader Value
unfolding head item_body
item_at max_bstr zero s = none
item_at max_bstr (suc room) s = do
  ((major, arg), rest) ← head s
  item_body max_bstr (item_at max_bstr room) major arg rest

unfoldable pub item : ℕ → ℕ → Reader Value
unfolding item_at
item max_bstr depth = item_at max_bstr (max_cbor_depth + 1 - depth)

abbrev pub as_map : Value → Option Entries
as_map (map_of m) = some m
as_map _ = none

unfoldable pub strict_decode_map_capped : List ℕ → ℕ → Option Entries
unfolding item
strict_decode_map_capped wire max_bstr = do
  (v, rest) ← item max_bstr 1 wire
  require (is_empty rest)
  as_map v

unfoldable pub strict_decode_map : List ℕ → Option Entries
unfolding strict_decode_map_capped
strict_decode_map wire = strict_decode_map_capped wire max_str_len

-- The typed reads.
unfoldable pub typed_head : ℕ → Reader ℕ
unfolding head
typed_head expected s = do
  ((major, arg), rest) ← head s
  require (major == expected)
  some (arg, rest)

unfoldable pub uint : Reader ℕ
unfolding typed_head
uint = typed_head 0

unfoldable pub bstr : ℕ → Reader (List ℕ)
unfolding typed_head take_n
bstr max s = do (len, rest) ← typed_head 2 s; require (not (ltb max len)); take_n len rest

unfoldable pub bstr_exact : ℕ → Reader (List ℕ)
unfolding typed_head take_n
bstr_exact n s = do (len, rest) ← typed_head 2 s; require (len == n); take_n n rest

unfoldable pub text_max : ℕ → Reader (List ℕ)
unfolding typed_head take_n
text_max max s = do
  (len, s1) ← typed_head 3 s
  require (not (ltb max len))
  (b, s2) ← take_n len s1
  require (is_utf8 b)
  some (b, s2)
