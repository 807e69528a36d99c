-- ===== src/Cbor/Canonical/Sound.antt =====
-- The strict reader of agent_cbor.rs: what an accepted input is.
use d_hsm.Prelude.{
  ℕ, zero, suc, ◌-◌, ◌<◌, ◌≡◌, refl, sym, ap, ◌∙◌, subst, List, [], ◌∷◌, ◌++◌, append_assoc,
  append-nil, true, Option, none, some, arith, ltb, ◌*◌, ◌||◌, >>=-eq-some, length, length-append,
  take, take-append_self, All, All-split, require, require-true, eq_of_some, unless-some, le_of_ltb,
  or-eq_false,
}
use d_hsm.Prelude.Bytes.{IsByte, IsU64}
use d_hsm.Cbor.Value.{Value, Items, Entries, map_of}
use d_hsm.Cbor.Utf8.{is_utf8}
use d_hsm.Cbor.Encode.{put_uint, put_text, put_bytes}
use d_hsm.Cbor.Parser.{
  Reader, items, entries, item_body, item_at, head, take_n, strict_decode_map_capped, item, as_map,
  is_empty, ascends, max_array_entries, max_map_entries,
}
use d_hsm.Cbor.Head.{head_sound, take_n_sound}
use d_hsm.Cbor.Canonical.{
  encode, encode_items, encode_entries, Fits, FitsItems, FitsEntries, count_items, count_entries,
}

-- What a read of `s` to `v` with `rest` left must have found.
abbrev pub Reads : ℕ → ℕ → Reader Value → Type 0
Reads max room element =
    (s : List ℕ) (v : Value) (rest : List ℕ)
    → All IsByte s
    → element s ≡ some (v, rest)
    → (s ≡ encode v ++ rest) × Fits max room v

-- The slice between the cursors before and after a read.
consumed : {s : List ℕ} (xs ys : List ℕ) → s ≡ xs ++ ys → take (length s - length ys) s ≡ xs
consumed xs ys e = rw e (
    subst (λ n. take n (xs ++ ys) ≡ xs) (omega (arith, length-append xs ys))
      (take-append_self xs ys))

-- Two reads in a row, joined.
joined : {s s1 : List ℕ} (xs ys zs : List ℕ) → s ≡ xs ++ s1 → s1 ≡ ys ++ zs → s ≡ (xs ++ ys) ++ zs
joined xs ys zs e f = e ∙ ap (λ t. xs ++ t) f ∙ sym (append_assoc xs ys zs)

-- A length and the bytes it counts, behind their head.
framed :
    (major : ℕ) {s : List ℕ} {arg : ℕ} (b r : List ℕ)
    → s ≡ b ++ r
    → length b ≡ arg
    → put_uint major arg ++ s ≡ (put_uint major (length b) ++ b) ++ r
framed major b r split len = rw (split, ← len) (sym (append_assoc (put_uint major (length b)) b r))

counted_frame :
    (major : ℕ) {s : List ℕ} {arg n : ℕ} (body r : List ℕ)
    → s ≡ body ++ r
    → n ≡ arg
    → put_uint major arg ++ s ≡ (put_uint major n ++ body) ++ r
counted_frame major {n} body r split counted =
    rw (split, ← counted) (sym (append_assoc (put_uint major n) body r))

module _ (max room : ℕ) (element : Reader Value) (reads : Reads max room element) where
  abbrev ItemsRead : ℕ → List ℕ → Items × List ℕ → Type 0
  ItemsRead n s p = (s ≡ encode_items p.0 ++ p.1) × (count_items p.0 ≡ n) × FitsItems max room p.0

  items_sound :
      (n : ℕ) (s : List ℕ) (vs : Items) (rest : List ℕ)
      → All IsByte s
      → items element n s ≡ some (vs, rest)
      → ItemsRead n s (vs, rest)
  unfolding items encode
  items_sound zero s vs rest hs h = subst (ItemsRead zero s) (eq_of_some h) (refl, refl, tt)
  items_sound (suc n) s vs rest hs h =
      let ((v, s1), first, h1) = >>=-eq-some (element s) _ h in
      let ((vs', s2), others, h2) = >>=-eq-some (items element n s1) _ h1 in
      let (split, fits) = reads s v s1 hs first in
      let hs1 = (All-split IsByte (encode v) s1 split hs).1 in
      let (split', counted, fits') = items_sound n s1 vs' s2 hs1 others in
      subst (ItemsRead (suc n) s) (eq_of_some h2)
        (joined (encode v) (encode_items vs') s2 split split', ap suc counted, (fits, fits'))

  abbrev EntriesRead : ℕ → Option (List ℕ) → List ℕ → Entries × List ℕ → Type 0
  EntriesRead n last s p =
      (s ≡ encode_entries p.0 ++ p.1) × (count_entries p.0 ≡ n) × FitsEntries max room last p.0

  entries_sound :
      (n : ℕ) (last : Option (List ℕ)) (s : List ℕ) (es : Entries) (rest : List ℕ)
      → All IsByte s
      → entries element n last s ≡ some (es, rest)
      → EntriesRead n last s (es, rest)
  unfolding entries encode
  entries_sound zero last s es rest hs h =
      subst (EntriesRead zero last s) (eq_of_some h) (refl, refl, tt)
  entries_sound (suc n) last s es rest hs h =
      let ((k, s1), first, h1) = >>=-eq-some (element s) _ h in
      let (u, above, h2) =
        >>=-eq-some (require (ascends last (take (length s - length s1) s))) _ h1 in
      let ((v, s2), second, h3) = >>=-eq-some (element s1) _ h2 in
      let ((es', s3), others, h4) = >>=-eq-some (entries element n _ s2) _ h3 in
      let (split, fits) = reads s k s1 hs first in
      let hs1 = (All-split IsByte (encode k) s1 split hs).1 in
      let (split1, fits1) = reads s1 v s2 hs1 second in
      let hs2 = (All-split IsByte (encode v) s2 split1 hs1).1 in
      let key : take (length s - length s1) s ≡ encode k = consumed (encode k) s1 split in
      let others' = subst (λ t. entries element n (some t) s2 ≡ some (es', s3)) key others in
      let above' = subst (λ t. ascends last t ≡ true) key (require-true _ above) in
      let (split2, counted, fits2) = entries_sound n (some (encode k)) s2 es' s3 hs2 others' in
      subst (EntriesRead (suc n) last s) (eq_of_some h4) (
        joined (encode k) (encode v ++ encode_entries es') s3 split
            (joined (encode v) (encode_entries es') s3 split1 split2),
        ap suc counted,
        (fits, above', fits1, fits2),
      )

  abbrev BodyRead : ℕ → ℕ → List ℕ → Value × List ℕ → Type 0
  BodyRead major arg s p = (put_uint major arg ++ s ≡ encode p.0 ++ p.1) × Fits max (suc room) p.0

  bytes_sound :
      (arg : ℕ) (s : List ℕ) (p : Value × List ℕ)
      → IsU64 arg
      → item_body max element 2 arg s ≡ some p
      → BodyRead 2 arg s p
  unfolding item_body encode put_bytes
  bytes_sound arg s p ha h =
      let (small, h1) = unless-some (ltb max arg) _ h in
      let ((b, r), taken, h2) = >>=-eq-some (take_n arg s) _ h1 in
      let (split, len) = take_n_sound arg s taken in
      subst (BodyRead 2 arg s) (eq_of_some h2)
        (framed 2 b r split len, (omega (arith, len, le_of_ltb max arg small), omega (arith, len)))

  text_sound :
      (arg : ℕ) (s : List ℕ) (p : Value × List ℕ)
      → IsU64 arg
      → item_body max element 3 arg s ≡ some p
      → BodyRead 3 arg s p
  unfolding item_body encode put_text
  text_sound arg s p ha h =
      let (small, h1) = unless-some (ltb max arg) _ h in
      let ((b, r), taken, h2) = >>=-eq-some (take_n arg s) _ h1 in
      let (u, valid, h3) = >>=-eq-some (require (is_utf8 b)) _ h2 in
      let (split, len) = take_n_sound arg s taken in
      subst (BodyRead 3 arg s) (eq_of_some h3) (
        framed 3 b r split len,
        (omega (arith, len, le_of_ltb max arg small), omega (arith, len), require-true _ valid),
      )

  array_sound :
      (arg : ℕ) (s : List ℕ) (p : Value × List ℕ)
      → All IsByte s
      → item_body max element 4 arg s ≡ some p
      → BodyRead 4 arg s p
  unfolding item_body encode
  array_sound arg s p hs h =
      let (small, h1) = unless-some (ltb max_array_entries arg || ltb (length s) arg) _ h in
      let ((vs, r), read, h2) = >>=-eq-some (items element arg s) _ h1 in
      let (split, counted, fits) = items_sound arg s vs r hs read in
      subst (BodyRead 4 arg s) (eq_of_some h2) (
        counted_frame 4 (encode_items vs) r split counted,
        (omega (arith, counted, le_of_ltb max_array_entries arg (or-eq_false _ _ small).0), fits),
      )

  map_sound :
      (arg : ℕ) (s : List ℕ) (p : Value × List ℕ)
      → All IsByte s
      → item_body max element 5 arg s ≡ some p
      → BodyRead 5 arg s p
  unfolding item_body encode
  map_sound arg s p hs h =
      let (small, h1) = unless-some (ltb max_map_entries arg || ltb (length s) (2 * arg)) _ h in
      let ((es, r), read, h2) = >>=-eq-some (entries element arg none s) _ h1 in
      let (split, counted, fits) = entries_sound arg none s es r hs read in
      subst (BodyRead 5 arg s) (eq_of_some h2) (
        counted_frame 5 (encode_entries es) r split counted,
        (omega (arith, counted, le_of_ltb max_map_entries arg (or-eq_false _ _ small).0), fits),
      )

  -- A head and a body, read one after the other.
  item_body_sound :
      (major arg : ℕ) (s : List ℕ) (p : Value × List ℕ)
      → All IsByte s
      → major < 8
      → IsU64 arg
      → item_body max element major arg s ≡ some p
      → BodyRead major arg s p
  unfolding item_body encode
  item_body_sound zero arg s p hs hm ha h = subst (BodyRead 0 arg s) (eq_of_some h) (refl, ha)
  item_body_sound (suc zero) arg s p hs hm ha h = subst (BodyRead 1 arg s) (eq_of_some h) (refl, ha)
  item_body_sound (suc (suc zero)) arg s p hs hm ha h = bytes_sound arg s p ha h
  item_body_sound (suc (suc (suc zero))) arg s p hs hm ha h = text_sound arg s p ha h
  item_body_sound (suc (suc (suc (suc zero)))) arg s p hs hm ha h = array_sound arg s p hs h
  item_body_sound (suc (suc (suc (suc (suc zero))))) arg s p hs hm ha h = map_sound arg s p hs h
  item_body_sound (suc (suc (suc (suc (suc (suc zero)))))) arg s p hs hm ha h = cc
  item_body_sound (suc (suc (suc (suc (suc (suc (suc zero))))))) arg s p hs hm ha h = ground arith
  item_body_sound (suc (suc (suc (suc (suc (suc (suc (suc n)))))))) arg s p hs hm ha h =
      absurd (omega arith)

item_at_sound : (max room : ℕ) → Reads max room (item_at max room)
unfolding item_at
item_at_sound max zero s v rest hs h = cc
item_at_sound max (suc room) s v rest hs h =
    let (((major, arg), r), first, h1) = >>=-eq-some (head s) _ h in
    let (split, hm, ha) = head_sound s hs first in
    let hr = (All-split IsByte (put_uint major arg) r split hs).1 in
    let (wrote, fits) =
      item_body_sound max room (item_at max room) (item_at_sound max room) major arg r (v, rest) hr
        hm ha h1 in
    (split ∙ wrote, fits)

pub is_empty_sound : (s : List ℕ) → is_empty s ≡ true → s ≡ []
is_empty_sound [] h = refl
is_empty_sound (b ∷ s) h = cc

as_map_sound : (v : Value) {m : Entries} → as_map v ≡ some m → v ≡ map_of m
as_map_sound (map_of m) h = cc
as_map_sound v h = cc

-- A map that the strict reader returns from a string of bytes is within the bounds, its keys
-- ascend, and its encoding is the whole input.
pub strict_decode_map_capped_sound :
    (wire : List ℕ) (max : ℕ) (m : Entries)
    → All IsByte wire
    → strict_decode_map_capped wire max ≡ some m
    → (wire ≡ encode (map_of m)) × Fits max 4 (map_of m)
unfolding strict_decode_map_capped item
strict_decode_map_capped_sound wire max m hw h =
    let ((v, rest), read, h1) = >>=-eq-some (item_at max 4 wire) _ h in
    let (u, over, h2) = >>=-eq-some (require (is_empty rest)) _ h1 in
    let (split, fits) = item_at_sound max 4 wire v rest hw read in
    let whole : wire ≡ encode v =
      split
      ∙ ap (λ t. encode v ++ t) (is_empty_sound rest (require-true _ over))
      ∙ append-nil (encode v) in
    let same : v ≡ map_of m = as_map_sound v h2 in
    subst (λ w. (wire ≡ encode w) × Fits max 4 w) same (whole, fits)
