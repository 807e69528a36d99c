-- ===== src/Keystore/Counter/Forward.antt =====
-- `advance_counter` of agent_keystore.rs, by the counter of a tuple before and after it.
use d_hsm.Prelude.{
  ℕ, ◌<◌, ◌≤◌, ◌≡◌, ◌≢◌, refl, sym, ap, ◌∙◌, subst, List, [], ◌∷◌, ◌++◌, true, false, Option, none,
  some, arith, leb, eq_refl, if◌then◌else◌, length, Bool-cases, Option-cases, inl, inr, ◌⊎◌,
}
use d_hsm.Prelude.Bytes.{bytes_eq_sound, bytes_eq_refl}
use d_hsm.Keystore.Types.{
  KeystoreBody, CounterEntry, ok, err, >>=-eq-ok, ok_inv, capacity_exceeded, counter_regression,
  max_counter_entries,
}
use d_hsm.Keystore.Counter.{
  RowKey, matches, find_row, set_row, new_row, advanced, row_key, advance_counter,
}

-- The high-water mark of a tuple; 0 where there is no row.
abbrev pub highest_of : Option CounterEntry → ℕ
highest_of none = 0
highest_of (some c) = c.highest_accepted_counter

unfoldable pub highest : RowKey → List CounterEntry → ℕ
highest k rows = highest_of (find_row k rows)

abbrev key_of : CounterEntry → RowKey
key_of c = record {
  authority = c.authority;
  environment_identifier = c.environment_identifier;
  scope_class = c.scope_class;
  scope_target = c.scope_target;
}

matches_key : (k : RowKey) (c : CounterEntry) → matches k c ≡ true → key_of c ≡ k
unfolding matches
matches_key k c h = ground (
  arith,
  bytes_eq_sound c.authority k.authority,
  bytes_eq_sound c.environment_identifier k.environment_identifier,
  bytes_eq_sound c.scope_target k.scope_target,
)

matches-new_row : (k : RowKey) (n : ℕ) → matches k (new_row k n) ≡ true
unfolding matches
matches-new_row k n = rw (
  bytes_eq_refl k.authority,
  bytes_eq_refl k.environment_identifier,
  bytes_eq_refl k.scope_target,
  eq_refl k.scope_class,
)

-- A row of one tuple is no row of another.
matches_apart : (k j : RowKey) (c : CounterEntry) → k ≢ j → matches k c ≡ true → matches j c ≡ false
matches_apart k j c ne h = elim (Bool-cases (matches j c)) [
  | inl also ↦ absurd (ne (sym (matches_key k c h) ∙ matches_key j c also))
  | inr apart ↦ apart
]

pub same_or_apart : (k j : RowKey) → (k ≡ j) ⊎ (k ≢ j)
same_or_apart k j = elim (Bool-cases (matches k (new_row j 0))) [
  | inl same ↦ inl (sym (matches_key k (new_row j 0) same))
  | inr apart ↦
      inr λ e. cc (subst (λ i. matches i (new_row j 0) ≡ false) e apart, matches-new_row j 0)
]

-- The counter is no part of the tuple.
matches_counter :
    (k : RowKey) (c : CounterEntry) (n : ℕ)
    → matches k (record c { highest_accepted_counter = n }) ≡ matches k c
unfolding matches
matches_counter k c n = refl

find-set_row :
    (k : RowKey) (n : ℕ) (rows : List CounterEntry) (c : CounterEntry)
    → find_row k rows ≡ some c
    → highest k (set_row k n rows) ≡ n
unfolding find_row set_row highest
find-set_row k n [] c h = cc
find-set_row k n (r ∷ rows) c h = elim (Bool-cases (matches k r)) [
  | inl yes_row ↦ rw (yes_row, matches_counter k r n, yes_row)
  | inr no_row ↦
      rw (no_row, no_row)
        (find-set_row k n rows c
          (subst (λ b. (if b then some r else find_row k rows) ≡ some c) no_row h))
]

find-set_row_ne :
    (k j : RowKey) (n : ℕ) (rows : List CounterEntry)
    → k ≢ j
    → find_row j (set_row k n rows) ≡ find_row j rows
unfolding find_row set_row
find-set_row_ne k j n [] ne = refl
find-set_row_ne k j n (r ∷ rows) ne = elim (Bool-cases (matches k r)) [
  | inl yes_row ↦
      let apart = matches_apart k j r ne yes_row in rw (yes_row, matches_counter j r n, apart)
  | inr no_row ↦ rw (no_row, find-set_row_ne k j n rows ne)
]

find-append_self :
    (k : RowKey) (n : ℕ) (rows : List CounterEntry)
    → find_row k rows ≡ none
    → highest k (rows ++ (new_row k n ∷ [])) ≡ n
unfolding find_row highest
find-append_self k n [] h = rw (matches-new_row k n)
find-append_self k n (r ∷ rows) h = elim (Bool-cases (matches k r)) [
  | inl yes_row ↦ cc (h, yes_row)
  | inr no_row ↦ rw no_row (
      find-append_self k n rows
        (subst (λ b. (if b then some r else find_row k rows) ≡ none) no_row h))
]

find-append_ne :
    (k j : RowKey) (n : ℕ) (rows : List CounterEntry)
    → k ≢ j
    → find_row j (rows ++ (new_row k n ∷ [])) ≡ find_row j rows
unfolding find_row
find-append_ne k j n [] ne = rw (matches_apart k j (new_row k n) ne (matches-new_row k n))
find-append_ne k j n (r ∷ rows) ne = rw (find-append_ne k j n rows ne)

-- What an accepted advance did to the table.
pub record Advanced (k : RowKey) (n : ℕ) (rows rows' : List CounterEntry) : Type 0 where
  pub now : highest k rows' ≡ n
  pub others : (j : RowKey) → k ≢ j → find_row j rows' ≡ find_row j rows
  pub forward : (c : CounterEntry) → find_row k rows ≡ some c → c.highest_accepted_counter < n

table_advanced :
    (k : RowKey) (n : ℕ) (rows rows' : List CounterEntry) (found : Option CounterEntry)
    → find_row k rows ≡ found
    → advanced k n rows found ≡ ok rows'
    → Advanced k n rows rows'
table_advanced k n rows rows' none e h = elim (Bool-cases (leb max_counter_entries (length rows))) [
  | inl full ↦ cc (h, full)
  | inr room ↦
      subst (Advanced k n rows)
        (ok_inv (
          subst
            (λ b. (if b then err capacity_exceeded else ok (rows ++ (new_row k n ∷ []))) ≡ ok rows')
            room h))
        (record {
          now = find-append_self k n rows e;
          others = λ j ne. find-append_ne k j n rows ne;
          forward = λ c f. cc (e, f);
        })
]
table_advanced k n rows rows' (some c) e h = elim (Bool-cases (leb n c.highest_accepted_counter)) [
  | inl back ↦ cc (h, back)
  | inr forward ↦
      subst (Advanced k n rows)
        (ok_inv (
          subst (λ b. (if b then err counter_regression else ok (set_row k n rows)) ≡ ok rows')
            forward h))
        (record {
          now = find-set_row k n rows c e;
          others = λ j ne. find-set_row_ne k j n rows ne;
          forward = λ d f. ground (arith, e, f, forward);
        })
]

-- A successful advance sets the tuple's counter, above what it was; no other tuple's row and no
-- other field of the body changes.
pub advance_counter-Advanced :
    (body : KeystoreBody) (authority : List ℕ) (scope_class : ℕ) (scope_target : List ℕ) (n : ℕ)
    (body' : KeystoreBody)
    → advance_counter body authority scope_class scope_target n ≡ ok body'
    → Advanced (row_key body authority scope_class scope_target) n body.counters body'.counters
      × (body' ≡ record body { counters = body'.counters })
unfolding advance_counter
advance_counter-Advanced body authority scope_class scope_target n body' h =
    let k = row_key body authority scope_class scope_target in
    let (rows, moved, h1) = >>=-eq-ok (advanced k n body.counters (find_row k body.counters)) _ h in
    subst (λ b. Advanced k n body.counters b.counters × (b ≡ record body { counters = b.counters }))
      (ok_inv h1)
      (table_advanced k n body.counters rows (find_row k body.counters) refl moved, refl)

-- A positive counter that is not above the tuple's mark is refused as a regression.
advance_counter_refused :
    (body : KeystoreBody) (authority : List ℕ) (scope_class : ℕ) (scope_target : List ℕ) (n : ℕ)
    → n ≤ highest (row_key body authority scope_class scope_target) body.counters
    → 0 < n
    → advance_counter body authority scope_class scope_target n ≡ err counter_regression
unfolding advance_counter highest
advance_counter_refused body authority scope_class scope_target n h pos =
    let k = row_key body authority scope_class scope_target in
    elim (Option-cases (find_row k body.counters)) [
      | inl missing ↦ absurd (ground arith)
      | inr (c, found) ↦ ground arith
    ]

-- A counter that `advance_counter` recorded, and every positive one below it, is refused as a
-- regression by the next `advance_counter` of the same tuple.
pub advance_counter_replay :
    (body : KeystoreBody) (authority : List ℕ) (scope_class : ℕ) (scope_target : List ℕ) (n m : ℕ)
    (body' : KeystoreBody)
    → advance_counter body authority scope_class scope_target n ≡ ok body'
    → 0 < m
    → m ≤ n
    → advance_counter body' authority scope_class scope_target m ≡ err counter_regression
advance_counter_replay body authority scope_class scope_target n m body' h pos low =
    let (moved, same) =
      advance_counter-Advanced body authority scope_class scope_target n body' h in
    let key : row_key body' authority scope_class scope_target
        ≡ row_key body authority scope_class scope_target =
      ap (λ y. row_key y authority scope_class scope_target) same in
    let mark : highest (row_key body' authority scope_class scope_target) body'.counters ≡ n =
      subst (λ k. highest k body'.counters ≡ n) (sym key) moved.now in
    advance_counter_refused body' authority scope_class scope_target m (omega (arith, low, mark))
      pos
