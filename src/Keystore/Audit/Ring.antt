-- ===== src/Keystore/Audit/Ring.antt =====
-- `append_ring` and `export_ring` of agent_keystore.rs, and the invariant that `validate` checks on
-- the ring.
use d_hsm.Prelude.{
  ℕ, suc, ◌+◌, ◌-◌, ◌^◌, ◌≤◌, ◌<◌, ◌≡◌, refl, ap, subst, List, [], ◌∷◌, ◌++◌, true, false, ◌&&◌,
  arith, ltb, leb, ◌==◌, length, length-append, drop, All, Bool-cases, inl, inr,
}
use d_hsm.Keystore.Types.{
  AuditRing, AuditRecord, AuditAppend, ok, audit_backpressure, monotonic_overflow, ok_inv,
  unless-ok, audit_seq_disorder, ◌>>◌,
}
use d_hsm.Keystore.Validate.{check_seqs, refuse_if}
use d_hsm.Keystore.Audit.{audit_record, live_unexported, pushed, append_ring, export_ring}

-- Sequence numbers ascend strictly and stay below `next_seq`.
abbrev pub Ascending : ℕ → List AuditRecord → Type 0
Ascending next [] = Unit
Ascending next (r ∷ []) = r.seq < next
Ascending next (r ∷ s ∷ rs) = (r.seq < s.seq) × Ascending next (s ∷ rs)

pub record IsRing (r : AuditRing) : Type 0 where
  pub ascending : Ascending r.next_seq r.records
  pub bounded : length r.records ≤ r.capacity
  pub exported : r.last_exported_seq < r.next_seq

pub check_seqs-Ascending :
    (next : ℕ) (rs : List AuditRecord) → check_seqs next rs ≡ ok tt → Ascending next rs
unfolding check_seqs
check_seqs-Ascending next [] h = tt
check_seqs-Ascending next (r ∷ []) h = ground (arith, h)
check_seqs-Ascending next (r ∷ s ∷ rs) h = elim (Bool-cases (leb s.seq r.seq)) [
  | inl back ↦ cc (h, back)
  | inr forward ↦ (
    ground (arith, forward),
    check_seqs-Ascending next (s ∷ rs) (
        subst (λ b. (refuse_if b audit_seq_disorder >> check_seqs next (s ∷ rs)) ≡ ok tt) forward
          h),
  )
]

Ascending-check_seqs :
    (next : ℕ) (rs : List AuditRecord) → Ascending next rs → check_seqs next rs ≡ ok tt
unfolding check_seqs
Ascending-check_seqs next [] h = refl
Ascending-check_seqs next (r ∷ []) h = ground (arith, h)
Ascending-check_seqs next (r ∷ s ∷ rs) h =
    let forward : leb s.seq r.seq ≡ false = ground (arith, h.0) in
    rw (forward, Ascending-check_seqs next (s ∷ rs) h.1)

-- The first of a run of ascending records leaves room below `next` for all of them.
pub Ascending-first :
    (next : ℕ) (r : AuditRecord) (rs : List AuditRecord)
    → Ascending next (r ∷ rs)
    → r.seq + length (r ∷ rs) ≤ next
Ascending-first next r [] h = omega (arith, h)
Ascending-first next r (s ∷ rs) h = omega (arith, h.0, Ascending-first next s rs h.1)

Ascending-append :
    (next : ℕ) (rs : List AuditRecord) (a : AuditRecord)
    → Ascending next rs
    → a.seq ≡ next
    → Ascending (next + 1) (rs ++ (a ∷ []))
Ascending-append next [] a h e = omega (arith, e)
Ascending-append next (r ∷ []) a h e = (omega (arith, h, e), omega (arith, e))
Ascending-append next (r ∷ s ∷ rs) a h e = (h.0, Ascending-append next (s ∷ rs) a h.1 e)

Ascending-drop : (next : ℕ) (rs : List AuditRecord) → Ascending next rs → Ascending next (drop 1 rs)
Ascending-drop next [] h = tt
Ascending-drop next (r ∷ []) h = tt
Ascending-drop next (r ∷ s ∷ rs) h = h.1

-- What an append did: `lost` is what made room.
pub record Appended (r : AuditRing) (f : AuditAppend) (r' : AuditRing) : Type 0 where
  pub lost : List AuditRecord
  pub kept : r.records ++ (audit_record r f ∷ []) ≡ lost ++ r'.records
  pub lost_exported : All (λ a. a.seq ≤ r.last_exported_seq) lost
  pub numbered : r'.next_seq ≡ r.next_seq + 1
  pub next_u64 : r'.next_seq < 2 ^ 64
  pub same_capacity : r'.capacity ≡ r.capacity
  pub same_exported : r'.last_exported_seq ≡ r.last_exported_seq
  pub still : IsRing r'

grown :
    (r : AuditRing) (f : AuditAppend)
    → IsRing r
    → length r.records < r.capacity
    → r.next_seq + 1 < 2 ^ 64
    → Appended r f
        (record r { records = r.records ++ (audit_record r f ∷ []); next_seq = r.next_seq + 1 })
grown r f h room fits = record {
  lost = [];
  kept = refl;
  lost_exported = tt;
  numbered = refl;
  next_u64 = fits;
  same_capacity = refl;
  same_exported = refl;
  still = record {
    ascending = Ascending-append r.next_seq r.records (audit_record r f) h.ascending refl;
    bounded = omega (arith, room, length-append r.records (audit_record r f ∷ []));
    exported = omega (arith, h.exported);
  };
}

-- The oldest record of a full ring was exported when the live count is below the capacity.
wrapped :
    (r : AuditRing) (f : AuditAppend) (old : AuditRecord) (rest : List AuditRecord)
    → r.records ≡ old ∷ rest
    → IsRing r
    → r.capacity ≤ length r.records
    → live_unexported r < r.capacity
    → r.next_seq + 1 < 2 ^ 64
    → Appended r f
        (record r { records = rest ++ (audit_record r f ∷ []); next_seq = r.next_seq + 1 })
wrapped r f old rest e h full live fits =
    let run : Ascending r.next_seq (old ∷ rest) = subst (Ascending r.next_seq) e h.ascending in
    let len : length r.records ≡ suc (length rest) = ap length e in
    record {
      lost = old ∷ [];
      kept = ap (λ l. l ++ (audit_record r f ∷ [])) e;
      lost_exported = (omega (arith, full, live, len, Ascending-first r.next_seq old rest run), tt);
      numbered = refl;
      next_u64 = fits;
      same_capacity = refl;
      same_exported = refl;
      still = record {
        ascending =
            Ascending-append r.next_seq rest (audit_record r f)
              (Ascending-drop r.next_seq (old ∷ rest) run) refl;
        bounded = omega (arith, len, h.bounded, length-append rest (audit_record r f ∷ []));
        exported = omega (arith, h.exported);
      };
    }

wrapped_any :
    (r : AuditRing) (f : AuditAppend) (rs : List AuditRecord)
    → r.records ≡ rs
    → IsRing r
    → 0 < r.capacity
    → r.capacity ≤ length r.records
    → live_unexported r < r.capacity
    → r.next_seq + 1 < 2 ^ 64
    → Appended r f
        (record r { records = drop 1 rs ++ (audit_record r f ∷ []); next_seq = r.next_seq + 1 })
wrapped_any r f [] e h pos full live fits = absurd (omega (arith, pos, full, ap length e))
wrapped_any r f (old ∷ rest) e h pos full live fits = wrapped r f old rest e h full live fits

-- The guards of an accepted append, as numbers.
append_guards :
    (r : AuditRing) (f : AuditAppend) (r' : AuditRing)
    → append_ring r f ≡ ok r'
    → (0 < r.capacity)
      × (leb r.capacity (length r.records) && leb r.capacity (live_unexported r) ≡ false)
      × (r.next_seq + 1 < 2 ^ 64)
      × (record r { records = pushed r (audit_record r f); next_seq = r.next_seq + 1 } ≡ r')
unfolding append_ring
append_guards r f r' h =
    let pressed = leb r.capacity (length r.records) && leb r.capacity (live_unexported r) in
    let (some_room, h1) = unless-ok (r.capacity == 0) audit_backpressure h in
    let (free, h2) = unless-ok pressed audit_backpressure h1 in
    let (fits, h3) = unless-ok (leb (2 ^ 64) (r.next_seq + 1)) monotonic_overflow h2 in
    (ground (arith, some_room), free, ground (arith, fits), ok_inv h3)

pushed_room :
    (r : AuditRing) (a : AuditRecord)
    → ltb (length r.records) r.capacity ≡ true
    → r.records ++ (a ∷ []) ≡ pushed r a
pushed_room r a h = rw h refl

pushed_full :
    (r : AuditRing) (a : AuditRecord)
    → ltb (length r.records) r.capacity ≡ false
    → drop 1 r.records ++ (a ∷ []) ≡ pushed r a
pushed_full r a h = rw h refl

-- An append that a well-formed ring accepts keeps it well formed, numbers the record by `next_seq`, and
-- drops no record that has not been exported.
pub append_ring-Appended :
    (r : AuditRing) (f : AuditAppend) (r' : AuditRing)
    → IsRing r
    → append_ring r f ≡ ok r'
    → Appended r f r'
append_ring-Appended r f r' h e =
    let (pos, free, fits, same) = append_guards r f r' e in
    subst (Appended r f) same (elim (Bool-cases (ltb (length r.records) r.capacity)) [
      | inl room ↦
          subst (λ l. Appended r f (record r { records = l; next_seq = r.next_seq + 1 }))
            (pushed_room r (audit_record r f) room) (grown r f h (ground (arith, room)) fits)
      | inr full ↦
          subst (λ l. Appended r f (record r { records = l; next_seq = r.next_seq + 1 }))
            (pushed_full r (audit_record r f) full)
            (wrapped_any r f r.records refl h pos (ground (arith, full))
              (ground (arith, full, free)) fits)
    ])

export_live : (r : AuditRing) → live_unexported (export_ring r) ≡ 0
unfolding export_ring
export_live r = ground arith

export_rest :
    (r : AuditRing)
    → ((export_ring r).records ≡ r.records)
      × ((export_ring r).capacity ≡ r.capacity)
      × ((export_ring r).next_seq ≡ r.next_seq)
unfolding export_ring
export_rest r = elim (Bool-cases (ltb r.last_exported_seq (r.next_seq - 1))) [
  | inl behind ↦ rw behind (refl, refl, refl)
  | inr ahead ↦ rw ahead (refl, refl, refl)
]

append_room :
    (r : AuditRing) (f : AuditAppend)
    → 0 < r.capacity
    → live_unexported r ≡ 0
    → r.next_seq + 1 < 2 ^ 64
    → append_ring r f
      ≡ ok (record r { records = pushed r (audit_record r f); next_seq = r.next_seq + 1 })
unfolding append_ring
append_room r f pos live fits =
    let some_room : (r.capacity == 0) ≡ false = ground arith in
    let free : leb r.capacity (length r.records) && leb r.capacity (live_unexported r) ≡ false =
      ground arith in
    let low : leb (2 ^ 64) (r.next_seq + 1) ≡ false = ground arith in rw (some_room, free, low) refl

-- After an export a ring with a capacity accepts the next record while `next_seq` has room.
pub export-append :
    (r : AuditRing) (f : AuditAppend)
    → 0 < r.capacity
    → r.next_seq + 1 < 2 ^ 64
    → append_ring (export_ring r) f
      ≡ ok (record (export_ring r) {
        records = pushed (export_ring r) (audit_record (export_ring r) f);
        next_seq = (export_ring r).next_seq + 1;
      })
export-append r f pos fits =
    let (rs, cap, next) = export_rest r in
    append_room (export_ring r) f (omega (arith, pos, cap)) (export_live r)
      (omega (arith, fits, next))
