-- ===== src/Keystore/Audit/Full.antt =====
-- `append_ring` of agent_keystore.rs on a full ring.
use d_hsm.Prelude.{
  ℕ, ◌+◌, ◌≤◌, ◌<◌, ◌≡◌, ◌↔◌, refl, sym, ap, subst, List, [], ◌∷◌, ◌++◌, arith, length,
  length-append, All,
}
use d_hsm.Keystore.Types.{AuditRing, AuditRecord, AuditAppend, ok, err, audit_backpressure}
use d_hsm.Keystore.Audit.{audit_record, live_unexported, append_ring}
use d_hsm.Keystore.Audit.Ring.{Ascending, IsRing, Ascending-first, append_ring-Appended}

-- The capacity of a full ring whose records are all unexported is at most the live count.
full_live :
    (r : AuditRing) (rs : List AuditRecord)
    → r.records ≡ rs
    → IsRing r
    → r.capacity ≤ length r.records
    → All (λ a. r.last_exported_seq < a.seq) rs
    → r.capacity ≤ live_unexported r
full_live r [] e h full fresh = omega (arith, full, ap length e)
full_live r (old ∷ rest) e h full fresh =
    let first = Ascending-first r.next_seq old rest (subst (Ascending r.next_seq) e h.ascending) in
    omega (arith, full, first, fresh.0, ap length e)

-- The records are numbered without a gap up to `next_seq`.
abbrev pub Dense : ℕ → List AuditRecord → Type 0
Dense next [] = Unit
Dense next (a ∷ rs) = (a.seq + length (a ∷ rs) ≡ next) × Dense next rs

Dense-fresh :
    (next low : ℕ) (rs : List AuditRecord)
    → Dense next rs
    → low + length rs < next
    → All (λ a. low < a.seq) rs
Dense-fresh next low [] d h = tt
Dense-fresh next low (a ∷ rs) d h =
    (omega (arith, d.0, h), Dense-fresh next low rs d.1 (omega (arith, h)))

Dense-append :
    (next : ℕ) (rs : List AuditRecord) (a : AuditRecord)
    → a.seq ≡ next
    → Dense next rs
    → Dense (next + 1) (rs ++ (a ∷ []))
Dense-append next [] a e d = (omega (arith, e), tt)
Dense-append next (r ∷ rs) a e d =
    (omega (arith, d.0, length-append rs (a ∷ [])), Dense-append next rs a e d.1)

Dense-rest : (next : ℕ) (lost rs : List AuditRecord) → Dense next (lost ++ rs) → Dense next rs
Dense-rest next [] rs d = d
Dense-rest next (a ∷ lost) rs d = Dense-rest next lost rs d.1

-- An append that a well-formed ring accepts leaves no gap where there was none.
append_ring-Dense :
    (r : AuditRing) (f : AuditAppend) (r' : AuditRing)
    → IsRing r
    → Dense r.next_seq r.records
    → append_ring r f ≡ ok r'
    → Dense r'.next_seq r'.records
append_ring-Dense r f r' h d e =
    let did = append_ring-Appended r f r' h e in
    let more = Dense-append r.next_seq r.records (audit_record r f) refl d in
    subst (λ n. Dense n r'.records) (sym did.numbered)
      (Dense-rest (r.next_seq + 1) did.lost r'.records
        (subst (Dense (r.next_seq + 1)) did.kept more))

refused_guards :
    (r : AuditRing) (f : AuditAppend)
    → 0 < r.capacity
    → append_ring r f ≡ err audit_backpressure
    → (r.capacity ≤ length r.records) × (r.capacity ≤ live_unexported r)
unfolding append_ring
refused_guards r f pos h = ground (arith, h, pos)

refused_full :
    (r : AuditRing) (f : AuditAppend)
    → r.capacity ≤ length r.records
    → r.capacity ≤ live_unexported r
    → append_ring r f ≡ err audit_backpressure
unfolding append_ring
refused_full r f full live = ground arith

-- A well-formed ring with a capacity whose records are numbered without a gap refuses an append for
-- backpressure exactly when it is full and none of its records was exported.
pub append_ring_full_iff :
    (r : AuditRing) (f : AuditAppend)
    → IsRing r
    → Dense r.next_seq r.records
    → 0 < r.capacity
    → (append_ring r f ≡ err audit_backpressure)
      ↔ ((r.capacity ≤ length r.records) × All (λ a. r.last_exported_seq < a.seq) r.records)
append_ring_full_iff r f h d pos = (
  λ e.
      let (full, live) = refused_guards r f pos e in
      (
        full,
        Dense-fresh r.next_seq r.last_exported_seq r.records d
            (omega (arith, live, pos, h.bounded)),
      ),
  λ (full, fresh). refused_full r f full (full_live r r.records refl h full fresh),
)
