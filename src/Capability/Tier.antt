-- ===== src/Capability/Tier.antt =====
-- The match on the opcode in `verify_capability_extract` of agent_capability.rs: who may sign what.
use d_hsm.Prelude.{
  ℕ, ◌≡◌, ◌≢◌, refl, sym, subst, Bool, true, false, not, ◌||◌, if◌then◌else◌, ◌==◌, ==_iff, Option,
  none, some, arith,
}
use d_hsm.Capability.Parse.{Capability}
use d_hsm.Capability.Verify.{tier_ok, treasury_tier_ok}

-- The tier of each privileged opcode: generation, export and the first three treasury commands are
-- the admin's, restore and the reset of the breaker the recovery authority's.
pub data IsTier : ℕ → Option ℕ → Bool → Type 0 where
  generate : (sub : Option ℕ) → IsTier 1 sub false
  export_backup : (sub : Option ℕ) → IsTier 7 sub false
  restore_backup : (sub : Option ℕ) → IsTier 8 sub true
  configure : (sub : ℕ) → sub ≢ 3 → IsTier 6 (some sub) false
  reset_breaker : IsTier 6 (some 3) true

not-true : (r : Bool) → not r ≡ true → r ≡ false
not-true true h = cc
not-true false h = refl

sub-IsTier :
    (sub : ℕ) (r three : Bool)
    → (sub == 3) ≡ three
    → (if three then r else not r) ≡ true
    → IsTier 6 (some sub) r
sub-IsTier sub r true e h =
    let same : 3 ≡ sub = sym ((==_iff sub 3).0 e) in
    subst (λ n. IsTier 6 (some n) r) same (subst (IsTier 6 (some 3)) (sym h) reset_breaker)
sub-IsTier sub r false e h =
    subst (IsTier 6 (some sub)) (sym (not-true r h)) (configure sub (λ f. grind (arith, e, f)))

treasury_tier_ok-IsTier :
    (sub : Option ℕ) (r : Bool) → treasury_tier_ok r sub ≡ true → IsTier 6 sub r
treasury_tier_ok-IsTier none r h = cc
treasury_tier_ok-IsTier (some sub) r h = sub-IsTier sub r (sub == 3) refl h

opcode-IsTier :
    (n : ℕ) (sub : Option ℕ) (r one seven eight six : Bool)
    → (n == 1) ≡ one
    → (n == 7) ≡ seven
    → (n == 8) ≡ eight
    → (n == 6) ≡ six
    → (if one || seven
        then not r
        else if eight
        then r
        else if six
        then treasury_tier_ok r sub
        else false)
      ≡ true
    → IsTier n sub r
opcode-IsTier n sub r true seven eight six e1 e7 e8 e6 h =
    subst (λ k. IsTier k sub r) (sym ((==_iff n 1).0 e1))
      (subst (IsTier 1 sub) (sym (not-true r h)) (generate sub))
opcode-IsTier n sub r false true eight six e1 e7 e8 e6 h =
    subst (λ k. IsTier k sub r) (sym ((==_iff n 7).0 e7))
      (subst (IsTier 7 sub) (sym (not-true r h)) (export_backup sub))
opcode-IsTier n sub r false false true six e1 e7 e8 e6 h =
    subst (λ k. IsTier k sub r) (sym ((==_iff n 8).0 e8))
      (subst (IsTier 8 sub) (sym h) (restore_backup sub))
opcode-IsTier n sub r false false false true e1 e7 e8 e6 h =
    subst (λ k. IsTier k sub r) (sym ((==_iff n 6).0 e6)) (treasury_tier_ok-IsTier sub r h)
opcode-IsTier n sub r false false false false e1 e7 e8 e6 h = cc

pub tier_ok-IsTier :
    (cap : Capability)
    → tier_ok cap ≡ true
    → IsTier cap.command_opcode cap.treasury_sub_op cap.is_recovery
tier_ok-IsTier cap h =
    opcode-IsTier cap.command_opcode cap.treasury_sub_op cap.is_recovery (cap.command_opcode == 1)
      (cap.command_opcode == 7) (cap.command_opcode == 8) (cap.command_opcode == 6) refl refl refl
      refl h
