-- ===== src/Core/System/Reserved.antt =====
-- What stwcx. leaves in CR.
use ppcsimbooke.Base.{
  ℕ, ◌+◌, ◌%◌, ◌≡◌, ◌<◌, refl, ap, ◌∙◌, Bool, true, false, if◌then◌else◌, ◌==◌, u64, arith, bit_or,
  to_num,
}
use ppcsimbooke.Base.Error.{Outcome, ok, throw, no_return}
use ppcsimbooke.Regs.{get_crf_field, update_crf_field, get_field, get_xer_so}
use ppcsimbooke.Regs.Fields.{get_field-update_field}
use ppcsimbooke.Core.{Core, so}
use ppcsimbooke.Core.Bus.{Bus, Ran, on_ok, rtl_bus, store_to, ea_x}
use ppcsimbooke.Core.System.{Reserve, put_field_0, store_if, stwcx_dot}

-- The field 0 of CR behind an instruction, and the others.
abbrev pub IsSummary : ℕ → Core → Core → Outcome (Unit {0}) → Type 0
IsSummary other s t (ok u) =
    get_crf_field other t.cond ≡ (if other == 0 then so s else get_crf_field other s.cond)
IsSummary other s t (throw ex) = t.cond ≡ s.cond
IsSummary other s t no_return = t.cond ≡ s.cond

put_so :
    (v other : ℕ) (s : Core)
    → other < 8
    → v % 16 ≡ so s
    → get_crf_field other (put_field_0 v s).cond
      ≡ (if other == 0 then so s else get_crf_field other s.cond)
unfolding put_field_0 get_crf_field update_crf_field
put_so v other s h e =
    get_field-update_field 0 other v s.cond.cr (omega arith) h
    ∙ ap (λ (w : ℕ). if other == 0 then w else get_field other s.cond.cr) e

low_so : (s : Core) → (bit_or 0x20 (so s) % 16 ≡ so s) × (so s % 16 ≡ so s)
unfolding so
low_so s = go (get_xer_so s.cond)
  where
    go : (b : Bool) → (bit_or 0x20 (to_num b) % 16 ≡ to_num b) × (to_num b % 16 ≡ to_num b)
    go true = (refl, refl)
    go false = (refl, refl)

module _ {S : Type 0} (bus : Bus S) (res : Reserve S) (d a b other : ℕ) (s : Core)
    (in_other : other < 8) where
  abbrev s0 : Core
  s0 = record s { nip = u64 (s.nip + 4) }

  stored :
      (reserved : Bool) (ea : ℕ) (m : S)
      → IsSummary other s
          (store_if bus reserved ea (s0.gpr d) s0 m).0
          (store_if bus reserved ea (s0.gpr d) s0 m).2
  unfolding store_if store_to so
  stored false ea m = put_so (so s) other s0 in_other (low_so s).1
  stored true ea m = go (bus.store 4 ea (s.gpr d) m).0 (bus.store 4 ea (s.gpr d) m).1
    where
      go :
          (n : S) (o : Outcome (Unit {0}))
          → IsSummary other s
              (on_ok (s0, n, o) (λ t k. (put_field_0 (bit_or 0x20 (so t)) t, k, ok tt))).0
              (on_ok (s0, n, o) (λ t k. (put_field_0 (bit_or 0x20 (so t)) t, k, ok tt))).2
      go n (ok u) = put_so (bit_or 0x20 (so s)) other s0 in_other (low_so s).0
      go n (throw ex) = refl
      go n no_return = refl

  -- A stwcx. that ends puts the SO of XER alone into the field 0 of CR, whether it stored or not, since the bit that is to say so
  -- lies outside the field; it keeps the other fields. One that throws changes no field.
  pub stwcx_lem :
      (m : S) → IsSummary other s (stwcx_dot bus res d a b s m).0 (stwcx_dot bus res d a b s m).2
  unfolding stwcx_dot rtl_bus
  stwcx_lem m = checked (res.check_resv _ 4 m).0 (res.check_resv _ 4 m).1
    where
      Closed : Ran S → Type 0
      Closed r = IsSummary other s r.0 r.2

      closed :
          (r : Ran S)
          → IsSummary other s r.0 r.2
          → Closed (on_ok r (λ t n. (record t { pc = t.nip }, n, ok tt)))
      closed (t, n, ok u) e = e
      closed (t, n, throw ex) e = e
      closed (t, n, no_return) e = e

      cleared :
          (ea : ℕ) (r : Ran S)
          → IsSummary other s r.0 r.2
          → Closed (on_ok r (λ t n. (t, res.clear_resv ea n, ok tt)))
      cleared ea (t, n, ok u) e = e
      cleared ea (t, n, throw ex) e = e
      cleared ea (t, n, no_return) e = e

      checked :
          (n : S) (o : Outcome Bool)
          → Closed (
              on_ok
                (elim o as (λ _. Ran S) [
                  | ok reserved ↦
                      on_ok
                        (store_if bus reserved (ea_x a b s0) (s0.gpr d) s0 n)
                        (λ t k. (t, res.clear_resv (ea_x a b s0) k, ok tt))
                  | throw ex ↦ (s0, n, throw ex)
                  | no_return ↦ (s0, n, no_return)
                ])
                (λ t k. (record t { pc = t.nip }, k, ok tt)))
      checked n (ok reserved) = closed _ (cleared (ea_x a b s0) _ (stored reserved (ea_x a b s0) n))
      checked n (throw ex) = refl
      checked n no_return = refl
