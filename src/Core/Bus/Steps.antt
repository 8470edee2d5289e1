-- ===== src/Core/Bus/Steps.antt =====
-- The steps of the instructions on a bus: what each leaves in the registers, whether it throws or not.
use ppcsimbooke.Base.{ℕ, ◌+◌, ◌≡◌, refl, Bool, true, false, if◌then◌else◌, u64}
use ppcsimbooke.Base.Error.{Outcome, ok, throw, no_return, SimExcept, sim_except_ppc}
use ppcsimbooke.Core.{Core, set_reg}
use ppcsimbooke.Core.Bus.{Bus, Ran, on_ok, rtl_bus, load_to, store_to, then_update, illegal}
use ppcsimbooke.Core.Cache.{touch_load, touch_store, if_locks_allowed, locks_denied}

-- The registers t behind a body that was started with s.
abbrev pub IsBodyEnd : Core → Core → Outcome (Unit {0}) → Type 0
IsBodyEnd s t (ok u) = (t.nip ≡ s.nip) × (t.lr ≡ s.lr) × (t.ctr ≡ s.ctr) × (t.cond ≡ s.cond)
IsBodyEnd s t (throw ex) = t ≡ s
IsBodyEnd s t no_return = t ≡ s

-- The registers t behind an instruction: the next one follows, with LR, CTR, CR and XER as they were; or an exception was thrown and all but NIP is as it
-- was.
abbrev pub IsPrecise : Core → Core → Outcome (Unit {0}) → Type 0
IsPrecise s t (ok u) =
    (t.pc ≡ u64 (s.nip + 4)) × (t.nip ≡ t.pc) × (t.lr ≡ s.lr) × (t.ctr ≡ s.ctr) × (t.cond ≡ s.cond)
IsPrecise s t (throw ex) = t ≡ record s { nip = u64 (s.nip + 4) }
IsPrecise s t no_return = t ≡ record s { nip = u64 (s.nip + 4) }

module _ {S : Type 0} (bus : Bus S) (s : Core) (m : S) where
  abbrev pub s0 : Core
  s0 = record s { nip = u64 (s.nip + 4) }

  abbrev pub Ends : Ran S → Type 0
  Ends r = IsBodyEnd s0 r.0 r.2

  pub finish :
      (body : Core → S → Ran S)
      → Ends (body s0 m)
      → IsPrecise s (rtl_bus body s m).0 (rtl_bus body s m).2
  unfolding rtl_bus
  finish body end = go (body s0 m) end
    where
      go :
          (r : Ran S)
          → Ends r
          → IsPrecise s
              (on_ok r (λ t n. (record t { pc = t.nip }, n, ok tt))).0
              (on_ok r (λ t n. (record t { pc = t.nip }, n, ok tt))).2
      go (t, n, ok u) e = (e.0, refl, e.1, e.2, e.3)
      go (t, n, throw ex) e = e
      go (t, n, no_return) e = e

  -- An instruction that its guard refuses throws, and nothing but NIP changes, also not behind the bus.
  abbrev pub IsRefused : Bool → SimExcept → Ran S → Type 0
  IsRefused true ex r = r ≡ (s0, m, throw ex)
  IsRefused false ex r = Unit

  pub refused :
      (c : Bool) (ex : SimExcept) (run : Core → S → Ran S)
      → IsRefused c ex (rtl_bus (λ t n. if c then (t, n, throw ex) else run t n) s m)
  unfolding rtl_bus
  refused true ex run = refl
  refused false ex run = tt

  pub refused_lock :
      (r : ℕ) (body : Core → S → Ran S)
      → IsRefused
          (locks_denied r)
          (sim_except_ppc 0x3 0x10 0)
          (rtl_bus (if_locks_allowed r body) s m)
  unfolding if_locks_allowed
  refused_lock r body = refused (locks_denied r) (sim_except_ppc 0x3 0x10 0) body

  pub loaded : (n r : ℕ) (f : ℕ → ℕ) (ea : ℕ) → Ends (load_to bus n r f ea s0 m)
  unfolding load_to set_reg
  loaded n r f ea = go (bus.load n ea m).0 (bus.load n ea m).1
    where
      go :
          (t : S) (o : Outcome ℕ)
          → Ends (elim o as (λ _. Ran S) [
            | ok v ↦ (set_reg r (f v) s0, t, ok tt)
            | throw ex ↦ (s0, t, throw ex)
            | no_return ↦ (s0, t, no_return)
          ])
      go t (ok v) = (refl, refl, refl, refl)
      go t (throw ex) = refl
      go t no_return = refl

  pub stored : (n ea value : ℕ) → Ends (store_to bus n ea value s0 m)
  unfolding store_to
  stored n ea value = go (bus.store n ea value m).0 (bus.store n ea value m).1
    where
      go : (t : S) (o : Outcome (Unit {0})) → Ends (s0, t, o)
      go t (ok u) = (refl, refl, refl, refl)
      go t (throw ex) = refl
      go t no_return = refl

  pub updated : (r ea : ℕ) (run : Ran S) → Ends run → Ends (then_update r ea run)
  unfolding then_update set_reg
  updated r ea (t, n, ok u) e = e
  updated r ea (t, n, throw ex) e = e
  updated r ea (t, n, no_return) e = e

  pub guarded : (c : Bool) (run : Ran S) → Ends run → Ends (if c then illegal s0 m else run)
  unfolding illegal
  guarded true run e = refl
  guarded false run e = e

  pub touched_load : (ea : ℕ) → Ends (touch_load bus ea s0 m)
  unfolding touch_load
  touched_load ea = go (bus.load 4 ea m).0 (bus.load 4 ea m).1
    where
      go :
          (t : S) (o : Outcome ℕ)
          → Ends (elim o as (λ _. Ran S) [
            | ok v ↦ (s0, t, ok tt)
            | throw ex ↦ (s0, t, throw ex)
            | no_return ↦ (s0, t, no_return)
          ])
      go t (ok v) = (refl, refl, refl, refl)
      go t (throw ex) = refl
      go t no_return = refl

  pub touched_store : (ea : ℕ) → Ends (touch_store bus ea s0 m)
  unfolding touch_store store_to
  touched_store ea = go (bus.load 4 ea m).0 (bus.load 4 ea m).1
    where
      put : (n : S) (o : Outcome (Unit {0})) → Ends (s0, n, o)
      put n (ok u) = (refl, refl, refl, refl)
      put n (throw ex) = refl
      put n no_return = refl

      go :
          (t : S) (o : Outcome ℕ)
          → Ends (elim o as (λ _. Ran S) [
            | ok v ↦ store_to bus 4 ea v s0 t
            | throw ex ↦ (s0, t, throw ex)
            | no_return ↦ (s0, t, no_return)
          ])
      go t (ok v) = put (bus.store 4 ea v t).0 (bus.store 4 ea v t).1
      go t (throw ex) = refl
      go t no_return = refl

  pub locked :
      (r : ℕ) (body : Core → S → Ran S) → Ends (body s0 m) → Ends (if_locks_allowed r body s0 m)
  unfolding if_locks_allowed
  locked r body e = go (locks_denied r)
    where
      go : (c : Bool) → Ends (if c then (s0, m, throw (sim_except_ppc 0x3 0x10 0)) else body s0 m)
      go true = refl
      go false = e
