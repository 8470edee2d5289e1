-- ===== src/Core/Bus/Precise.antt =====
-- An access that throws leaves the instruction where it stands.
use ppcsimbooke.Base.{ℕ, if◌then◌else◌, ◌==◌, ◌||◌, [], ◌∷◌, All}
use ppcsimbooke.Base.Error.{sim_except_ppc}
use ppcsimbooke.Core.{Core}
use ppcsimbooke.Core.Bus.{Bus, Ran, illegal, load_to, store_to, then_update, ea_x, ea_du, ea_xu}
use ppcsimbooke.Core.Load.{
  algebraic, lbz, lbzx, lbzu, lbzux, lha, lhax, lhau, lhaux, lhz, lhzx, lhzu, lhzux, lwz, lwzx,
  lwzu, lwzux, lhbrx, lwbrx,
}
use ppcsimbooke.Core.Store.{
  stb, stbx, stbu, stbux, sth, sthx, sthu, sthux, stw, stwx, stwu, stwux, sthbrx, stwbrx,
}
use ppcsimbooke.Core.Cache.{
  dcbf, dcbst, dcbt, icbi, icbt, dcba, dcbi, dcbtst, dcblc, dcbtls, icblc, icbtls, dcbtstls,
  locks_denied,
}
use ppcsimbooke.Core.Bus.Steps.{
  IsPrecise, Ends, s0, finish, loaded, stored, updated, guarded, touched_load, touched_store,
  locked, IsRefused, refused, refused_lock,
}

-- One more of a list of facts.
infixr 4 ◌◁◌
abbrev ◌◁◌ : {A B : Type 0} → A → B → A × B
a ◁ b = (a, b)

module _ {S : Type 0} (bus : Bus S) (d a b disp msr : ℕ) (s : Core) (m : S) where
  -- Every load and store but the multiple ones, and every cache instruction but dcbz, is precise, on any memory: if it
  -- throws, no register but NIP changes, also not the base of a form with update, and PC stays at the instruction; else it
  -- goes on to the next instruction and keeps LR, CTR, CR and XER. A load with update whose rA is 0 or rD, and a store with
  -- update whose rA is 0, throws the program exception for an illegal form before it reaches the memory, and a cache lock in
  -- user mode without MSR[UCLE] the data storage exception for it.
  pub accesses-IsPrecise :
      All
        (λ (r : Ran S). IsPrecise s r.0 r.2)
        (lbz bus d disp a s m
          ∷ lbzx bus d a b s m
          ∷ lbzu bus d disp a s m
          ∷ lbzux bus d a b s m
          ∷ lha bus d disp a s m
          ∷ lhax bus d a b s m
          ∷ lhau bus d disp a s m
          ∷ lhaux bus d a b s m
          ∷ lhz bus d disp a s m
          ∷ lhzx bus d a b s m
          ∷ lhzu bus d disp a s m
          ∷ lhzux bus d a b s m
          ∷ lwz bus d disp a s m
          ∷ lwzx bus d a b s m
          ∷ lwzu bus d disp a s m
          ∷ lwzux bus d a b s m
          ∷ lhbrx bus d a b s m
          ∷ lwbrx bus d a b s m
          ∷ [])
      × All
          (λ (r : Ran S). IsPrecise s r.0 r.2)
          (stb bus d disp a s m
            ∷ stbx bus d a b s m
            ∷ stbu bus d disp a s m
            ∷ stbux bus d a b s m
            ∷ sth bus d disp a s m
            ∷ sthx bus d a b s m
            ∷ sthu bus d disp a s m
            ∷ sthux bus d a b s m
            ∷ stw bus d disp a s m
            ∷ stwx bus d a b s m
            ∷ stwu bus d disp a s m
            ∷ stwux bus d a b s m
            ∷ sthbrx bus d a b s m
            ∷ stwbrx bus d a b s m
            ∷ [])
      × All
          (λ (r : Ran S). IsPrecise s r.0 r.2)
          (dcbf bus a b s m
            ∷ dcbst bus a b s m
            ∷ dcbt bus a b s m
            ∷ icbi bus a b s m
            ∷ icbt bus a b s m
            ∷ dcba bus a b s m
            ∷ dcbi bus a b s m
            ∷ dcbtst bus a b s m
            ∷ dcblc bus msr a b s m
            ∷ dcbtls bus msr a b s m
            ∷ icblc bus msr a b s m
            ∷ icbtls bus msr a b s m
            ∷ dcbtstls bus msr a b s m
            ∷ [])
      × All (IsRefused bus s m (a == 0 || d == a) (sim_except_ppc 0x7 0x1 0)) (
          lbzu bus d disp a s m
          ∷ lbzux bus d a b s m
          ∷ lhau bus d disp a s m
          ∷ lhaux bus d a b s m
          ∷ lhzu bus d disp a s m
          ∷ lhzux bus d a b s m
          ∷ lwzu bus d disp a s m
          ∷ lwzux bus d a b s m
          ∷ [])
      × All (IsRefused bus s m (a == 0) (sim_except_ppc 0x7 0x1 0)) (
          stbu bus d disp a s m
          ∷ stbux bus d a b s m
          ∷ sthu bus d disp a s m
          ∷ sthux bus d a b s m
          ∷ stwu bus d disp a s m
          ∷ stwux bus d a b s m
          ∷ [])
      × All (IsRefused bus s m (locks_denied msr) (sim_except_ppc 0x3 0x10 0)) (
          dcblc bus msr a b s m
          ∷ dcbtls bus msr a b s m
          ∷ icblc bus msr a b s m
          ∷ icbtls bus msr a b s m
          ∷ dcbtstls bus msr a b s m
          ∷ [])
  unfolding lbz lbzx lbzu lbzux lha lhax lhau lhaux lhz lhzx lhzu lhzux lwz lwzx lwzu lwzux lhbrx
      lwbrx stb stbx stbu stbux sth sthx sthu sthux stw stwx stwu stwux sthbrx stwbrx dcbf dcbst
      dcbt icbi icbt dcba dcbi dcbtst dcblc dcbtls icblc icbtls dcbtstls illegal
  accesses-IsPrecise =
      let du = ea_du a disp (s0 bus s m) in
      let xu = ea_xu a b (s0 bus s m) in
      let x = ea_x a b (s0 bus s m) in
      (
        finish bus s m _ (loaded bus s m _ _ _ _)
            ◁ finish bus s m _ (loaded bus s m _ _ _ _)
            ◁ finish bus s m _ (load_from 1 (λ v. v) du)
            ◁ finish bus s m _ (load_from 1 (λ v. v) xu)
            ◁ finish bus s m _ (loaded bus s m _ _ _ _)
            ◁ finish bus s m _ (loaded bus s m _ _ _ _)
            ◁ finish bus s m _ (load_from 2 algebraic du)
            ◁ finish bus s m _ (load_from 2 algebraic xu)
            ◁ finish bus s m _ (loaded bus s m _ _ _ _)
            ◁ finish bus s m _ (loaded bus s m _ _ _ _)
            ◁ finish bus s m _ (load_from 2 (λ v. v) du)
            ◁ finish bus s m _ (load_from 2 (λ v. v) xu)
            ◁ finish bus s m _ (loaded bus s m _ _ _ _)
            ◁ finish bus s m _ (loaded bus s m _ _ _ _)
            ◁ finish bus s m _ (load_from 4 (λ v. v) du)
            ◁ finish bus s m _ (load_from 4 (λ v. v) xu)
            ◁ finish bus s m _ (loaded bus s m _ _ _ _)
            ◁ finish bus s m _ (loaded bus s m _ _ _ _)
            ◁ tt,
        finish bus s m _ (stored bus s m _ _ _)
            ◁ finish bus s m _ (stored bus s m _ _ _)
            ◁ finish bus s m _ (store_into 1 du)
            ◁ finish bus s m _ (store_into 1 xu)
            ◁ finish bus s m _ (stored bus s m _ _ _)
            ◁ finish bus s m _ (stored bus s m _ _ _)
            ◁ finish bus s m _ (store_into 2 du)
            ◁ finish bus s m _ (store_into 2 xu)
            ◁ finish bus s m _ (stored bus s m _ _ _)
            ◁ finish bus s m _ (stored bus s m _ _ _)
            ◁ finish bus s m _ (store_into 4 du)
            ◁ finish bus s m _ (store_into 4 xu)
            ◁ finish bus s m _ (stored bus s m _ _ _)
            ◁ finish bus s m _ (stored bus s m _ _ _)
            ◁ tt,
        finish bus s m _ (touched_load bus s m x)
            ◁ finish bus s m _ (touched_load bus s m x)
            ◁ finish bus s m _ (touched_load bus s m x)
            ◁ finish bus s m _ (touched_load bus s m x)
            ◁ finish bus s m _ (touched_load bus s m x)
            ◁ finish bus s m _ (touched_store bus s m x)
            ◁ finish bus s m _ (touched_store bus s m x)
            ◁ finish bus s m _ (touched_store bus s m x)
            ◁ finish bus s m _ (locked bus s m msr _ (touched_load bus s m x))
            ◁ finish bus s m _ (locked bus s m msr _ (touched_load bus s m x))
            ◁ finish bus s m _ (locked bus s m msr _ (touched_load bus s m x))
            ◁ finish bus s m _ (locked bus s m msr _ (touched_load bus s m x))
            ◁ finish bus s m _ (locked bus s m msr _ (touched_store bus s m x))
            ◁ tt,
        refused bus s m _ _ _
            ◁ refused bus s m _ _ _
            ◁ refused bus s m _ _ _
            ◁ refused bus s m _ _ _
            ◁ refused bus s m _ _ _
            ◁ refused bus s m _ _ _
            ◁ refused bus s m _ _ _
            ◁ refused bus s m _ _ _
            ◁ tt,
        refused bus s m _ _ _
            ◁ refused bus s m _ _ _
            ◁ refused bus s m _ _ _
            ◁ refused bus s m _ _ _
            ◁ refused bus s m _ _ _
            ◁ refused bus s m _ _ _
            ◁ tt,
        refused_lock bus s m msr _
            ◁ refused_lock bus s m msr _
            ◁ refused_lock bus s m msr _
            ◁ refused_lock bus s m msr _
            ◁ refused_lock bus s m msr _
            ◁ tt,
      )
    where
      load_from :
          (n : ℕ) (g : ℕ → ℕ) (ea : ℕ)
          → Ends bus s m (
              if a == 0 || d == a
              then illegal (s0 bus s m) m
              else then_update a ea (load_to bus n d g ea (s0 bus s m) m))
      load_from n g ea =
          guarded bus s m (a == 0 || d == a) _ (updated bus s m a ea _ (loaded bus s m n d g ea))

      store_into :
          (n ea : ℕ)
          → Ends bus s m (
              if a == 0
              then illegal (s0 bus s m) m
              else then_update a ea (store_to bus n ea (s.gpr d) (s0 bus s m) m))
      store_into n ea =
          guarded bus s m (a == 0) _ (updated bus s m a ea _ (stored bus s m n ea (s.gpr d)))
