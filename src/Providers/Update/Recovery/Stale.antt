-- ===== src/Providers/Update/Recovery/Stale.antt =====
-- Recovery after an update that failed and a later one that succeeded.
use central_core.Prelude.{
  ◌≡◌, refl, sym, ap, subst, ◌∙◌, false, none, some, [], ◌∷◌, arith, Text, TextMap, text_eq,
  text_eq_iff, get, IsSorted, get-AllAbove,
}
use central_core.Errors.{Error, Result, ok, err}
use central_core.Cache.{ManagedFileIndex}
use central_core.Providers.Update.Tree.{followed}
use central_core.Providers.Update.Transaction.{Outcome}
use central_core.Providers.Update.Recovery.Abandoned.{
  after_restore, restore_one, restore_all, restore_abandoned_update,
}
use central_core.Providers.Update.Plan.{UpdatePlan}
use central_core.Providers.Update.Apply.{Staging, OnDisk, Calls, apply_update_unlocked}
use central_core.Providers.Update.Apply.Begun.{IsUpdate, Succeeded, Failed}
use central_core.Providers.Update.Apply.Laws.{apply_update_unlocked-IsUpdate}

module _ {Url Spec : Type 0} where
  -- Every directory has the metadata `spec` and `index`.
  abbrev AllKeep : Spec → ManagedFileIndex Url → TextMap (Staging Url Spec) → Type 0
  AllKeep spec index [] = Unit
  AllKeep spec index ((j, staging) ∷ rest) =
      (staging.previous_spec ≡ some spec)
      × (staging.previous_index ≡ some index)
      × AllKeep spec index rest

  after_restore-ok :
      (transaction : Text) (staging : Staging Url Spec) (out : Outcome) (s t : OnDisk Url Spec)
      (spec : Spec) (index : ManagedFileIndex Url)
      → staging.previous_spec ≡ some spec
      → staging.previous_index ≡ some index
      → after_restore transaction staging out s ≡ (ok tt, t)
      → (t.spec ≡ spec) × (t.index ≡ index)
  after_restore-ok transaction staging (err e, u) s t spec index p i h =
      absurd (cc (ap (λ (o : Result (Unit {0}) × OnDisk Url Spec). o.0) h))
  after_restore-ok transaction staging (ok x, u) s t spec index p i h = (
    ap (λ (o : Result (Unit {0}) × OnDisk Url Spec). o.1.spec) (sym h) ∙ (rw p refl),
    ap (λ (o : Result (Unit {0}) × OnDisk Url Spec). o.1.index) (sym h) ∙ (rw i refl),
  )

  first_step :
      (out : Result (Unit {0}) × OnDisk Url Spec)
      (next : OnDisk Url Spec → Result (Unit {0}) × OnDisk Url Spec) (t : OnDisk Url Spec)
      → followed out next ≡ (ok tt, t)
      → (s : OnDisk Url Spec) × (out ≡ (ok tt, s)) × (next s ≡ (ok tt, t))
  first_step (err e, s) next t h =
      absurd (cc (ap (λ (o : Result (Unit {0}) × OnDisk Url Spec). o.0) h))
  first_step (ok u, s) next t h = (s, refl, h)

  restore_all-AllKeep :
      (j : Text) (staging : Staging Url Spec) (rest : TextMap (Staging Url Spec))
      (s t : OnDisk Url Spec) (spec : Spec) (index : ManagedFileIndex Url)
      → AllKeep spec index ((j, staging) ∷ rest)
      → restore_all ((j, staging) ∷ rest) s ≡ (ok tt, t)
      → (t.spec ≡ spec) × (t.index ≡ index)
  unfolding restore_all restore_one
  restore_all-AllKeep j staging [] s t spec index a h =
      let (u, first, h1) = first_step (restore_one j staging s) (restore_all []) t h in
      let r = after_restore-ok j staging _ s u spec index a.0 a.1 first in
      let same : u ≡ t = ap (λ (o : Result (Unit {0}) × OnDisk Url Spec). o.1) h1 in
      subst (λ (x : OnDisk Url Spec). (x.spec ≡ spec) × (x.index ≡ index)) same r
  restore_all-AllKeep j staging ((k, next) ∷ rest) s t spec index a h =
      let (u, first, h1) =
        first_step (restore_one j staging s) (restore_all ((k, next) ∷ rest)) t h in
      restore_all-AllKeep k next rest u t spec index a.2 h1

  AllKeep-of_get :
      (spec : Spec) (index : ManagedFileIndex Url) (m : TextMap (Staging Url Spec))
      → IsSorted m
      → ((j : Text) (staging : Staging Url Spec)
          → get j m ≡ some staging
          → (staging.previous_spec ≡ some spec) × (staging.previous_index ≡ some index))
      → AllKeep spec index m
  unfolding get
  AllKeep-of_get spec index [] h k = tt
  AllKeep-of_get spec index ((j, staging) ∷ rest) h k =
      let head = k j staging (ground (arith, text_eq_iff j j)) in
      (
        head.0,
        head.1,
        AllKeep-of_get spec index rest h.1
            (λ i other e. k i other (ground (arith, text_eq_iff j i, get-AllAbove j rest h.0))),
      )

  -- With a directory of another update at hand, recovery goes back to what that one keeps.
  restore_all-stale :
      (transaction : Text) (staging : Staging Url Spec) (m : TextMap (Staging Url Spec))
      (s t : OnDisk Url Spec) (spec : Spec) (index : ManagedFileIndex Url)
      → get transaction m ≡ some staging
      → AllKeep spec index m
      → restore_all m s ≡ (ok tt, t)
      → (t.spec ≡ spec) × (t.index ≡ index)
  unfolding get
  restore_all-stale transaction staging [] s t spec index there a h = absurd (cc there)
  restore_all-stale transaction staging ((j, first) ∷ rest) s t spec index there a h =
      restore_all-AllKeep j first rest s t spec index a h

  -- The directory of an update that failed is still there after a later update has succeeded, and a
  -- recovery then takes the specification and the index back to those from before the failed update.
  pub restore_abandoned_update-stale :
      (calls later_calls : Calls Url Spec) (transaction later : Text)
      (plan later_plan : UpdatePlan Url) (target_spec later_spec : Result Spec) (e : Error)
      (orig s t u : OnDisk Url Spec)
      → orig.staging ≡ []
      → text_eq later transaction ≡ false
      → apply_update_unlocked calls transaction plan target_spec orig ≡ (err e, s)
      → apply_update_unlocked later_calls later later_plan later_spec s ≡ (ok tt, t)
      → restore_abandoned_update t ≡ (ok tt, u)
      → (later_spec ≡ ok t.spec) × (u.spec ≡ orig.spec) × (u.index ≡ orig.index)
  unfolding restore_abandoned_update get
  restore_abandoned_update-stale calls later_calls transaction later plan later_plan target_spec
        later_spec e orig s t u fresh differ fails succeeds restores =
      let f : Failed calls transaction plan target_spec orig e s =
        subst (IsUpdate calls transaction plan target_spec orig) fails
          (apply_update_unlocked-IsUpdate calls transaction plan target_spec orig) in
      let g : Succeeded later later_plan later_spec s t =
        subst (IsUpdate later_calls later later_plan later_spec s) succeeds
          (apply_update_unlocked-IsUpdate later_calls later later_plan later_spec s) in
      let k = f.keeps in
      let r =
        restore_all-stale transaction k.staging t.staging t u orig.spec orig.index
          (g.staging transaction ∙ ground (arith, k.there))
          (AllKeep-of_get orig.spec orig.index t.staging (g.sorted (f.sorted (rw fresh tt)))
            (λ j other here.
              let none_before : get j orig.staging ≡ none = (rw fresh refl) in
              let same : k.staging ≡ other = ground (
                arith,
                here,
                g.staging j,
                f.others j,
                k.there,
                text_eq_iff transaction j,
                none_before,
              ) in
              (rw (← same) k.previous_spec, rw (← same) k.previous_index)))
          restores in
      (g.spec, r.0, r.1)
