-- ===== src/ArrayManager/Query/Adds.antt =====
-- What loops that only run callbacks, such as those of ArrayManager::reportLeaks, add to the log.
use chai.Base.{Occurs, subst, ℕ, ◌≡◌, ◌⊎◌, List, [], ◌∷◌, arith, inl, inr, refl, Bool, true, false}
use chai.Space.{ExecutionSpace}
use chai.Umpire.{Env, RecordPointer}
use chai.World.{Action, UserCallback, empty, ignore, user, Event, World, Cmd, done, for_each}
use chai.ArrayManager.Callbacks.Log.{tell, notify}

-- From the log `es` to `es'`, only events that meet `P` are added, and those that meet `Q` are there.
pub record Adds (P Q : Event → Type 0) (es es' : List Event) : Type 0 where
  pub kept : (e : Event) → Occurs e es → Occurs e es'
  pub sound : (e : Event) → Occurs e es' → Occurs e es ⊎ P e
  pub owed : (e : Event) → Q e → Occurs e es'

pub no_Adds : {P Q : Event → Type 0} {es : List Event} → ((e : Event) → ¬ (Q e)) → Adds P Q es es
no_Adds none_owed = record {
  kept = λ e o. o;
  sound = λ e o. inl o;
  owed = λ e q. absurd (none_owed e q);
}

pub Adds-trans :
    {P Q R S : Event → Type 0} {es es' es'' : List Event}
    → Adds P Q es es'
    → Adds P R es' es''
    → ((e : Event) → S e → Q e ⊎ R e)
    → Adds P S es es''
Adds-trans first rest split = record {
  kept = λ e o. rest.kept e (first.kept e o);
  sound = λ e o. elim (rest.sound e o) [ inr p ↦ inr p | inl o' ↦ first.sound e o' ];
  owed = λ e s. elim (split e s) [ inl q ↦ rest.kept e (first.owed e q) | inr r ↦ rest.owed e r ];
}

pub Adds-owed :
    {P Q S : Event → Type 0} {es es' : List Event}
    → ((e : Event) → S e → Q e)
    → Adds P Q es es'
    → Adds P S es es'
Adds-owed f adds = record {
  kept = adds.kept;
  sound = adds.sound;
  owed = λ e s. adds.owed e (f e s);
}

module _ (r : RecordPointer) (a : Action) (s : ExecutionSpace) (size : ℕ) where
  -- The run of the callback `f`.
  abbrev pub Runs : UserCallback → Event → Type 0
  Runs f e =
      (n : ℕ) × (f ≡ user n)
      × (e ≡ record { callee = n; pointer_record = r; action = a; space = s; size = size })

  -- An event of the two callbacks.
  abbrev pub Notice : (own global : UserCallback) → Event → Type 0
  Notice own global e = Runs own e ⊎ Runs global e

  empty-idle : (e : Event) → ¬ (Runs empty e)
  empty-idle e (n, h, same) = cc

  ignore-idle : (e : Event) → ¬ (Runs ignore e)
  ignore-idle e (n, h, same) = cc

  module _ {P : Event → Type 0} where
    tell-Adds :
        (f : UserCallback) (es : List Event)
        → ((e : Event) → Runs f e → P e)
        → Adds P (Runs f) es (tell r a s size f es)
    tell-Adds empty es meets = no_Adds empty-idle
    tell-Adds ignore es meets = no_Adds ignore-idle
    tell-Adds (user n) es meets = record {
      kept = λ e o. inr o;
      sound = λ e o. elim o [ inl same ↦ inr (meets e (n, refl, same)) | inr o' ↦ inl o' ];
      owed = λ e (m, h, same). inl cc;
    }

    pub notify-Adds :
        (active : Bool) (own global : UserCallback) (es : List Event)
        → ((e : Event) → Notice own global e → P e)
        → Adds P
            (λ e. (active ≡ true) × Notice own global e)
            es
            (notify active own global r a s size es)
    notify-Adds false own global es meets = no_Adds (λ e (h, n). cc)
    notify-Adds true own global es meets =
        Adds-trans (tell-Adds own es (λ e m. meets e (inl m)))
          (tell-Adds global (tell r a s size own es) (λ e m. meets e (inr m))) (λ e (h, n). n)

abbrev pub logged : {E : Env} → World E → List Event → World E
logged w es = record w { events = es }

module _ {E : Env} {A : Type 0} {P : Event → Type 0} (Q : A → Event → Type 0)
    (body : A → Cmd E (Unit {0})) (w : World E) where
  -- A body that only adds to the log, so does its loop.
  pub for_each-Adds :
      (xs : List A)
      → ((x : A)
          → Occurs x xs
          → (es : List Event)
          → (es' : List Event) × (body x (logged w es) ≡ done tt (logged w es'))
            × Adds P (Q x) es es')
      → (es : List Event)
      → (es' : List Event) × (for_each xs body (logged w es) ≡ done tt (logged w es'))
        × Adds P (λ e. (x : A) × Occurs x xs × Q x e) es es'
  unfolding for_each
  for_each-Adds [] each es = (es, refl, no_Adds (λ e (x, o, q). absurd o))
  for_each-Adds (x ∷ xs) each es =
      let (es', runs, first) = each x (inl refl) es in
      let (es'', rest_runs, rest) = for_each-Adds xs (λ y o. each y (inr o)) es' in
      (
        es'',
        ground (arith, runs, rest_runs),
        Adds-trans first rest (λ e (y, o, q). elim o [
          | inl same ↦ inl (subst (λ z. Q z e) same q)
          | inr o' ↦ inr (y, o', q)
        ]),
      )
