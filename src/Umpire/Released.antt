-- ===== src/Umpire/Released.antt =====
-- Sequences of calls on the resource manager that give memory back.
use chai.Base.{◌≡◌, ◌≢◌, subst, sym}
use chai.Umpire.{Env, Pointer, AllocatorId, ReleaseLaws}

-- From the state `u`, only pointers that meet `P` are given back or forgotten.
pub data Released (E : Env) (P : Pointer → Type 0) (u : E.Manager) : E.Manager → Type 0 where
  untouched : {v : E.Manager} → v ≡ u → Released E P u v
  deallocated :
      {v x : E.Manager} (a : AllocatorId) (q : Pointer)
      → Released E P u v
      → P q
      → x ≡ E.deallocate a q v
      → Released E P u x
  deregistered :
      {v x : E.Manager} (q : Pointer)
      → Released E P u v
      → P q
      → x ≡ E.deregister_allocation q v
      → Released E P u x

module _ {E : Env} where
  pub Released-map :
      {P Q : Pointer → Type 0} {u v : E.Manager}
      → ((q : Pointer) → P q → Q q)
      → Released E P u v
      → Released E Q u v
  Released-map f (untouched e) = untouched e
  Released-map f (deallocated a q r h e) = deallocated a q (Released-map f r) (f q h) e
  Released-map f (deregistered q r h e) = deregistered q (Released-map f r) (f q h) e

  pub Released-trans :
      {P : Pointer → Type 0} {u v x : E.Manager}
      → Released E P u v
      → Released E P v x
      → Released E P u x
  Released-trans {P} {u} first (untouched e) = subst (Released E P u) (sym e) first
  Released-trans first (deallocated a q r h e) = deallocated a q (Released-trans first r) h e
  Released-trans first (deregistered q r h e) = deregistered q (Released-trans first r) h e

  -- Every other live pointer stays live.
  pub Released-live :
      {IsLive : E.Manager → Pointer → Type 0} {P : Pointer → Type 0} {u v : E.Manager} (p : Pointer)
      → ReleaseLaws E IsLive
      → Released E P u v
      → ((q : Pointer) → P q → p ≢ q)
      → IsLive u p
      → IsLive v p
  Released-live {IsLive} p laws (untouched e) other l = subst (λ v. IsLive v p) (sym e) l
  Released-live {IsLive} p laws (deallocated a q r h e) other l =
      subst (λ v. IsLive v p) (sym e)
        (laws.deallocate_keeps a q _ p (other q h) (Released-live p laws r other l))
  Released-live {IsLive} p laws (deregistered q r h e) other l =
      subst (λ v. IsLive v p) (sym e)
        (laws.deregister_keeps q _ p (other q h) (Released-live p laws r other l))
