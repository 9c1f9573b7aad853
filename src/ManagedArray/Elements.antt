-- ===== src/ManagedArray/Elements.antt =====
-- ManagedArray::pick, set, modify, incr and decr on the host (CHAI_ENABLE_PICK).
pub mod RoundTrip
use chai.ArrayManager.Elements
use chai.World.{modify, ◌>>=◌, ◌>>◌, load, synchronize, Cmd}
use chai.Space.{um, space_dec, ExecutionSpace, cpu, update}
use chai.Umpire.{Env}
use chai.ArrayManager.Elements.{ElementMemory, read, write}
use chai.ManagedArray.Handle.{Element, ManagedArray, advance}
use chai.Base.{ℕ, if◌then◌else◌, ◌&&◌, ◌==◌, ite, ◌+◌, true}

module _ {E : Env} (V : ElementMemory E) (T : Element) where
  -- Memory of UM is read where the handle points to; other memory is read on the host or through the
  -- array manager.
  unfoldable pub pick : ManagedArray → ℕ → Cmd E V.Value
  unfolding load synchronize
  pick a i = do
    p ← load a.pointer_record
    if E.config.um && p.pointers um == a.active_base_pointer
        then (do synchronize; read V T (advance T a.active_pointer i))
        else ite (space_dec p.last_space ExecutionSpace.none)
            (read V T (advance T (p.pointers cpu) (i + a.offset)))
            (ite (space_dec p.last_space cpu) (read V T (advance T (p.pointers cpu) (i + a.offset)))
              (Elements.pick V T (p.pointers p.last_space) (i + a.offset)))

  unfoldable pub set : ManagedArray → ℕ → V.Value → Cmd E (Unit {0})
  unfolding load modify synchronize
  set a i val = do
    p ← load a.pointer_record
    if E.config.um && p.pointers um == a.active_pointer
        then (do synchronize; write V T (advance T a.active_pointer i) val)
        else (do
          modify a.pointer_record (λ q. record q {
            last_space = ite (space_dec q.last_space ExecutionSpace.none) cpu q.last_space;
          })
          modify a.pointer_record (λ q. record q { touched = update q.touched q.last_space true })
          q ← load a.pointer_record
          Elements.set V T (advance T (q.pointers q.last_space) a.offset) i val)

  -- `modify`, with the element type's addition.
  unfoldable pub modify_element :
      (V.Value → V.Value → V.Value) → ManagedArray → ℕ → V.Value → Cmd E (Unit {0})
  unfolding load synchronize
  modify_element plus a i val = do
    p ← load a.pointer_record
    if E.config.um && p.pointers um == a.active_pointer
        then (do
          synchronize
          old ← read V T (advance T a.active_pointer i)
          write V T (advance T a.active_pointer i) (plus old val))
        else (do temp ← pick a i; set a i (plus temp val))

  -- `incr` and `decr` add `(T) 1` and `(T) -1`.
  unfoldable pub incr :
      (V.Value → V.Value → V.Value) → (one : V.Value) → ManagedArray → ℕ → Cmd E (Unit {0})
  unfolding modify_element
  incr plus one a i = modify_element plus a i one

  unfoldable pub decr :
      (V.Value → V.Value → V.Value) → (minus_one : V.Value) → ManagedArray → ℕ → Cmd E (Unit {0})
  unfolding modify_element
  decr plus minus_one a i = modify_element plus a i minus_one
