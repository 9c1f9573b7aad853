-- ===== src/ArrayManager/Evict/Blocked.antt =====
-- Commands that run while the mutex is held by their own thread.
use chai.Base.{
  inl, inr, ◌∙◌, ◌≡◌, some, true, if◌then◌else◌, ◌≢◌, ◌==◌, ℕ_discrete, arith, Bool, subst,
  Bool-cases, not, refl, ◌||◌, false,
}
use chai.World.{
  World, Run, PointerRecord, fault, done, deadlock, bind, null_record, put_record, called,
  allocated, alloc,
}
use chai.Umpire.{Env, RecordPointer, nullptr, Pointer}
use chai.Space.{ExecutionSpace, fill, spaces}
use chai.ArrayManager.Register.{register_pointer}
use chai.ArrayManager.Move.{allocate, migrate, ensure_allocated, finish_move}
use chai.ArrayManager.Callbacks.Log.{callback_lem}
use chai.ArrayManager.Move.Effect.{after_finish, placed, finish_move_lem, new_pointer}

-- A command on a locked world that either runs into the mutex, or keeps the mutex and the pointers
-- of every record.
pub record SamePointers {E : Env} (w w' : World E) : Type 0 where
  pub same :
      (q : RecordPointer) (p : PointerRecord)
      → w.heap q ≡ some p
      → (p' : PointerRecord) × (w'.heap q ≡ some p') × (p'.pointers ≡ p.pointers)

pub put-SamePointers :
    {E : Env} (w w' : World E) (r : RecordPointer) (p p' : PointerRecord)
    → w.heap r ≡ some p
    → ((q : RecordPointer) → w'.heap q ≡ (if q == r then some p' else w.heap q))
    → p'.pointers ≡ p.pointers
    → SamePointers w w'
put-SamePointers w w' r p p' at heap same = record {
  same = λ q o h. elim (ℕ_discrete q r) [
    | yes e ↦ (
      p',
      ground (arith, heap q),
      let eq : p ≡ o = ground arith in
          subst (λ (x : PointerRecord). p'.pointers ≡ x.pointers) eq same,
    )
    | no e ↦ (o, ground (arith, heap q), refl)
  ];
}

pub data Blocked {E : Env} (w : World E) (run : Run E (Unit {0})) : Type 0 where
  stops : run ≡ fault deadlock → Blocked w run
  goes : (w' : World E) → run ≡ done tt w' → w'.locked ≡ true → SamePointers w w' → Blocked w run

pub Blocked-of_eq :
    {E : Env} {w : World E} {run run' : Run E (Unit {0})}
    → run' ≡ run
    → Blocked w run
    → Blocked w run'
Blocked-of_eq e (stops h) = stops (e ∙ h)
Blocked-of_eq e (goes w' h l s) = goes w' (e ∙ h) l s

pub SamePointers-trans :
    {E : Env} {u v w : World E} → SamePointers u v → SamePointers v w → SamePointers u w
SamePointers-trans s t = record {
  same = λ q p h.
      let (p', h', e) = s.same q p h in let (p'', h'', e') = t.same q p' h' in (p'', h'', e' ∙ e);
}

module _ {E : Env} {w w' : World E} {run : Run E (Unit {0})}
    (k : Unit {0} → World E → Run E (Unit {0})) where
  Blocked-chain :
      run ≡ done tt w' → SamePointers w w' → Blocked w' (k tt w') → Blocked w (bind run k)
  Blocked-chain h s (stops d) = stops (rw h d)
  Blocked-chain h s (goes w'' d l t) = goes w'' (rw h d) l (SamePointers-trans s t)

pub Blocked-from :
    {E : Env} {w w' : World E} {run : Run E (Unit {0})}
    → SamePointers w w'
    → Blocked w' run
    → Blocked w run
Blocked-from s (stops d) = stops d
Blocked-from s (goes w'' d l t) = goes w'' d l (SamePointers-trans s t)

pub Blocked-bind :
    {E : Env} {w : World E} {run : Run E (Unit {0})} (k : Unit {0} → World E → Run E (Unit {0}))
    → Blocked w run
    → ((w' : World E) → w'.locked ≡ true → SamePointers w w' → Blocked w' (k tt w'))
    → Blocked w (bind run k)
Blocked-bind k (stops h) next = stops (rw h)
Blocked-bind k (goes w' h l s) next = Blocked-chain k h s (next w' l s)

module _ {E : Env} (w : World E) (r : RecordPointer) (p : PointerRecord) (space : ExecutionSpace)
    (locked : w.locked ≡ true) (real : r ≢ nullptr) (at : w.heap r ≡ some p) where
  register_pointer-locked : (owned : Bool) → register_pointer r space owned w ≡ fault deadlock
  unfolding register_pointer
  register_pointer-locked owned = ground arith

  allocate-locked : allocate r space w ≡ fault deadlock
  unfolding allocate register_pointer
  allocate-locked = ground (
    arith,
    callback_lem
        (put_record r (some (placed w r p space)) (
          called (allocated (p.allocators space) p.size (new_pointer w r p space))
            (E.allocate (p.allocators space) p.size w.umpire).1 w))
        r (placed w r p space) real (ground arith) alloc space,
  )

  finish_move-Blocked :
      r ≢ null_record
      → (dst src : Pointer) → dst ≢ nullptr
      → src ≢ nullptr
      → Blocked w (finish_move r space dst src w)
  finish_move-Blocked own dst src to from =
      goes (after_finish w r p space dst src)
        (finish_move_lem w r p space dst src real own at to from)
        (unfold after_finish in ground arith)
        (put-SamePointers w (after_finish w r p space dst src) r p
          (record p { touched = fill (spaces E.config) false p.touched }) at
          (λ q. unfold after_finish in ground arith) refl)

  pub migrate-Blocked : r ≢ null_record → Blocked w (migrate r space w)
  unfolding migrate ensure_allocated
  migrate-Blocked own = elim (ℕ_discrete (p.pointers space) nullptr) [
    | yes gone ↦ stops (ground (arith, allocate-locked))
    | no here ↦
        elim (Bool-cases (not (p.touched p.last_space) || p.pointers p.last_space == nullptr)) [
          | inl still ↦ goes w (ground arith) locked (record { same = λ q o h. (o, h, refl) })
          | inr moves ↦ Blocked-of_eq (ground arith) (
              finish_move-Blocked own (p.pointers space) (p.pointers p.last_space) here
                (λ e. ground arith))
        ]
  ]
