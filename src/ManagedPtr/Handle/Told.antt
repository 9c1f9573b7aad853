-- ===== src/ManagedPtr/Handle/Told.antt =====
-- What the copies of a managed_ptr tell its callback.
use chai.ManagedPtr.Host.{told, put_record, Program, Host, Deed, PtrRecord, set}
use chai.ManagedPtr.Handle.{ManagedPtr, tell_move, move_ptr, tell_if_set, pointer_in}
use chai.ManagedPtr.Handle.{copy}
use chai.Base.{ℕ, List, ◌≡◌, some, ◌≢◌, ◌∷◌, [], refl, arith}
use chai.Space.{ExecutionSpace, all_spaces}
use chai.World.{move}
use chai.Umpire.{nullptr}

module _ (P : Program) where
  -- The runs of a callback for a move, newest first.
  abbrev pub tellings : ManagedPtr → ℕ → List ExecutionSpace → List Deed → List Deed
  tellings m n [] log = log
  tellings m n (s ∷ ss) log = tellings m n ss (told n move s (pointer_in P m s) ∷ log)

module _ {P : Program} where
  pub tell_move-tellings :
      (m : ManagedPtr) (n : ℕ) (ss : List ExecutionSpace) (h : Host P)
      → tell_move m n ss h ≡ some (tt, record h { log = tellings P m n ss h.log })
  unfolding tell_move
  tell_move-tellings m n [] h = refl
  tell_move-tellings m n (s ∷ ss) h =
      tell_move-tellings m n ss (record h { log = told n move s (pointer_in P m s) ∷ h.log })

  -- The first copy in an execution space other than the last tells the callback of a move once for
  -- each space, NONE included, and remembers the space: a second copy there tells it nothing. The
  -- shared record is live and has a callback, and the execution space is not NONE.
  pub copy-copy :
      (m : ManagedPtr) (h : Host P) (p : PtrRecord) (n : ℕ)
      → m.pointer_record ≢ nullptr
      → h.records m.pointer_record ≡ some p
      → p.callback ≡ set n
      → h.manager.current_execution_space ≢ ExecutionSpace.none
      → h.manager.current_execution_space ≢ p.last_space
      → (h' : Host P) × (copy m h ≡ some (m, h'))
        × (h'.log ≡ tellings P m n (all_spaces P.env.config) h.log)
        × (h'.records m.pointer_record
            ≡ some (record p { last_space = h.manager.current_execution_space }))
        × (copy m h' ≡ some (m, h'))
  unfolding copy move_ptr tell_if_set
  copy-copy m h p n real at given current other = (
    record (put_record m.pointer_record
        (some (record p { last_space = h.manager.current_execution_space })) h) {
          log = tellings P m n (all_spaces P.env.config) h.log;
        },
    ground (
      arith,
      tell_move-tellings m n (all_spaces P.env.config) (
          put_record m.pointer_record
            (some (record p { last_space = h.manager.current_execution_space })) h),
    ),
    refl,
    ground arith,
    ground arith,
  )
