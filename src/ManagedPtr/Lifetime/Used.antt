-- ===== src/ManagedPtr/Lifetime/Used.antt =====
-- The uses of a managed_ptr destroy nothing and keep its record.
use chai.Base.{false, true, ℕ, List, [], ◌∷◌, ◌≡◌, ◌≢◌, some, arith, refl, ◌∙◌, ap, sym, true}
use chai.Space.{ExecutionSpace, space_dec, all_spaces}
use chai.Umpire.{Pointer, nullptr}
use chai.ManagedPtr.Host.{Program, Host, PtrRecord, PtrCallback, put_record, unset, set, Deed}
use chai.ManagedPtr.Handle.{ManagedPtr, move_ptr, tell_if_set, copy, get_host, get_in, set_callback}
use chai.ManagedPtr.Handle.Told.{tellings, tell_move-tellings}
use chai.ManagedPtr.Lifetime.{
  PtrUse, perform_use, perform_uses, last_callback, destructions, enter, read_in, call_back, copied,
  read,
}
use chai.ArrayManager.Settings.{set_execution_space}
use chai.ArrayManager.Settings.Effect.{in_space, set_execution_space_lem}

destructions-tellings :
    (P : Program) (m : ManagedPtr) (s : ExecutionSpace) (q : Pointer) (n : ℕ)
    (ss : List ExecutionSpace) (log : List Deed)
    → destructions s q (tellings P m n ss log) ≡ destructions s q log
destructions-tellings P m s q n [] log = refl
destructions-tellings P m s q n (t ∷ ts) log = destructions-tellings P m s q n ts _

module _ {P : Program} (m : ManagedPtr) (real : m.pointer_record ≢ nullptr) where
  -- From `h` to `h'` the record at the pointer lives on, with the callback, and nothing is destroyed.
  pub record Keeps (h h' : Host P) (c : PtrCallback) : Type 0 where
    pub object : PtrRecord
    pub at : h'.records m.pointer_record ≡ some object
    pub callback : object.callback ≡ c
    pub deeds :
        (s : ExecutionSpace) (q : Pointer) → destructions s q h'.log ≡ destructions s q h.log

  module _ (h : Host P) (p : PtrRecord) (at : h.records m.pointer_record ≡ some p) where
    same : Keeps h h p.callback
    same = record { object = p; at = at; callback = refl; deeds = λ s q. refl }

    entered : ExecutionSpace → Host P
    entered space = put_record m.pointer_record (some (record p { last_space = space })) h

    told : PtrCallback → ExecutionSpace → Host P
    told unset space = entered space
    told (set n) space = record (entered space) {
      log = tellings P m n (all_spaces P.env.config) h.log;
    }

    told-Keeps : (c : PtrCallback) (space : ExecutionSpace) → Keeps h (told c space) p.callback
    unfolding told entered
    told-Keeps unset space = record {
      object = record p { last_space = space };
      at = ground arith;
      callback = refl;
      deeds = λ s q. refl;
    }
    told-Keeps (set n) space = record {
      object = record p { last_space = space };
      at = ground arith;
      callback = refl;
      deeds = λ s q. destructions-tellings P m s q n (all_spaces P.env.config) h.log;
    }

    tell_if_set-told :
        (c : PtrCallback) (space : ExecutionSpace)
        → tell_if_set m c (entered space) ≡ some (tt, told c space)
    unfolding tell_if_set told entered
    tell_if_set-told unset space = refl
    tell_if_set-told (set n) space =
        tell_move-tellings m n (all_spaces P.env.config) (entered space)

    move_ptr-Keeps : (h' : Host P) × (move_ptr m h ≡ some (tt, h')) × Keeps h h' p.callback
    unfolding move_ptr entered
    move_ptr-Keeps =
        let current : ExecutionSpace = h.manager.current_execution_space in
        elim (space_dec current ExecutionSpace.none) [
          | yes e ↦ (h, ground arith, same)
          | no n ↦ elim (space_dec current p.last_space) [
            | yes e ↦ (h, ground arith, same)
            | no n' ↦ (
              told p.callback current,
              ground (arith, tell_if_set-told p.callback current),
              told-Keeps p.callback current,
            )
          ]
        ]

  perform_use-Keeps :
      (u : PtrUse) (us : List PtrUse) (h : Host P) (p : PtrRecord)
      → h.records m.pointer_record ≡ some p
      → (h' : Host P) × (c : PtrCallback) × (perform_use m u h ≡ some (tt, h'))
        × Keeps h h' c
        × (last_callback p.callback (u ∷ us) ≡ last_callback c us)
  unfolding perform_use set_execution_space copy get_host get_in set_callback
  perform_use-Keeps (enter space) us h p at = (
    record h { manager = in_space space h.manager },
    p.callback,
    ground (arith, set_execution_space_lem space h.manager),
    record { object = p; at = at; callback = refl; deeds = λ s q. refl },
    refl,
  )
  perform_use-Keeps copied us h p at =
      let (h', runs, k) = move_ptr-Keeps h p at in (h', p.callback, ground (arith, runs), k, refl)
  perform_use-Keeps read us h p at =
      let (h', runs, k) = move_ptr-Keeps h p at in (h', p.callback, ground (arith, runs), k, refl)
  perform_use-Keeps (read_in space true) us h p at =
      let (h', runs, k) = move_ptr-Keeps h p at in (h', p.callback, ground (arith, runs), k, refl)
  perform_use-Keeps (read_in space false) us h p at =
      (h, p.callback, ground arith, same h p at, refl)
  perform_use-Keeps (call_back c) us h p at = (
    put_record m.pointer_record (some (record p { callback = c })) h,
    c,
    ground arith,
    record {
      object = record p { callback = c };
      at = ground arith;
      callback = refl;
      deeds = λ s q. refl;
    },
    refl,
  )

  pub perform_uses-Keeps :
      (us : List PtrUse) (h : Host P) (p : PtrRecord)
      → h.records m.pointer_record ≡ some p
      → (h' : Host P) × (perform_uses m us h ≡ some (tt, h'))
        × Keeps h h' (last_callback p.callback us)
  unfolding perform_uses
  perform_uses-Keeps [] h p at = (h, refl, same h p at)
  perform_uses-Keeps (u ∷ us) h p at =
      let (h', c, runs, k, last) = perform_use-Keeps u us h p at in
      let (h'', rest_runs, k') = perform_uses-Keeps us h' k.object k.at in
      (
        h'',
        ground (arith, runs, rest_runs),
        record {
          object = k'.object;
          at = k'.at;
          callback = k'.callback ∙ ap (λ d. last_callback d us) k.callback ∙ sym last;
          deeds = λ s q. k'.deeds s q ∙ k.deeds s q;
        },
      )
