-- ===== src/ManagedPtr/Lifetime/Freed.antt =====
-- What managed_ptr::free destroys, with a callback or without.
use chai.Base.{
  ℕ, [], ◌∷◌, ◌≡◌, some, true, if◌then◌else◌, refl, Bool-cases, ◌+◌, inl, inr, arith, ◌∙◌, ◌≢◌,
  none, sym, ap,
}
use chai.Space.{ExecutionSpace, cpu, gpu, has_gpu, space_dec}
use chai.Umpire.{Pointer, nullptr}
use chai.World.{free}
use chai.ManagedPtr.Host.{
  put_record, told, Program, Host, PtrCallback, unset, set, waited, destroyed, PtrRecord,
}
use chai.ManagedPtr.Handle.{ManagedPtr, pointer_in}
use chai.ManagedPtr.Free.{
  free_space, offer, free_spaces, destroy_in, destroy_on_device, delete_object, free_ptr,
}
use chai.ManagedPtr.Lifetime.{destructions}
use chai.ManagedPtr.Lifetime.Quiet.{
  at_none, before_gpu, before_gpu-IsQuiet, reverse-all_spaces, quiet, quiets,
}

-- How often `free` destroys an object: never where the callback says that it has done so.
abbrev pub left : (P : Program) → PtrCallback → ExecutionSpace → Pointer → ℕ
left P unset s q = 1
left P (set n) s q = if P.answer n free s q then 0 else 1

module _ {P : Program} where
  -- The round in a space that holds an object.
  record Ended (c : PtrCallback) (m m' : ManagedPtr) (h h' : Host P) (s other : ExecutionSpace)
      (x : Pointer) : Type 0 where
    runs : free_space c m s h ≡ some (m', h')
    records : h'.records ≡ h.records
    here : destructions s x h'.log ≡ left P c s x + destructions s x h.log
    there : (q : Pointer) → destructions other q h'.log ≡ destructions other q h.log

  abbrev waiting : Host P → Pointer → Host P
  waiting h q = record h {
    log =
        if h.manager.device_synchronize
        then waited ∷ destroyed gpu q ∷ h.log
        else destroyed gpu q ∷ h.log;
  }

  on_device :
      (c : PtrCallback) (m : ManagedPtr) (h : Host P)
      → P.gpucc ≡ true
      → m.gpu_pointer ≢ nullptr
      → (m' : ManagedPtr) × (h' : Host P) × Ended c m m' h h' gpu cpu m.gpu_pointer
        × (m'.cpu_pointer ≡ m.cpu_pointer)
  unfolding free_space offer destroy_in destroy_on_device pointer_in space_dec
  on_device unset m h g real = (
    record m { gpu_pointer = nullptr },
    waiting h m.gpu_pointer,
    record { runs = ground arith; records = refl; here = ground arith; there = λ q. ground arith },
    refl,
  )
  on_device (set n) m h g real =
      let told_log : Host P = record h { log = told n free gpu m.gpu_pointer ∷ h.log } in
      elim (Bool-cases (P.answer n free gpu m.gpu_pointer)) [
        | inl yes_ ↦ (
          m,
          told_log,
          record { runs = ground arith; records = refl; here = ground arith; there = λ q. refl },
          refl,
        )
        | inr no_ ↦ (
          record m { gpu_pointer = nullptr },
          waiting told_log m.gpu_pointer,
          record {
            runs = ground arith;
            records = refl;
            here = ground arith;
            there = λ q. ground arith;
          },
          refl,
        )
      ]

  destroy_in-cpu :
      (m : ManagedPtr) (h : Host P)
      → m.cpu_pointer ≢ nullptr
      → destroy_in m cpu h
        ≡ some (
          record m { cpu_pointer = nullptr },
          record h { log = destroyed cpu m.cpu_pointer ∷ h.log },
        )
  unfolding destroy_in delete_object
  destroy_in-cpu m h real = ground arith

  on_host :
      (c : PtrCallback) (m : ManagedPtr) (h : Host P)
      → m.cpu_pointer ≢ nullptr
      → (m' : ManagedPtr) × (h' : Host P) × Ended c m m' h h' cpu gpu m.cpu_pointer
  unfolding free_space offer pointer_in space_dec
  on_host unset m h real = (
    record m { cpu_pointer = nullptr },
    record h { log = destroyed cpu m.cpu_pointer ∷ h.log },
    record {
      runs = destroy_in-cpu m h real;
      records = refl;
      here = ground arith;
      there = λ q. ground arith;
    },
  )
  on_host (set n) m h real = elim (Bool-cases (P.answer n free cpu m.cpu_pointer)) [
    | inl yes_ ↦ (
      m,
      record h { log = told n free cpu m.cpu_pointer ∷ h.log },
      record { runs = ground arith; records = refl; here = ground arith; there = λ q. refl },
    )
    | inr no_ ↦ (
      record m { cpu_pointer = nullptr },
      record h { log = destroyed cpu m.cpu_pointer ∷ told n free cpu m.cpu_pointer ∷ h.log },
      record {
        runs = ground (
          arith,
          destroy_in-cpu m (record h { log = told n free cpu m.cpu_pointer ∷ h.log }) real,
        );
        records = refl;
        here = ground arith;
        there = λ q. ground arith;
      },
    )
  ]

  -- `free` destroys each object once where its callback, if it has one, does not handle it, and the
  -- shared record is deleted.
  pub free_ptr-left :
      (m : ManagedPtr) (h : Host P) (p : PtrRecord)
      → m.pointer_record ≢ nullptr
      → h.records m.pointer_record ≡ some p
      → P.gpucc ≡ true
      → has_gpu P.env.config ≡ true
      → m.cpu_pointer ≢ nullptr
      → m.gpu_pointer ≢ nullptr
      → (m' : ManagedPtr) × (h' : Host P) × (free_ptr m h ≡ some (m', h'))
        × (h'.records m.pointer_record ≡ none)
        × (destructions cpu m.cpu_pointer h'.log
            ≡ left P p.callback cpu m.cpu_pointer + destructions cpu m.cpu_pointer h.log)
        × (destructions gpu m.gpu_pointer h'.log
            ≡ left P p.callback gpu m.gpu_pointer + destructions gpu m.gpu_pointer h.log)
  unfolding free_ptr free_spaces
  free_ptr-left m h p real at g build on_cpu on_gpu =
      let c : PtrCallback = p.callback in
      let (h1, skips, k1) =
        quiets c m (before_gpu P.env.config) (gpu ∷ cpu ∷ ExecutionSpace.none ∷ []) h
          (before_gpu-IsQuiet P.env.config) in
      let (m2, h2, k2, cpu_kept) = on_device c m h1 g on_gpu in
      let (m3, h3, k3) = on_host c m2 h2 (λ e. on_cpu (sym cpu_kept ∙ e)) in
      let (h4, last, k4) = quiet c m3 ExecutionSpace.none h3 (at_none refl) in
      let records : h4.records ≡ h.records = k4.records ∙ k3.records ∙ k2.records ∙ k1.records in
      let there : h4.records m.pointer_record ≡ some p =
        ap (λ f. f m.pointer_record) records ∙ at in
      (
        record m3 { pointer_record = nullptr },
        put_record m.pointer_record none h4,
        ground (arith, reverse-all_spaces P.env.config build, skips, k2.runs, k3.runs, last, there),
        ground arith,
        k4.deeds cpu m.cpu_pointer
            ∙ ap (λ q. destructions cpu q h3.log) (sym cpu_kept)
            ∙ k3.here
            ∙ ap (λ q. left P c cpu q + destructions cpu q h2.log) cpu_kept
            ∙ ap (λ n. left P c cpu m.cpu_pointer + n)
                (k2.there m.cpu_pointer ∙ k1.deeds cpu m.cpu_pointer),
        k4.deeds gpu m.gpu_pointer
            ∙ k3.there m.gpu_pointer
            ∙ k2.here
            ∙ ap (λ n. left P c gpu m.gpu_pointer + n) (k1.deeds gpu m.gpu_pointer),
      )
