-- ===== src/ManagedPtr/Lifetime/Whole.antt =====
-- make_managed, any uses of the managed_ptr, and its free.
use chai.Base.{List, ◌≡◌, some, none, true, ◌+◌, ◌≢◌, arith, ◌∙◌, refl}
use chai.Space.{ExecutionSpace, cpu, gpu, has_gpu}
use chai.Umpire.{nullptr, Pointer}
use chai.ManagedPtr.Host.{Program, Host, unset, new, PtrRecord, put_record}
use chai.ManagedPtr.Handle.{ManagedPtr, of_pointers, assign}
use chai.ManagedPtr.Make.{make_managed}
use chai.ManagedPtr.Make.Space.{make_on_host_lem, make_on_device_lem, host_made, device_made}
use chai.ManagedPtr.Free.{free_ptr}
use chai.ManagedPtr.Lifetime.{PtrUse, perform_uses, last_callback, destructions}
use chai.ManagedPtr.Lifetime.Used.{perform_uses-Keeps}
use chai.ManagedPtr.Lifetime.Freed.{left, free_ptr-left}

fresh : PtrRecord
fresh = record { last_space = ExecutionSpace.none; callback = unset }

module _ {P : Program} where
  abbrev made : Host P → ManagedPtr
  made h = record {
    cpu_pointer = P.new_object cpu (h.objects + 1);
    gpu_pointer = P.new_object gpu h.objects;
    pointer_record = h.next_record;
  }

  after_made : Host P → Host P
  after_made h = record (put_record h.next_record (some fresh) (host_made (device_made h))) {
    next_record = h.next_record + 1;
  }

  make_managed-made : (h : Host P) → P.gpucc ≡ true → make_managed h ≡ some (made h, after_made h)
  unfolding make_managed of_pointers new assign after_made fresh
  make_managed-made h g = ground (arith, make_on_device_lem h, make_on_host_lem (device_made h))

  made-record : (h : Host P) → (after_made h).records h.next_record ≡ some fresh
  unfolding after_made
  made-record h = ground arith

  after_made-destructions :
      (h : Host P) (s : ExecutionSpace) (q : Pointer)
      → destructions s q (after_made h).log ≡ destructions s q h.log
  unfolding after_made
  after_made-destructions h s q = ground arith

  -- In a build for a device, make_managed makes a host and a device object and a record for them;
  -- whatever then is done with the managed_ptr and with its copies, in whatever execution spaces, is
  -- without fault; and `free` deletes the record and destroys each of the two objects exactly once
  -- more than they were destroyed before, or not at all where the callback that was set last answers
  -- that it has handled the object. The two `new`s and the `new` of the record must not return nullptr.
  pub make_managed-free_ptr :
      (us : List PtrUse) (h : Host P)
      → P.gpucc ≡ true
      → has_gpu P.env.config ≡ true
      → h.next_record ≢ nullptr
      → P.new_object cpu (h.objects + 1) ≢ nullptr
      → P.new_object gpu h.objects ≢ nullptr
      → (m : ManagedPtr) × (h1 : Host P) × (make_managed h ≡ some (m, h1))
        × (h2 : Host P) × (perform_uses m us h1 ≡ some (tt, h2))
        × (m' : ManagedPtr) × (h3 : Host P) × (free_ptr m h2 ≡ some (m', h3))
        × (h3.records m.pointer_record ≡ none)
        × (m.cpu_pointer ≡ P.new_object cpu (h.objects + 1))
        × (m.gpu_pointer ≡ P.new_object gpu h.objects)
        × (destructions cpu m.cpu_pointer h3.log
            ≡ left P (last_callback unset us) cpu m.cpu_pointer
              + destructions cpu m.cpu_pointer h.log)
        × (destructions gpu m.gpu_pointer h3.log
            ≡ left P (last_callback unset us) gpu m.gpu_pointer
              + destructions gpu m.gpu_pointer h.log)
  unfolding fresh
  make_managed-free_ptr us h g build real on_cpu on_gpu =
      let m : ManagedPtr = made h in
      let (h2, uses, k) = perform_uses-Keeps m real us (after_made h) fresh (made-record h) in
      let (m', h3, frees, gone, at_cpu, at_gpu) =
        free_ptr-left m h2 k.object real k.at g build on_cpu on_gpu in
      let before : (s : ExecutionSpace) (q : Pointer)
          → left P k.object.callback s q + destructions s q h2.log
            ≡ left P (last_callback unset us) s q + destructions s q h.log =
        λ s q. rw (k.callback, k.deeds s q, after_made-destructions h s q) refl in
      (
        m,
        after_made h,
        make_managed-made h g,
        h2,
        uses,
        m',
        h3,
        frees,
        gone,
        refl,
        refl,
        at_cpu ∙ before cpu m.cpu_pointer,
        at_gpu ∙ before gpu m.gpu_pointer,
      )
