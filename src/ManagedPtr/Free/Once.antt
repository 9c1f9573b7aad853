-- ===== src/ManagedPtr/Free/Once.antt =====
-- What managed_ptr::free destroys where no callback is set.
use chai.ManagedPtr.Host.{put_record, Program, Deed, destroyed, waited, Host, PtrRecord, unset}
use chai.Umpire.{Pointer, nullptr}
use chai.Base.{
  Bool, List, if◌then◌else◌, ◌==◌, ◌&&◌, not, ◌∷◌, ◌≢◌, ◌≡◌, some, true, none, Bool-cases, inl,
  arith, inr, refl,
}
use chai.ManagedPtr.Free.{
  free_space, free_ptr, free_spaces, destroy_in, destroy_on_device, delete_object,
}
use chai.Space.{all_spaces, cpu, spaces, gpu, has_gpu}
use chai.ManagedPtr.Handle.{ManagedPtr}

-- The log after the objects of a pointer are destroyed: the device's first.
abbrev host_gone : Pointer → List Deed → List Deed
host_gone q log = if q == nullptr then log else destroyed cpu q ∷ log

abbrev device_gone : Bool → Bool → Pointer → List Deed → List Deed
device_gone gpucc waits q log =
    if gpucc && not (q == nullptr)
    then (if waits then waited ∷ destroyed gpu q ∷ log else destroyed gpu q ∷ log)
    else log

module _ {P : Program} where
  -- Without a callback, in a build with a GPU, `free` destroys each object once, the device's first,
  -- deletes the shared record, and leaves the pointer without objects and record; where
  -- the device is to be synchronized, it waits after the device's object. A build that does not
  -- compile for the device leaves the device's pointer alone. The shared record is live.
  free_ptr-unset :
      (m : ManagedPtr) (h : Host P) (p : PtrRecord)
      → m.pointer_record ≢ nullptr
      → h.records m.pointer_record ≡ some p
      → p.callback ≡ unset
      → has_gpu P.env.config ≡ true
      → (h' : Host P) × (free_ptr m h
          ≡ some (
            record {
              cpu_pointer = nullptr;
              gpu_pointer = if P.gpucc then nullptr else m.gpu_pointer;
              pointer_record = nullptr;
            },
            h',
          ))
        × (h'.log
            ≡ host_gone m.cpu_pointer
                (device_gone P.gpucc h.manager.device_synchronize m.gpu_pointer h.log))
        × (h'.records m.pointer_record ≡ none)
  unfolding free_ptr free_spaces free_space destroy_in destroy_on_device delete_object all_spaces
      spaces
  free_ptr-unset m h p real at plain build = (
    record (put_record m.pointer_record none h) {
      log =
          host_gone m.cpu_pointer
            (device_gone P.gpucc h.manager.device_synchronize m.gpu_pointer h.log);
    },
    elim (Bool-cases P.env.config.um) [
      | inl u ↦ elim (Bool-cases P.env.config.pinned) [
        | inl v ↦ ground arith
        | inr v ↦ ground arith
      ]
      | inr u ↦ elim (Bool-cases P.env.config.pinned) [
        | inl v ↦ ground arith
        | inr v ↦ ground arith
      ]
    ],
    refl,
    ground arith,
  )
