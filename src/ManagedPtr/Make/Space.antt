-- ===== src/ManagedPtr/Make/Space.antt =====
-- The execution space of the array manager round make_on_host and make_on_device.
use chai.ManagedPtr.Host.{Program, manager, Host, created, waited, Deed}
use chai.ManagedPtr.Make.{make_on_host, make_on_device, create, wait_for_device}
use chai.ArrayManager.Settings.{get_execution_space}
use chai.Space.{cpu, gpu, ExecutionSpace}
use chai.Base.{◌≡◌, some, ◌∷◌, ◌+◌, false, Bool, if◌then◌else◌, List, refl, arith}
use chai.ArrayManager.Settings.Effect.{
  synced_for, set_execution_space_lem, still_unsynced, in_space,
}

abbrev after_wait : Bool → List Deed → List Deed
after_wait waits log = if waits then waited ∷ log else log

module _ {P : Program} where
  abbrev made_on : ExecutionSpace → Host P → Bool → List Deed → Host P
  made_on s h synced ds = record h {
    manager = record h.manager { synced_since_last_kernel = synced };
    objects = h.objects + 1;
    log = ds;
  }

  wait_for_device_lem :
      (h : Host P)
      → wait_for_device h
        ≡ some (tt, record h { log = after_wait h.manager.device_synchronize h.log })
  unfolding wait_for_device
  wait_for_device_lem h = ground arith

  -- The state after an object is made, on the host and on the device.
  abbrev pub host_made : Host P → Host P
  host_made h =
      made_on cpu h
        (synced_for h.manager.current_execution_space
          (synced_for cpu h.manager.synced_since_last_kernel))
        (created cpu (P.new_object cpu h.objects) ∷ h.log)

  abbrev pub device_made : Host P → Host P
  device_made h =
      made_on gpu h
        (synced_for h.manager.current_execution_space
          (synced_for gpu h.manager.synced_since_last_kernel))
        (after_wait h.manager.device_synchronize (created gpu (P.new_object gpu h.objects) ∷ h.log))

  pub make_on_host_lem :
      (h : Host P) → make_on_host h ≡ some (P.new_object cpu h.objects, host_made h)
  unfolding make_on_host create get_execution_space manager
  make_on_host_lem h = ground (
    arith,
    set_execution_space_lem cpu h.manager,
    set_execution_space_lem h.manager.current_execution_space (in_space cpu h.manager),
  )

  pub make_on_device_lem :
      (h : Host P) → make_on_device h ≡ some (P.new_object gpu h.objects, device_made h)
  unfolding make_on_device create get_execution_space manager
  make_on_device_lem h = ground (
    arith,
    set_execution_space_lem gpu h.manager,
    wait_for_device_lem (record h {
      manager = in_space gpu h.manager;
      objects = h.objects + 1;
      log = created gpu (P.new_object gpu h.objects) ∷ h.log;
    }),
    set_execution_space_lem h.manager.current_execution_space (in_space gpu h.manager),
  )

  -- An object is made where its space is the execution space, which is set back afterwards: the new
  -- object is the only one, and the pointer is what `new` returned. On the device, the end waits
  -- where the device is to be synchronized.
  make_on-space :
      (h : Host P)
      → ((h' : Host P) × (make_on_host h ≡ some (P.new_object cpu h.objects, h'))
          × (h'.manager.current_execution_space ≡ h.manager.current_execution_space)
          × (h'.log ≡ created cpu (P.new_object cpu h.objects) ∷ h.log)
          × (h'.objects ≡ h.objects + 1))
        × ((h' : Host P) × (make_on_device h ≡ some (P.new_object gpu h.objects, h'))
            × (h'.manager.current_execution_space ≡ h.manager.current_execution_space)
            × (h'.log
                ≡ after_wait h.manager.device_synchronize
                    (created gpu (P.new_object gpu h.objects) ∷ h.log))
            × (h'.manager.synced_since_last_kernel ≡ false)
            × (h'.objects ≡ h.objects + 1))
  make_on-space h = (
    (host_made h, make_on_host_lem h, refl, refl, refl),
    (
      device_made h,
      make_on_device_lem h,
      refl,
      refl,
      ground (arith, still_unsynced h.manager.current_execution_space),
      refl,
    ),
  )
