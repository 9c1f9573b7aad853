-- ===== src/ArrayManager/Elements/Effect.antt =====
-- What ArrayManager::pick and ArrayManager::set do to memory.
use chai.Umpire.{nullptr, Env, Pointer, AllocatorId}
use chai.ArrayManager.Elements.{pick, set, ElementMemory, read, write, copy_element}
use chai.ManagedArray.Handle.{Element, advance}
use chai.World.{
  Run, World, done, register_memory, copy_memory_bytes, deregister_memory, called, deregistered,
  copied_bytes, registered,
}
use chai.Base.{false, true, arith, ◌+◌, ◌≡◌, ℕ, ◌≤◌, ◌⊎◌, ◌∙◌, refl}

module _ {E : Env} (V : ElementMemory E) (T : Element) where
  -- Two elements that share no byte.
  abbrev pub Disjoint : Pointer → Pointer → Type 0
  Disjoint p q = (p + T.sizeof_t ≤ q) ⊎ (q + T.sizeof_t ≤ p)

  -- What the code relies on of memory and of the resource manager: writes and copies of elements that
  -- are in memory, and the local variable, which always is.
  pub record ElementLaws : Type 0 where
    pub null_unmapped : (u : E.Manager) → V.mapped nullptr u ≡ false
    pub local_mapped : (u : E.Manager) → V.mapped V.local u ≡ true
    pub poke_mapped :
        (p q : Pointer) (v : V.Value) (u : E.Manager) → V.mapped q (V.poke p v u) ≡ V.mapped q u
    pub copy_mapped :
        (dst src q : Pointer) (u : E.Manager)
        → V.mapped q (E.copy_bytes dst src T.sizeof_t u) ≡ V.mapped q u
    pub register_mapped :
        (p q : Pointer) (n : ℕ) (a : AllocatorId) (u : E.Manager)
        → V.mapped q u ≡ true
        → V.mapped q (E.register_allocation p n a u) ≡ true
    pub deregister_mapped :
        (p q : Pointer) (u : E.Manager)
        → V.mapped q u ≡ true
        → V.mapped q (E.deregister_allocation p u) ≡ true
    pub poke_here :
        (p : Pointer) (v : V.Value) (u : E.Manager)
        → V.mapped p u ≡ true
        → V.peek p (V.poke p v u) ≡ v
    pub poke_other :
        (p q : Pointer) (v : V.Value) (u : E.Manager)
        → V.mapped p u ≡ true
        → Disjoint p q
        → V.peek q (V.poke p v u) ≡ V.peek q u
    pub copy_here :
        (dst src : Pointer) (u : E.Manager)
        → V.mapped dst u ≡ true
        → V.mapped src u ≡ true
        → V.peek dst (E.copy_bytes dst src T.sizeof_t u) ≡ V.peek src u
    pub copy_other :
        (dst src q : Pointer) (u : E.Manager)
        → V.mapped dst u ≡ true
        → V.mapped src u ≡ true
        → Disjoint dst q
        → V.peek q (E.copy_bytes dst src T.sizeof_t u) ≡ V.peek q u
    pub register_keeps :
        (p q : Pointer) (n : ℕ) (a : AllocatorId) (u : E.Manager)
        → V.peek q (E.register_allocation p n a u) ≡ V.peek q u
    pub deregister_keeps :
        (p q : Pointer) (u : E.Manager) → V.peek q (E.deregister_allocation p u) ≡ V.peek q u

module _ {E : Env} {V : ElementMemory E} {T : Element} (laws : ElementLaws V T) where
  -- A run that yields the value at an address, and keeps the records and what is apart from the local
  -- variable.
  pub record Yields (run : Run E V.Value) (w : World E) (q : Pointer) : Type 0 where
    pub after : World E
    pub runs : run ≡ done (V.peek q w.umpire) after
    pub heap : after.heap ≡ w.heap
    pub kept : (x : Pointer) → Disjoint V T V.local x → V.peek x after.umpire ≡ V.peek x w.umpire
    pub mapped : (x : Pointer) → V.mapped x w.umpire ≡ true → V.mapped x after.umpire ≡ true

  -- A run that puts a value at an address, and keeps the records and what is apart from there and from
  -- the local variable.
  pub record Puts (run : Run E (Unit {0})) (w : World E) (q : Pointer) (v : V.Value) : Type 0 where
    pub after : World E
    pub runs : run ≡ done tt after
    pub heap : after.heap ≡ w.heap
    pub value : V.peek q after.umpire ≡ v
    pub kept :
        (x : Pointer)
        → Disjoint V T V.local x
        → Disjoint V T q x
        → V.peek x after.umpire ≡ V.peek x w.umpire
    pub mapped : (x : Pointer) → V.mapped x w.umpire ≡ true → V.mapped x after.umpire ≡ true

  abbrev registered_local : E.Manager → E.Manager
  registered_local u = E.register_allocation V.local T.sizeof_t V.host u

  -- The world after a copy of an element while the local variable is registered.
  abbrev copied_element : (dst src : Pointer) → World E → World E
  copied_element dst src w =
      let u : E.Manager = registered_local w.umpire in
      let c : E.Manager = E.copy_bytes dst src T.sizeof_t u in
      called (deregistered V.local) (E.deregister_allocation V.local c) (
        called (copied_bytes dst src T.sizeof_t) c
          (called (registered V.local T.sizeof_t V.host) u w))

  copied_element-mapped :
      (dst src x : Pointer) (w : World E)
      → V.mapped x w.umpire ≡ true
      → V.mapped x (copied_element dst src w).umpire ≡ true
  copied_element-mapped dst src x w m =
      laws.deregister_mapped V.local x _
        (laws.copy_mapped dst src x _ ∙ laws.register_mapped V.local x T.sizeof_t V.host w.umpire m)

  -- A copy between two addresses in memory.
  module _ (dst src : Pointer) (w : World E) (to : V.mapped dst w.umpire ≡ true)
      (from : V.mapped src w.umpire ≡ true) where
    to_there : V.mapped dst (registered_local w.umpire) ≡ true
    to_there = laws.register_mapped V.local dst T.sizeof_t V.host w.umpire to

    from_there : V.mapped src (registered_local w.umpire) ≡ true
    from_there = laws.register_mapped V.local src T.sizeof_t V.host w.umpire from

    copied_element-here : V.peek dst (copied_element dst src w).umpire ≡ V.peek src w.umpire
    copied_element-here =
        laws.deregister_keeps V.local dst _
        ∙ laws.copy_here dst src _ to_there from_there
        ∙ laws.register_keeps V.local src T.sizeof_t V.host w.umpire

    copied_element-other :
        (x : Pointer)
        → Disjoint V T dst x
        → V.peek x (copied_element dst src w).umpire ≡ V.peek x w.umpire
    copied_element-other x apart =
        laws.deregister_keeps V.local x _
        ∙ laws.copy_other dst src x _ to_there from_there apart
        ∙ laws.register_keeps V.local x T.sizeof_t V.host w.umpire

  module _ (w : World E) (base : Pointer) (i : ℕ)
      (here : V.mapped (advance T base i) w.umpire ≡ true) where
    pub manager_pick-Yields : Yields (pick V T base i w) w (advance T base i)
    unfolding pick read register_memory copy_memory_bytes copy_element deregister_memory
    manager_pick-Yields =
        let q : Pointer = advance T base i in
        let local = laws.local_mapped w.umpire in
        record {
          after = copied_element V.local q w;
          runs = ground (
            arith,
            to_there V.local q w local here,
            from_there V.local q w local here,
            laws.local_mapped (copied_element V.local q w).umpire,
            copied_element-here V.local q w local here,
          );
          heap = refl;
          kept = λ x apart. copied_element-other V.local q w local here x apart;
          mapped = λ x m. copied_element-mapped V.local q x w m;
        }

    -- The world after the value has been put into the local variable.
    abbrev held_locally : V.Value → World E
    held_locally v = record w { umpire = V.poke V.local v w.umpire }

    pub manager_set-Puts : (v : V.Value) → Puts (set V T base i v w) w (advance T base i) v
    unfolding set write register_memory copy_memory_bytes copy_element deregister_memory
    manager_set-Puts v =
        let q : Pointer = advance T base i in
        let u : E.Manager = V.poke V.local v w.umpire in
        let local = laws.local_mapped u in
        let there : V.mapped q u ≡ true = laws.poke_mapped V.local q v w.umpire ∙ here in
        record {
          after = copied_element q V.local (held_locally v);
          runs = ground (
            arith,
            laws.local_mapped w.umpire,
            to_there q V.local (held_locally v) there local,
            from_there q V.local (held_locally v) there local,
          );
          heap = refl;
          value =
              copied_element-here q V.local (held_locally v) there local
              ∙ laws.poke_here V.local v w.umpire (laws.local_mapped w.umpire);
          kept = λ x apart other.
              copied_element-other q V.local (held_locally v) there local x other
              ∙ laws.poke_other V.local x v w.umpire (laws.local_mapped w.umpire) apart;
          mapped = λ x m.
              copied_element-mapped q V.local x (held_locally v)
                (laws.poke_mapped V.local x v w.umpire ∙ m);
        }
