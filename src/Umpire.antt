-- ===== src/Umpire.antt =====
-- The parts of Umpire that src/chai calls, as a parameter: the resource manager, with an abstract
-- state, and `umpire::util::MemoryMap`, the map from pointers to records.
pub mod Concrete
pub mod Released
use chai.Base.{Occurs, ℕ, ◌<◌, ◌≡◌, ◌≢◌, Bool, Option, none, some, List, [], ◌∷◌}
use chai.Space.{Config, ExecutionSpace}

-- An address. 0 is nullptr.
abbrev pub Pointer : Type 0
Pointer = ℕ

abbrev pub nullptr : Pointer
nullptr = 0

-- The address of a `PointerRecord` object.
abbrev pub RecordPointer : Type 0
RecordPointer = ℕ

-- The id of an `umpire::Allocator`.
abbrev pub AllocatorId : Type 0
AllocatorId = ℕ

-- The build, the resource manager's operations and the map's.
pub record Env : Type 1 where
  pub config : Config
  pub Manager : Type 0
  pub allocate : AllocatorId → ℕ → Manager → Pointer × Manager
  pub deallocate : AllocatorId → Pointer → Manager → Manager
  pub copy : (dst src : Pointer) → Manager → Manager
  pub copy_bytes : (dst src : Pointer) → ℕ → Manager → Manager
  pub has_allocator : Pointer → Manager → Bool
  -- `findAllocationRecord(pointer)`: the base address of the allocation that holds `pointer`.
  pub find_allocation : Pointer → Manager → Option Pointer
  -- The write of `size` to a found allocation record.
  pub resize_allocation : Pointer → ℕ → Manager → Manager
  pub register_allocation : Pointer → ℕ → AllocatorId → Manager → Manager
  pub deregister_allocation : Pointer → Manager → Manager
  pub Map : Type 0
  pub clear : Map
  pub find : Pointer → Map → Option RecordPointer
  pub insert : Pointer → RecordPointer → Map → Map
  pub erase : Pointer → Map → Map
  -- What iterating over the map yields, in its order.
  pub entries : Map → List (Pointer × RecordPointer)

-- What the code relies on of the map.
pub record MapLaws (E : Env) : Type 0 where
  pub find_insert_fresh :
      (p : Pointer) (r : RecordPointer) (m : E.Map)
      → E.find p m ≡ none
      → E.find p (E.insert p r m) ≡ some r
  pub find_insert_other :
      (p q : Pointer) (r : RecordPointer) (m : E.Map)
      → q ≢ p
      → E.find q (E.insert p r m) ≡ E.find q m
  pub find_erase : (p : Pointer) (m : E.Map) → E.find p (E.erase p m) ≡ none
  pub find_erase_other : (p q : Pointer) (m : E.Map) → q ≢ p → E.find q (E.erase p m) ≡ E.find q m
  pub find_clear : (p : Pointer) → E.find p E.clear ≡ none

-- An iteration over the map yields its entries.
pub record ListingLaws (E : Env) : Type 0 where
  pub yields :
      (p : Pointer) (r : RecordPointer) (m : E.Map)
      → E.find p m ≡ some r
      → Occurs (p, r) (E.entries m)
  pub yielded :
      (p : Pointer) (r : RecordPointer) (m : E.Map)
      → Occurs (p, r) (E.entries m)
      → E.find p m ≡ some r

-- What the code relies on of the resource manager. `contents u p` stands for the bytes of the
-- allocation at `p`, and `IsLive u p` says that `p` is the address of one.
pub record ManagerLaws (E : Env) (Block : Type 0) (contents : E.Manager → Pointer → Block)
    (IsLive : E.Manager → Pointer → Type 0) : Type 0 where
  pub allocate_new :
      (a : AllocatorId) (n : ℕ) (u : E.Manager)
      → ((E.allocate a n u).0 ≢ nullptr) × ((p : Pointer) → IsLive u p → p ≢ (E.allocate a n u).0)
  pub live_real : (p : Pointer) (u : E.Manager) → IsLive u p → p ≢ nullptr
  pub allocate_live :
      (a : AllocatorId) (n : ℕ) (u : E.Manager) → IsLive (E.allocate a n u).1 (E.allocate a n u).0
  pub allocate_keeps :
      (a : AllocatorId) (n : ℕ) (u : E.Manager) (p : Pointer)
      → IsLive u p
      → IsLive (E.allocate a n u).1 p × (contents (E.allocate a n u).1 p ≡ contents u p)
  pub copy_to :
      (dst src : Pointer) (u : E.Manager) → contents (E.copy dst src u) dst ≡ contents u src
  pub copy_keeps :
      (dst src p : Pointer) (u : E.Manager) → p ≢ dst → contents (E.copy dst src u) p ≡ contents u p
  pub copy_live : (dst src p : Pointer) (u : E.Manager) → IsLive u p → IsLive (E.copy dst src u) p
  pub register_keeps :
      (q : Pointer) (n : ℕ) (a : AllocatorId) (u : E.Manager) (p : Pointer)
      → IsLive u p
      → IsLive (E.register_allocation q n a u) p
        × (contents (E.register_allocation q n a u) p ≡ contents u p)
  pub resize_keeps :
      (q : Pointer) (n : ℕ) (u : E.Manager) (p : Pointer)
      → IsLive u p
      → IsLive (E.resize_allocation q n u) p
        × (contents (E.resize_allocation q n u) p ≡ contents u p)

-- What freeing and reallocating rely on: a block that is given back, or that Umpire is told to forget,
-- leaves the others live, and so does a copy. `byte u p i` stands for byte `i` of the allocation at `p`:
-- a copy writes the first `n` bytes of its target alone.
pub record ReleaseLaws (E : Env) (IsLive : E.Manager → Pointer → Type 0) : Type 0 where
  pub deallocate_keeps :
      (a : AllocatorId) (q : Pointer) (u : E.Manager) (p : Pointer)
      → p ≢ q
      → IsLive u p
      → IsLive (E.deallocate a q u) p
  pub deregister_keeps :
      (q : Pointer) (u : E.Manager) (p : Pointer)
      → p ≢ q
      → IsLive u p
      → IsLive (E.deregister_allocation q u) p
  pub copy_bytes_live :
      (dst src : Pointer) (n : ℕ) (u : E.Manager) (p : Pointer)
      → IsLive u p
      → IsLive (E.copy_bytes dst src n u) p
  pub byte : E.Manager → Pointer → ℕ → ℕ
  pub allocate_bytes :
      (a : AllocatorId) (n : ℕ) (u : E.Manager) (p : Pointer) (i : ℕ)
      → IsLive u p
      → byte (E.allocate a n u).1 p i ≡ byte u p i
  pub copy_bytes_to :
      (dst src : Pointer) (n i : ℕ) (u : E.Manager)
      → i < n
      → byte (E.copy_bytes dst src n u) dst i ≡ byte u src i
  pub copy_bytes_keeps :
      (dst src p : Pointer) (n i : ℕ) (u : E.Manager)
      → p ≢ dst
      → byte (E.copy_bytes dst src n u) p i ≡ byte u p i
  pub deallocate_bytes :
      (a : AllocatorId) (q : Pointer) (u : E.Manager) (p : Pointer) (i : ℕ)
      → p ≢ q
      → byte (E.deallocate a q u) p i ≡ byte u p i
