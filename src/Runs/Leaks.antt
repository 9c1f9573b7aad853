-- ===== src/Runs/Leaks.antt =====
-- ArrayManager::reportLeaks and getTotalSize in the worlds that allowed calls reach.
use chai.Base.{List, [], ◌∷◌, All, Occurs, ◌≡◌, ◌%◌, size_mod, inl, inr, refl}
use chai.ArrayManager.Query.{get_total_size}
use chai.ArrayManager.Query.Totals.{Lives, sum_sizes, get_total_size-sum}
use chai.Umpire.{Env, Pointer, ManagerLaws, ReleaseLaws, MapLaws, ListingLaws, AllocatorId}
use chai.ArrayManager.Start.{construct, AllocatorName}
use chai.ArrayManager.Query.Leaks.{LeakReport, report_leaks-LeakReport}
use chai.World.{World, Event, done}
use chai.Runs.{Reaches}
use chai.Runs.Reached.{Reaches-IsConsistent}

-- In a world that allowed calls reach from a new ArrayManager, reportLeaks returns, and changes
-- nothing but what the callbacks log. Each new event is a leak: it names a live record that has
-- memory in the space, with its size. While callbacks are active, each live record with memory in
-- a space is reported there, by its own callback and by the one for all arrays, where they are
-- set. Allowed calls use live records and spaces of the build, hand over memory that is not empty,
-- that the map does not know and that is live once it is registered, and ask for arrays that are
-- not empty; none is an evict, a deep copy of a record without memory in its last space, a
-- reallocation of memory that spaces share, a free in one space of memory that the record does not
-- own or that spaces share, or a free of shared PINNED memory in a build with UM and PINNED. The
-- resource manager and the map meet their laws, and an iteration over the map yields its entries.
pub Reaches-report_leaks :
    {E : Env} {Block : Type 0} {contents : E.Manager → Pointer → Block}
    {IsLive : E.Manager → Pointer → Type 0}
    → ManagerLaws E Block contents IsLive
    → ReleaseLaws E IsLive
    → MapLaws E
    → ListingLaws E
    → (get_allocator : AllocatorName → AllocatorId) (u : E.Manager) {w : World E}
    → Reaches IsLive (construct E get_allocator u) w
    → (es : List Event) × LeakReport w es
Reaches-report_leaks laws releases map listing get_allocator u {w} reached =
    report_leaks-LeakReport listing w
      (Reaches-IsConsistent laws releases map get_allocator u reached)

All-Occurs : {A : Type 0} {P : A → Type 0} (xs : List A) → ((x : A) → Occurs x xs → P x) → All P xs
All-Occurs [] each = tt
All-Occurs (x ∷ xs) each = (each x (inl refl), All-Occurs xs (λ y o. each y (inr o)))

-- In a world that allowed calls reach from a new ArrayManager, getTotalSize returns the sum of the
-- sizes of the map's records, modulo 2 ^ 64, each of which is live, and changes nothing. Allowed
-- calls use live records and spaces of the build, hand over memory that is not empty, that the map
-- does not know and that is live once it is registered, and ask for arrays that are not empty;
-- none is an evict, a deep copy of a record without memory in its last space, a reallocation of
-- memory that spaces share, a free in one space of memory that the record does not own or that
-- spaces share, or a free of shared PINNED memory in a build with UM and PINNED. The resource
-- manager and the map meet their laws, and an iteration over the map yields its entries.
pub Reaches-get_total_size :
    {E : Env} {Block : Type 0} {contents : E.Manager → Pointer → Block}
    {IsLive : E.Manager → Pointer → Type 0}
    → ManagerLaws E Block contents IsLive
    → ReleaseLaws E IsLive
    → MapLaws E
    → ListingLaws E
    → (get_allocator : AllocatorName → AllocatorId) (u : E.Manager) {w : World E}
    → Reaches IsLive (construct E get_allocator u) w
    → All (Lives w.heap) (E.entries w.pointer_map)
      × (get_total_size w ≡ done (sum_sizes w.heap (E.entries w.pointer_map) % size_mod) w)
Reaches-get_total_size {E} laws releases map listing get_allocator u {w} reached =
    let c = Reaches-IsConsistent laws releases map get_allocator u reached in
    let lives : All (Lives w.heap) (E.entries w.pointer_map) =
      All-Occurs (E.entries w.pointer_map) (λ (q, r) o.
        let h = c.known q r (listing.yielded q r w.pointer_map o) in (h.object, h.at)) in
    (lives, get_total_size-sum w c.unlocked lives)
