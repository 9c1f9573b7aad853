-- ===== src/Tests/Pointers.antt =====
-- A managed_ptr with an object on the host and one on the device.
use chai.ManagedPtr.Handle.{copy}
use chai.Tests.Worlds.{env}
use chai.ManagedPtr.Host.{Program, PtrCallback, Host, unset, set}
use chai.ManagedPtr.Handle.{ManagedPtr}
use chai.Tests.Worlds.{start, simulated}
use chai.ManagedPtr.Free.{free_ptr}
use chai.ManagedPtr.Make.{make_managed}
use chai.Base.{List, true, false, if◌then◌else◌, ◌≡◌, some, ◌+◌, ◌==◌, none, ◌∷◌, [], arith, refl}
use chai.Space.{gpu, cpu, all_spaces}
use chai.ManagedPtr.Handle.Told.{tellings, copy-copy}
use chai.ManagedPtr.Lifetime.Whole.{make_managed-free_ptr}
use chai.ManagedPtr.Lifetime.{
  PtrUse, perform_uses, destructions, enter, copied, read, read_in, call_back,
}

abbrev program : Program
program = record { env = env; gpucc = true; answer = λ n a s q. false; new_object = λ s n. n + 10 }

abbrev both : ManagedPtr
both = record { cpu_pointer = 5; gpu_pointer = 6; pointer_record = 1 }

abbrev host : PtrCallback → Host program
host c = record {
  manager = record start { current_execution_space = gpu };
  records = λ r. if r == 1 then some (record { last_space = cpu; callback = c }) else none;
  next_record = 2;
  objects = 0;
  log = [];
}

abbrev uses : List PtrUse
uses = copied ∷ call_back (set 7) ∷ enter cpu ∷ read ∷ read_in gpu true ∷ []

make_managed-free_ptr_example :
    (m : ManagedPtr) × (h1 : Host program) × (make_managed (host unset) ≡ some (m, h1))
    × (h2 : Host program) × (perform_uses m uses h1 ≡ some (tt, h2))
    × (m' : ManagedPtr) × (h3 : Host program) × (free_ptr m h2 ≡ some (m', h3))
    × (h3.records m.pointer_record ≡ none)
    × (m.cpu_pointer ≡ 11)
    × (m.gpu_pointer ≡ 10)
    × (destructions cpu m.cpu_pointer h3.log ≡ 1 + destructions cpu m.cpu_pointer [])
    × (destructions gpu m.gpu_pointer h3.log ≡ 1 + destructions gpu m.gpu_pointer [])
make_managed-free_ptr_example =
    make_managed-free_ptr uses (host unset) refl refl (λ e. omega arith) (λ e. omega arith)
      (λ e. omega arith)

copy-copy_example :
    (h' : Host program) × (copy both (host (set 7)) ≡ some (both, h'))
    × (h'.log ≡ tellings program both 7 (all_spaces simulated) [])
    × (h'.records 1 ≡ some (record { last_space = gpu; callback = set 7 }))
    × (copy both h' ≡ some (both, h'))
copy-copy_example =
    copy-copy both (host (set 7)) (record { last_space = cpu; callback = set 7 }) 7
      (λ e. omega arith) refl refl (λ e. cc) (λ e. cc)
