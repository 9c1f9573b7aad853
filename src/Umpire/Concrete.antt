-- ===== src/Umpire/Concrete.antt =====
-- A resource manager and a map that run, and that meet the laws: memory is a counter of addresses
-- with a number as each block's contents, and the map is an association list. They serve the tests.
use chai.Umpire.{
  Env, MapLaws, ListingLaws, ReleaseLaws, ManagerLaws, Pointer, RecordPointer, nullptr, ℕ, List,
  Option, Config,
}
use chai.Base.{
  ◌<◌, ℕ, List, Option, ◌∷◌, ◌≡◌, ◌≢◌, none, arith, if◌then◌else◌, ◌+◌, some, ◌==◌, refl, ◌&&◌, not,
  [], leb, ◌≤◌, Occurs, inl, ap, inr, ℕ_discrete, subst, sym, ◌∙◌,
}
use chai.Space.{Config}

pub record Memory : Type 0 where
  pub last : Pointer
  pub block : Pointer → ℕ

abbrev pub Assoc : Type 0
Assoc = List (Pointer × RecordPointer)

abbrev pub find : Pointer → Assoc → Option RecordPointer
find q [] = none
find q ((p, r) ∷ m) = if q == p then some r else find q m

-- An entry that is there stays as it is.
abbrev pub insert : Pointer → RecordPointer → Assoc → Assoc
insert q o [] = (q, o) ∷ []
insert q o ((p, r) ∷ m) = if q == p then (p, r) ∷ m else (p, r) ∷ insert q o m

abbrev pub erase : Pointer → Assoc → Assoc
erase q [] = []
erase q ((p, r) ∷ m) = if q == p then erase q m else (p, r) ∷ erase q m

-- The entries that `find` yields.
abbrev entries : Assoc → Assoc
entries [] = []
entries ((p, r) ∷ m) = (p, r) ∷ erase p (entries m)

find-insert_fresh :
    (q : Pointer) (o : RecordPointer) (m : Assoc) → find q m ≡ none → find q (insert q o m) ≡ some o
find-insert_fresh q o [] h = ground arith
find-insert_fresh q o ((p, r) ∷ m) h = ground (arith, find-insert_fresh q o m)

find-insert_other :
    (q p : Pointer) (o : RecordPointer) (m : Assoc) → p ≢ q → find p (insert q o m) ≡ find p m
find-insert_other q p o [] h = ground arith
find-insert_other q p o ((k, r) ∷ m) h = ground (arith, find-insert_other q p o m h)

find-erase : (q : Pointer) (m : Assoc) → find q (erase q m) ≡ none
find-erase q [] = refl
find-erase q ((p, r) ∷ m) = ground (arith, find-erase q m)

find-erase_other : (q p : Pointer) (m : Assoc) → p ≢ q → find p (erase q m) ≡ find p m
find-erase_other q p [] h = refl
find-erase_other q p ((k, r) ∷ m) h = ground (arith, find-erase_other q p m h)

Occurs-erase :
    (k q : Pointer) (o : RecordPointer) (m : Assoc)
    → Occurs (q, o) m
    → q ≢ k
    → Occurs (q, o) (erase k m)
Occurs-erase k q o [] h other = h
Occurs-erase k q o ((p, r) ∷ m) (inl same) other =
    let named : q ≡ p = ap (λ e. e.0) same in ground (arith, same)
Occurs-erase k q o ((p, r) ∷ m) (inr h) other = ground (arith, Occurs-erase k q o m h other)

erase-Occurs :
    (k q : Pointer) (o : RecordPointer) (m : Assoc)
    → Occurs (q, o) (erase k m)
    → (q ≢ k) × Occurs (q, o) m
erase-Occurs k q o [] h = absurd h
erase-Occurs k q o ((p, r) ∷ m) h = elim (ℕ_discrete k p) [
  | yes e ↦
      let skipped : erase k ((p, r) ∷ m) ≡ erase k m = ground arith in
      let (other, there) = erase-Occurs k q o m (subst (Occurs (q, o)) skipped h) in
      (other, inr there)
  | no n ↦
      let stays : erase k ((p, r) ∷ m) ≡ (p, r) ∷ erase k m = ground arith in
      elim (subst (Occurs (q, o)) stays h) [
        | inl same ↦ (λ e. n (sym e ∙ ap (λ x. x.0) same), inl same)
        | inr h' ↦ let (other, there) = erase-Occurs k q o m h' in (other, inr there)
      ]
]

find-Occurs :
    (q : Pointer) (o : RecordPointer) (m : Assoc) → find q m ≡ some o → Occurs (q, o) (entries m)
find-Occurs q o [] h = cc
find-Occurs q o ((p, r) ∷ m) h = elim (ℕ_discrete q p) [
  | yes e ↦
      let mine : some r ≡ some o =
        (let found : find q ((p, r) ∷ m) ≡ some r = ground arith in sym found ∙ h) in
      inl cc
  | no n ↦ inr (Occurs-erase p q o (entries m) (find-Occurs q o m (ground arith)) n)
]

Occurs-find :
    (q : Pointer) (o : RecordPointer) (m : Assoc) → Occurs (q, o) (entries m) → find q m ≡ some o
Occurs-find q o [] h = absurd h
Occurs-find q o ((p, r) ∷ m) (inl same) =
    let at : q ≡ p = ap (λ x. x.0) same in
    let mine : o ≡ r = ap (λ x. x.1) same in ground (arith, mine)
Occurs-find q o ((p, r) ∷ m) (inr h) =
    let (other, there) = erase-Occurs p q o (entries m) h in ground (arith, Occurs-find q o m there)

abbrev pub concrete : Config → Env
concrete c = record {
  config = c;
  Manager = Memory;
  allocate = λ a n u. (u.last + 1, record u { last = u.last + 1 });
  deallocate = λ a p u. u;
  copy = λ dst src u. record u { block = λ q. if q == dst then u.block src else u.block q };
  copy_bytes = λ dst src n u. record u { block = λ q. if q == dst then u.block src else u.block q };
  has_allocator = λ p u. leb p u.last && not (p == nullptr);
  find_allocation = λ p u. some p;
  resize_allocation = λ p n u. u;
  register_allocation = λ p n a u. u;
  deregister_allocation = λ p u. u;
  Map = Assoc;
  clear = [];
  find = find;
  insert = insert;
  erase = erase;
  entries = entries;
}

abbrev pub block_of : Memory → Pointer → ℕ
block_of u = u.block

-- One of the addresses given out.
abbrev pub IsLive : Memory → Pointer → Type 0
IsLive u p = (0 < p) × (p ≤ u.last)

pub concrete-MapLaws : (c : Config) → MapLaws (concrete c)
concrete-MapLaws c = record {
  find_insert_fresh = find-insert_fresh;
  find_insert_other = find-insert_other;
  find_erase = find-erase;
  find_erase_other = find-erase_other;
  find_clear = λ p. refl;
}

pub concrete-ReleaseLaws : (c : Config) → ReleaseLaws (concrete c) IsLive
concrete-ReleaseLaws c = record {
  deallocate_keeps = λ a q u p h l. l;
  deregister_keeps = λ q u p h l. l;
  copy_bytes_live = λ dst src n u p l. l;
  byte = λ u p i. u.block p;
  allocate_bytes = λ a n u p i l. refl;
  copy_bytes_to = λ dst src n i u h. ground arith;
  copy_bytes_keeps = λ dst src p n i u h. ground arith;
  deallocate_bytes = λ a q u p i h. refl;
}

pub concrete-ManagerLaws : (c : Config) → ManagerLaws (concrete c) ℕ block_of IsLive
concrete-ManagerLaws c = record {
  allocate_new = λ a n u. (λ e. omega arith, λ p l e. omega arith);
  live_real = λ p u l e. omega arith;
  allocate_live = λ a n u. (omega arith, omega arith);
  allocate_keeps = λ a n u p l. ((omega arith, omega arith), refl);
  copy_to = λ dst src u. ground arith;
  copy_keeps = λ dst src p u h. ground arith;
  copy_live = λ dst src p u l. l;
  register_keeps = λ q n a u p l. (l, refl);
  resize_keeps = λ q n u p l. (l, refl);
}

pub concrete-ListingLaws : (c : Config) → ListingLaws (concrete c)
concrete-ListingLaws c = record { yields = find-Occurs; yielded = Occurs-find }
