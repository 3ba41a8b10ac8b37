-- ===== src/Example/Table.antt =====
-- A hash table that is a list of keys and addresses.
use cinder_userspace.Base.{
  ℕ, ◌≡◌, refl, Bool, true, false, not, ◌&&◌, ◌||◌, List, [], ◌∷◌, Option, none, some, arith, ◌==◌,
  if◌then◌else◌, mem, Distinct, Bool-cases, inl, inr,
}
use cinder_userspace.Os.{Ptr, HashTable}

abbrev pub Pairs : Type 0
Pairs = List (ℕ × Ptr)

abbrev keys : Pairs → List ℕ
keys [] = []
keys ((k, p) ∷ h) = k ∷ keys h

abbrev addresses : Pairs → List Ptr
addresses [] = []
addresses ((k, p) ∷ h) = p ∷ addresses h

abbrev distinct : List ℕ → Bool
distinct [] = true
distinct (x ∷ xs) = not (mem x xs) && distinct xs

abbrev find : Pairs → ℕ → Option Ptr
find [] k = none
find ((j, p) ∷ h) k = if j == k then some p else find h k

abbrev add : Pairs → ℕ → Ptr → Pairs
add [] k p = (k, p) ∷ []
add ((j, q) ∷ h) k p = (j, q) ∷ add h k p

abbrev delete : Pairs → ℕ → Ptr → Pairs
delete [] k p = []
delete ((j, q) ∷ h) k p = if j == k then delete h k p else (j, q) ∷ delete h k p

abbrev well_formed : Pairs → Bool
well_formed h = distinct (keys h) && distinct (addresses h)

mem-keys-add :
    (h : Pairs) (k : ℕ) (p : Ptr) (j : ℕ) → mem j (keys (add h k p)) ≡ (mem j (keys h) || (k == j))
mem-keys-add [] k p j = ground arith
mem-keys-add ((i, q) ∷ h) k p j = ground (arith, mem-keys-add h k p j)

mem-addresses-add :
    (h : Pairs) (k : ℕ) (p q : Ptr)
    → mem q (addresses (add h k p)) ≡ (mem q (addresses h) || (p == q))
mem-addresses-add [] k p q = ground arith
mem-addresses-add ((i, r) ∷ h) k p q = ground (arith, mem-addresses-add h k p q)

mem-keys-find : (h : Pairs) (k : ℕ) → find h k ≡ none → mem k (keys h) ≡ false
mem-keys-find [] k e = refl
mem-keys-find ((i, q) ∷ h) k e = ground (arith, mem-keys-find h k)

pub add-well_formed :
    (h : Pairs) (k : ℕ) (p : Ptr)
    → well_formed h ≡ true
    → find h k ≡ none
    → mem p (addresses h) ≡ false
    → well_formed (add h k p) ≡ true
add-well_formed [] k p w e out = refl
add-well_formed ((i, q) ∷ h) k p w e out =
    ground (arith, add-well_formed h k p, mem-keys-add h k p i, mem-addresses-add h k p q)

mem-keys-delete :
    (h : Pairs) (k : ℕ) (p : Ptr) (j : ℕ)
    → mem j (keys h) ≡ false
    → mem j (keys (delete h k p)) ≡ false
mem-keys-delete [] k p j e = refl
mem-keys-delete ((i, q) ∷ h) k p j e = ground (arith, mem-keys-delete h k p j)

mem-addresses-delete :
    (h : Pairs) (k : ℕ) (p q : Ptr)
    → mem q (addresses h) ≡ false
    → mem q (addresses (delete h k p)) ≡ false
mem-addresses-delete [] k p q e = refl
mem-addresses-delete ((i, r) ∷ h) k p q e = ground (arith, mem-addresses-delete h k p q)

pub delete-well_formed :
    (h : Pairs) (k : ℕ) (p : Ptr) → well_formed h ≡ true → well_formed (delete h k p) ≡ true
delete-well_formed [] k p w = refl
delete-well_formed ((i, q) ∷ h) k p w =
    ground (arith, delete-well_formed h k p, mem-keys-delete h k p i, mem-addresses-delete h k p q)

pub find-add :
    (h : Pairs) (k : ℕ) (p : Ptr) (j : ℕ)
    → find h k ≡ none
    → find (add h k p) j ≡ (if k == j then some p else find h j)
find-add [] k p j e = refl
find-add ((i, q) ∷ h) k p j e = ground (arith, find-add h k p j)

pub find-delete :
    (h : Pairs) (k : ℕ) (p : Ptr) (j : ℕ)
    → find (delete h k p) j ≡ (if k == j then none else find h j)
find-delete [] k p j = ground arith
find-delete ((i, q) ∷ h) k p j = ground (arith, find-delete h k p j)

pub mem-addresses-find :
    (h : Pairs) (k : ℕ) (p : Ptr) → find h k ≡ some p → mem p (addresses h) ≡ true
mem-addresses-find [] k p e = cc
mem-addresses-find ((i, q) ∷ h) k p e = ground (arith, mem-addresses-find h k p)

mem-keys-find_some : (h : Pairs) (k : ℕ) (p : Ptr) → find h k ≡ some p → mem k (keys h) ≡ true
mem-keys-find_some [] k p e = cc
mem-keys-find_some ((i, q) ∷ h) k p e = ground (arith, mem-keys-find_some h k p)

pub find_of_mem :
    (h : Pairs) (p : Ptr)
    → well_formed h ≡ true
    → mem p (addresses h) ≡ true
    → (k : ℕ) × (find h k ≡ some p)
find_of_mem [] p w m = cc
find_of_mem ((i, q) ∷ h) p w m = elim (Bool-cases (q == p)) [
  | inl e ↦ (i, ground arith)
  | inr e ↦
      let (k, f) = find_of_mem h p (ground arith) (ground arith) in
      (k, ground (arith, mem-keys-find_some h k p))
]

Distinct-addresses : (xs : List ℕ) → distinct xs ≡ true → Distinct xs
Distinct-addresses [] e = tt
Distinct-addresses (x ∷ xs) e = (ground arith, Distinct-addresses xs (ground arith))

pub addresses-Distinct : (h : Pairs) → well_formed h ≡ true → Distinct (addresses h)
addresses-Distinct h w = Distinct-addresses (addresses h) (ground arith)

abbrev is_nil : Pairs → Bool
is_nil [] = true
is_nil (x ∷ h) = false

pub addresses_of_is_nil : (h : Pairs) → is_nil h ≡ true → addresses h ≡ []
addresses_of_is_nil [] e = refl
addresses_of_is_nil (x ∷ h) e = cc

pub is_nil_of_addresses : (h : Pairs) → addresses h ≡ [] → is_nil h ≡ true
is_nil_of_addresses [] e = refl
is_nil_of_addresses (x ∷ h) e = cc

abbrev pub list_table : HashTable Pairs
list_table = record {
  empty = [];
  find = find;
  add = add;
  delete = delete;
  items = addresses;
  is_null = is_nil;
  well_formed = well_formed;
  empty-well_formed = refl;
  add-well_formed = add-well_formed;
  delete-well_formed = λ h k p w e. delete-well_formed h k p w;
  find-empty = λ k. refl;
  find-add = λ h k p j w e. find-add h k p j e;
  find-delete = λ h k p j w e. find-delete h k p j;
  mem_items_of_find = λ h k p w e. mem-addresses-find h k p e;
  find_of_mem_items = find_of_mem;
  items-Distinct = addresses-Distinct;
  is_null-items = λ h w e. addresses_of_is_nil h e;
  items-is_null = λ h w e. is_nil_of_addresses h e;
}
