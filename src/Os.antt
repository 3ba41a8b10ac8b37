-- ===== src/Os.antt =====
-- What the programs run on: the calls that they make of pthreads, of the allocator and of the Cinder
-- kernel, and the copies of uthash and list.h that the daemon links. None of it is the program's own code,
-- so it is a parameter, `Env`: a result may depend on every call made before it.
pub mod Ledger
use cinder_userspace.Base.{
  ℕ, ◌≡◌, refl, arith, Bool, true, false, List, [], ◌∷◌, ◌++◌, Option, none, some, not, ◌==◌,
  if◌then◌else◌, mem, Distinct, leb, ltb, length,
}
use cinder_userspace.Base.Int.{ℤ, pos, negsuc, pos_part, is_zero}

-- Addresses; 0 is NULL.
abbrev pub Ptr : Type 0
Ptr = ℕ

abbrev pub null : Ptr
null = 0

-- The mutexes: `lock` of the context, `dbase_lock` of the database, `data_lock` of each record.
pub data Mutex : Type 0 where
  context_lock dbase_lock : Mutex
  data_lock : Ptr → Mutex

abbrev pub same_mutex : Mutex → Mutex → Bool
same_mutex context_lock context_lock = true
same_mutex dbase_lock dbase_lock = true
same_mutex (data_lock p) (data_lock q) = p == q
same_mutex _ _ = false

-- `reaper_thread_exited` of the context, and `keep_running_semaphore` of main.c.
pub data Semaphore : Type 0 where
  reaper_thread_exited keep_running : Semaphore

pub data Call : Type 0 where
  mutex_init mutex_lock mutex_unlock mutex_destroy : Mutex → Call
  malloc : Call
  free : Ptr → Call
  sys_create_reserve : List ℕ → ℕ → Call
  sys_create_tap : List ℕ → ℕ → ℤ → ℤ → Call
  sys_set_tap_rate : ℤ → ℤ → ℤ → Call
  sys_put_reserve : ℤ → Call
  sys_delete_tap : ℤ → Call
  sys_expose_reserve : ℤ → ℤ → ℕ → Call
  sys_reserve_info : ℤ → Call
  sys_root_reserve_id : Call
  recv : ℤ → ℕ → Call
  send : ℤ → List ℕ → Call
  close : ℤ → Call
  socket : Call
  accept : ℤ → Call
  unlink : List ℕ → Call
  bind : ℤ → List ℕ → Call
  listen : ℤ → ℕ → Call
  getsockopt_peercred : ℤ → Call
  pthread_create : Call
  sigaction : Call
  sem_init sem_post sem_wait sem_destroy : Semaphore → Call
  sleep : ℕ → Call
  connect : ℤ → List ℕ → Call
  -- A text on the standard output.
  print : List ℕ → Call
  getpid : Call
  -- The calls of the test programs: the n-th thread, the end of a process.
  pthread_join : ℕ → Call
  fork : Call
  waitpid : ℤ → Call
  -- A call of Cinder by its number, where the daemon does not make it.
  syscall : ℕ → List ℤ → Call

-- A call and what it returned; `malloc` returns the address.
pub record Event : Type 0 where
  pub call : Call
  pub ret : ℤ

-- The calls made so far, the newest first.
abbrev pub Trace : Type 0
Trace = List Event

-- Is an object at this address, by the calls made so far?
pub allocated_by : Ptr → Call → ℤ → Bool → Bool
allocated_by p malloc r before = if pos_part r == p then not (p == null) else before
allocated_by p (free q) r before = if q == p then false else before
allocated_by p _ r before = before

unfoldable pub allocated : Ptr → Trace → Bool
unfolding allocated_by
allocated p [] = false
allocated p (e ∷ t) = allocated_by p e.call e.ret (allocated p t)

-- What `recv` and `send` of at most `n` bytes may return: -1, or how many bytes they moved.
abbrev pub within : ℤ → ℕ → Bool
within (pos k) n = leb k n
within (negsuc k) n = k == 0

-- A call that neither allocates nor frees.
abbrev pub is_quiet : Call → Bool
is_quiet malloc = false
is_quiet (free p) = false
is_quiet _ = true

pub allocated-null : (t : Trace) → allocated null t ≡ false
unfolding allocated
allocated-null [] = refl
allocated-null (e ∷ t) = ground (arith, allocated-null t)

pub allocated_quiet :
    (p : Ptr) (e : Event) (t : Trace) → is_quiet e.call ≡ true → allocated p (e ∷ t) ≡ allocated p t
unfolding allocated
allocated_quiet p e t q = ground arith

-- The operations of uthash on the table of the records by uid: the head `H`, HASH_FIND, HASH_ADD,
-- HASH_DEL, the order in which HASH_ITER visits the records, and what its documentation promises
-- of a table in which no key and no record was added twice.
pub record HashTable (H : Type 0) : Type 0 where
  pub empty : H
  pub find : H → ℕ → Option Ptr
  pub add : H → ℕ → Ptr → H
  pub delete : H → ℕ → Ptr → H
  pub items : H → List Ptr
  pub is_null : H → Bool
  -- Every key and every record stands once in the table.
  pub well_formed : H → Bool
  pub empty-well_formed : well_formed empty ≡ true
  pub add-well_formed :
      (h : H) (k : ℕ) (p : Ptr)
      → well_formed h ≡ true
      → find h k ≡ none
      → mem p (items h) ≡ false
      → well_formed (add h k p) ≡ true
  pub delete-well_formed :
      (h : H) (k : ℕ) (p : Ptr)
      → well_formed h ≡ true
      → find h k ≡ some p
      → well_formed (delete h k p) ≡ true
  pub find-empty : (k : ℕ) → find empty k ≡ none
  pub find-add :
      (h : H) (k : ℕ) (p : Ptr) (j : ℕ)
      → well_formed h ≡ true
      → find h k ≡ none
      → find (add h k p) j ≡ (if k == j then some p else find h j)
  pub find-delete :
      (h : H) (k : ℕ) (p : Ptr) (j : ℕ)
      → well_formed h ≡ true
      → find h k ≡ some p
      → find (delete h k p) j ≡ (if k == j then none else find h j)
  pub mem_items_of_find :
      (h : H) (k : ℕ) (p : Ptr) → well_formed h ≡ true → find h k ≡ some p → mem p (items h) ≡ true
  pub find_of_mem_items :
      (h : H) (p : Ptr)
      → well_formed h ≡ true
      → mem p (items h) ≡ true
      → (k : ℕ) × (find h k ≡ some p)
  pub items-Distinct : (h : H) → well_formed h ≡ true → Distinct (items h)
  pub is_null-items : (h : H) → well_formed h ≡ true → is_null h ≡ true → items h ≡ []
  pub items-is_null : (h : H) → well_formed h ≡ true → items h ≡ [] → is_null h ≡ true

-- The operations of list.h on the list of the dead records.
pub record LinkedList (L : Type 0) : Type 0 where
  pub init : L
  pub add_tail : Ptr → L → L
  pub is_empty : L → Bool
  pub entries : L → List Ptr
  pub entries-init : entries init ≡ []
  pub entries-add_tail :
      (p : Ptr) (l : L) → mem p (entries l) ≡ false → entries (add_tail p l) ≡ entries l ++ p ∷ []
  pub is_empty-entries : (l : L) → is_empty l ≡ true → entries l ≡ []
  pub entries-is_empty : (l : L) → entries l ≡ [] → is_empty l ≡ true

pub record Env (H L : Type 0) : Type 0 where
  pub hash : HashTable H
  pub list : LinkedList L
  -- What a call returns, and for `sys_reserve_info` the users that it reports.
  pub result : Trace → Call → ℤ
  pub num_users : Trace → ℤ → ℤ
  -- The value of the n-th int of a local variable that is not initialised.
  pub indeterminate : Trace → ℕ → ℤ
  -- `errno` behind a call, and the bytes that a `recv` stores.
  pub errno : Trace → ℤ
  pub received : Trace → ℤ → ℕ → List ℕ
  -- The credentials of the peer of a socket: its process, its user and its group.
  pub peer : Trace → ℤ → ℤ × ℕ × ℕ
  pub recv_within : (t : Trace) (sock : ℤ) (n : ℕ) → within (result t (recv sock n)) n ≡ true
  pub send_within :
      (t : Trace) (sock : ℤ) (bytes : List ℕ)
      → within (result t (send sock bytes)) (length bytes) ≡ true
  pub send_progress :
      (t : Trace) (sock : ℤ) (bytes : List ℕ)
      → ltb 0 (length bytes) ≡ true
      → is_zero (result t (send sock bytes)) ≡ false
  pub length-received :
      (t : Trace) (sock : ℤ) (n : ℕ)
      → length (received t sock n) ≡ pos_part (result t (recv sock n))
  -- `malloc` returns no address at which an object is.
  pub malloc_fresh : (t : Trace) → allocated (pos_part (result t malloc)) t ≡ false
