-- ===== src/Dbase/Steady.antt =====
-- Steps that leave the table, the dead list and the uids of the records as they are.
use cinder_userspace.Base.{◌≡◌, arith}
use cinder_userspace.Os.{Ptr, allocated, Env}
use cinder_userspace.Store.{World}
use cinder_userspace.Dbase.Invariant.{Inv, key_of}

module _ {H L : Type 0} where
  -- What such a step says of one address.
  pub record Steady (q : Ptr) (w w' : World H L) : Type 0 where
    pub active : w'.active ≡ w.active
    pub dead_list : w'.dead_list ≡ w.dead_list
    pub key : key_of (w'.heap q) ≡ key_of (w.heap q)
    pub memory : allocated q w'.trace ≡ allocated q w.trace

  pub Steady-Inv :
      (env : Env H L) (w w' : World H L) → ((q : Ptr) → Steady q w w') → Inv env w → Inv env w'
  Steady-Inv env w w' s v = record {
    table = ground (arith, s 0, v.table);
    keyed = λ k q h. ground (arith, s q, v.keyed k q);
    buried = λ q h. ground (arith, s q, v.buried q);
    apart = λ k q h. ground (arith, s q, v.apart k q);
    distinct = rw (s 0).dead_list v.distinct;
    in_memory = λ q h. ground (arith, s q, v.in_memory q);
  }
