-- ===== src/Example/Sockets.antt =====
-- The theorems on sockets and on names, at concrete inputs.
use cinder_userspace.Base.{◌++◌, ◌≡◌, ℕ, refl, List, [], ◌∷◌, arith}
use cinder_userspace.Base.Int.{pos}
use cinder_userspace.Store.{Returns}
use cinder_userspace.Sock.{streamsock_read, streamsock_send}
use cinder_userspace.Sock.Read.{ReadDone}
use cinder_userspace.Sock.Arrived.{arrived, streamsock_read-arrived}
use cinder_userspace.Sock.Send.{SendDone, streamsock_send-SendDone}
use cinder_userspace.Controller.{rsv_name, tap_name}
use cinder_userspace.Controller.Names.{Named, names_give_uid}
use cinder_userspace.Example.{start, environment, willing}

abbrev message : List ℕ
message = 1 ∷ 2 ∷ 3 ∷ 4 ∷ []

streamsock_read-arrived_example :
    Returns
      (λ r w'.
        ReadDone (environment willing (pos 1) message) 4 start r w'
        × (arrived (environment willing (pos 1) message) w'.trace
            ≡ arrived (environment willing (pos 1) message) start.trace ++ r.buf))
      (streamsock_read (environment willing (pos 1) message) (pos 3) 8 16 4 8 start)
streamsock_read-arrived_example =
    streamsock_read-arrived (environment willing (pos 1) message) (pos 3) 8 16 4 8 start refl refl
      (omega arith) (omega arith) refl

streamsock_send-SendDone_example :
    Returns
      (SendDone (environment willing (pos 1) []) (pos 3) message 4 start)
      (streamsock_send (environment willing (pos 1) []) (pos 3) 8 message 4 8 start)
streamsock_send-SendDone_example =
    streamsock_send-SendDone (environment willing (pos 1) []) (pos 3) 8 message 4 8 start refl refl
      refl refl (omega arith)

names_give_uid_example : Named 10045 (rsv_name 10045) × Named 10045 (tap_name 10045)
names_give_uid_example = names_give_uid 10045 (omega arith)
